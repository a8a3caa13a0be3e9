-- ===== src/Links/Workers.antt =====
-- The requests for links, AvailableLink of proxy/lambdastore/link_manager.go: each has a goroutine,
-- which GetRequestPipe starts, that looks for a link, waits for the request and hands it over. The
-- goroutines interleave at the places where they wait or lock.
use lambda_objectstore.Base.{
  ℕ, suc, Bool, true, false, ◌&&◌, Option, none, some, List, [], ◌∷◌, ◌++◌, length, get_elem?, set,
  if◌then◌else◌,
}
use lambda_objectstore.Base.Int.{negsuc, ◌+ℤ◌}
use lambda_objectstore.Links.{
  AvailableLinks, Found, no_round, waiting, found, find_loop, add_available, reset_available,
}
pub mod Requests
pub mod Counting
pub mod Counted

-- The errors of the package, and what SendRequest returned.
pub data LinkError : Type 0 where
  request_closed request_timeout manager_reset : LinkError
  sent : Option ℕ → LinkError

abbrev pub is_reset : LinkError → Bool
is_reset manager_reset = true
is_reset _ = false

-- Where its goroutine is: it looks for a link; it has one and waits for the request; it has both;
-- it gives the link back; it returned.
pub data Place : Type 0 where
  finding holding releasing ended : Place
  serving : ℕ → Place

-- `in_list`: `elem` is not nil, so that the request stands in linkRequests.
pub record AvailableLink : Type 0 where
  pub in_list : Bool
  pub link : Option ℕ
  pub err : Option LinkError
  pub closed : Bool
  pub place : Place

-- linkRequests are those of `requests` that are in the list, in this order.
pub record Pool : Type 0 where
  pub links : AvailableLinks
  pub requests : List AvailableLink

unfoldable pub get_request_pipe : Pool → Pool
get_request_pipe p = record p {
  requests =
      p.requests
      ++ (record { in_list = true; link = none; err = none; closed = false; place = finding } ∷ []);
}

abbrev pub is_some {ℓ} : {A : Type ℓ} → Option A → Bool
is_some none = false
is_some (some _) = true

abbrev pub counted_off : AvailableLinks → AvailableLinks
counted_off l = record l { total = l.total +ℤ negsuc 0 }

unfoldable pub reset_link_request_locked :
    LinkError → AvailableLinks → AvailableLink → AvailableLinks × AvailableLink
reset_link_request_locked error l al =
    if al.in_list
    then (if is_some al.link && is_reset error
        then (
          counted_off l,
          record al { in_list = false; err = some error; closed = true; link = none },
        )
        else (l, record al { in_list = false; err = some error; closed = true }))
    else (l, al)

-- SetTimeout's goroutine, when the time is over
unfoldable pub time_out : AvailableLinks → AvailableLink → AvailableLinks × AvailableLink
unfolding reset_link_request_locked
time_out l al = if is_some al.link then (l, al) else reset_link_request_locked request_timeout l al

-- Finding: a waiting goroutine returns where its request was closed.
abbrev pub after_find : AvailableLink → Found → AvailableLinks → AvailableLinks × AvailableLink
after_find al no_round l = (l, al)
after_find al (waiting m) l = (m, if al.closed then record al { place = ended } else al)
after_find al (found link m) l = (m, record al { link = some link; place = holding })

unfoldable pub find : AvailableLinks → AvailableLink → AvailableLinks × AvailableLink
unfolding find_loop
find l al = after_find al (find_loop (suc (length l.front)) l) l

-- The request came; it is served unless its place in the list was given up.
unfoldable pub take_request : ℕ → AvailableLink → AvailableLink
take_request req al =
    if al.in_list
    then record al { in_list = false; place = serving req }
    else record al { place = releasing }

abbrev pub kept_links : Option (Bool × AvailableLinks) → AvailableLinks → AvailableLinks
kept_links none l = l
kept_links (some (_, m)) l = m

abbrev pub is_reset_error : Option LinkError → Bool
is_reset_error none = false
is_reset_error (some error) = is_reset error

-- A link is given back, unless it was reset.
unfoldable pub release : AvailableLinks → Option ℕ → AvailableLink → AvailableLinks × AvailableLink
release l none al = (l, record al { link = none; place = ended })
release l (some link) al = (
  if is_reset_error al.err
      then counted_off l
      else kept_links (add_available true link (counted_off l)) (counted_off l),
  record al { link = none; place = ended },
)

-- The link is counted off, and SendRequest returned `answer`.
unfoldable pub serve : Option ℕ → AvailableLinks → AvailableLink → AvailableLinks × AvailableLink
serve answer l al = (
  if is_some al.link then counted_off l else l,
  record al { err = some (sent answer); closed = true; place = ended },
)

-- What may happen to a request: its goroutine goes on, or it is closed or timed out.
pub data Event : Type 0 where
  found_link : Event
  request_came : ℕ → Event
  saw_closed : Event
  served : Option ℕ → Event
  released : Event
  closing : Event
  timing_out : Event

abbrev pub is_finding : Place → Bool
is_finding finding = true
is_finding _ = false

abbrev pub is_holding : Place → Bool
is_holding holding = true
is_holding _ = false

abbrev pub is_releasing : Place → Bool
is_releasing releasing = true
is_releasing _ = false

abbrev pub is_serving : Place → Bool
is_serving (serving _) = true
is_serving _ = false

-- An event at its place; elsewhere nothing happens.
unfoldable pub on_event : Event → AvailableLinks → AvailableLink → AvailableLinks × AvailableLink
unfolding find take_request release serve reset_link_request_locked time_out
on_event found_link l al = if is_finding al.place then find l al else (l, al)
on_event (request_came req) l al = if is_holding al.place then (l, take_request req al) else (l, al)
on_event saw_closed l al =
    if is_holding al.place && al.closed then (l, record al { place = releasing }) else (l, al)
on_event (served answer) l al = if is_serving al.place then serve answer l al else (l, al)
on_event released l al = if is_releasing al.place then release l al.link al else (l, al)
on_event closing l al = reset_link_request_locked request_closed l al
on_event timing_out l al = time_out l al

abbrev pub on_request : Event → ℕ → Option AvailableLink → Pool → Pool
on_request e i none p = p
on_request e i (some al) p =
    let next = on_event e p.links al in
    record { links = next.0; requests = set p.requests i next.1 }

-- An event of the request at a position
unfoldable pub run_event : Event → ℕ → Pool → Pool
unfolding on_event
run_event e i p = on_request e i (get_elem? p.requests i) p

unfoldable pub reset_requests :
    List AvailableLink → AvailableLinks → AvailableLinks × List AvailableLink
unfolding reset_link_request_locked
reset_requests [] l = (l, [])
reset_requests (al ∷ als) l =
    let first = reset_link_request_locked manager_reset l al in
    let rest = reset_requests als first.0 in (rest.0, first.1 ∷ rest.1)

-- Reset() of AvailableLinks
unfoldable pub reset_pool : Pool → Pool
unfolding reset_requests reset_available
reset_pool p =
    let r = reset_requests p.requests p.links in
    record { links = reset_available r.0; requests = r.1 }

abbrev pub added_to : Pool → Option (Bool × AvailableLinks) → Bool × Pool
added_to p none = (false, p)
added_to p (some (accepted, l)) = (accepted, record p { links = l })

-- AddAvailable(link, nolimit)
unfoldable pub add_to_pool : Bool → ℕ → Pool → Bool × Pool
add_to_pool nolimit link p = added_to p (add_available nolimit link p.links)
