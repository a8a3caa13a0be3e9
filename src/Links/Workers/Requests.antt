-- ===== src/Links/Workers/Requests.antt =====
-- The end of a request for a link, proxy/lambdastore/link_manager.go.
use lambda_objectstore.Base.{
  ℕ, suc, ◌≡◌, inl, inr, refl, sym, ◌∙◌, ap, subst, Bool, true, false, not, ◌&&◌, ◌||◌, Option,
  none, some, List, [], ◌∷◌, get_elem?, set, if◌then◌else◌, arith, Bool-cases, zero, ◌==◌,
  get_elem?-set, get_elem?_bounds, get_elem?-append_left,
}
use mathlib.Core.Option.{some-injective, none-ne-some}
use lambda_objectstore.Links.{AvailableLinks, Found, no_round, waiting, found, add_available}
use lambda_objectstore.Links.Workers.{
  LinkError, request_closed, request_timeout, manager_reset, Place, finding, holding, releasing,
  ended, serving, AvailableLink, Pool, get_request_pipe, is_some, reset_link_request_locked,
  time_out, after_find, find, take_request, release, serve, Event, found_link, request_came,
  saw_closed, served, released, closing, timing_out, is_finding, is_holding, is_releasing,
  is_serving, on_event, on_request, run_event, reset_requests, reset_pool, add_to_pool, added_to,
}

-- A request is open while it stands in the list or is served, and never both; one in the list that
-- has a link holds it.
abbrev pub IsOnce : AvailableLink → Type 0
IsOnce al =
    ((al.in_list || is_serving al.place) ≡ not al.closed)
    × ((al.in_list && is_serving al.place) ≡ false)
    × ((al.in_list && (is_some al.link && not (is_holding al.place))) ≡ false)

abbrev pub Apart : Place → Type 0
Apart p =
    ((is_serving p && is_holding p) ≡ false)
    × ((is_serving p && is_finding p) ≡ false)
    × ((is_serving p && is_releasing p) ≡ false)

pub place-Apart : (p : Place) → Apart p
place-Apart finding = (refl, refl, refl)
place-Apart holding = (refl, refl, refl)
place-Apart releasing = (refl, refl, refl)
place-Apart ended = (refl, refl, refl)
place-Apart (serving _) = (refl, refl, refl)

-- A request that was closed stays closed with the error it has.
abbrev Final : AvailableLink → AvailableLink → Type 0
Final al al' = al.closed ≡ true → (al'.closed ≡ true) × (al'.err ≡ al.err)

pub reset_request-Once :
    (error : LinkError) (l : AvailableLinks) (al : AvailableLink)
    → IsOnce al
    → IsOnce (reset_link_request_locked error l al).1
unfolding reset_link_request_locked
reset_request-Once error l al once = ground arith

reset_request-Final :
    (error : LinkError) (l : AvailableLinks) (al : AvailableLink)
    → IsOnce al
    → Final al (reset_link_request_locked error l al).1
unfolding reset_link_request_locked
reset_request-Final error l al once closed = ground arith

after_find-Once :
    (al : AvailableLink) (f : Found) (l : AvailableLinks)
    → is_finding al.place ≡ true
    → IsOnce al
    → IsOnce (after_find al f l).1
after_find-Once al no_round l at once = once
after_find-Once al (waiting m) l at once = let apart = place-Apart al.place in ground arith
after_find-Once al (found link m) l at once = let apart = place-Apart al.place in ground arith

after_find-Final :
    (al : AvailableLink) (f : Found) (l : AvailableLinks) → Final al (after_find al f l).1
after_find-Final al no_round l closed = (closed, refl)
after_find-Final al (waiting m) l closed = ground arith
after_find-Final al (found link m) l closed = (closed, refl)

release-Final :
    (l : AvailableLinks) (link : Option ℕ) (al : AvailableLink)
    → (IsOnce al → is_releasing al.place ≡ true → IsOnce (release l link al).1)
      × Final al (release l link al).1
unfolding release
release-Final l none al =
    (λ once at. let apart = place-Apart al.place in ground arith, λ closed. (closed, refl))
release-Final l (some link) al =
    (λ once at. let apart = place-Apart al.place in ground arith, λ closed. (closed, refl))

pub on_event-Once :
    (e : Event) (l : AvailableLinks) (al : AvailableLink) → IsOnce al → IsOnce (on_event e l al).1
unfolding on_event find take_request serve time_out
on_event-Once found_link l al once = elim (Bool-cases (is_finding al.place)) [
  | inl e ↦ rw e (after_find-Once al _ l e once)
  | inr e ↦ rw e once
]
on_event-Once (request_came req) l al once = let apart = place-Apart al.place in ground arith
on_event-Once saw_closed l al once = let apart = place-Apart al.place in ground arith
on_event-Once (served answer) l al once = let apart = place-Apart al.place in ground arith
on_event-Once released l al once = elim (Bool-cases (is_releasing al.place)) [
  | inl e ↦ rw e ((release-Final l al.link al).0 once e)
  | inr e ↦ rw e once
]
on_event-Once closing l al once = reset_request-Once request_closed l al once
on_event-Once timing_out l al once =
    let at = reset_request-Once request_timeout l al once in ground arith

on_event-Final :
    (e : Event) (l : AvailableLinks) (al : AvailableLink) → IsOnce al → Final al (on_event e l al).1
unfolding on_event find take_request serve time_out
on_event-Final found_link l al once closed = elim (Bool-cases (is_finding al.place)) [
  | inl e ↦ rw e (after_find-Final al _ l closed)
  | inr e ↦ rw e (closed, refl)
]
on_event-Final (request_came req) l al once closed = ground arith
on_event-Final saw_closed l al once closed = ground arith
on_event-Final (served answer) l al once closed = ground arith
on_event-Final released l al once closed = elim (Bool-cases (is_releasing al.place)) [
  | inl e ↦ rw e ((release-Final l al.link al).1 closed)
  | inr e ↦ rw e (closed, refl)
]
on_event-Final closing l al once closed = reset_request-Final request_closed l al once closed
on_event-Final timing_out l al once closed =
    let at = reset_request-Final request_timeout l al once closed in ground arith

-- What happens to a pool.
pub data PoolCall : Type 0 where
  getting resetting : PoolCall
  adding : Bool → ℕ → PoolCall
  going : Event → ℕ → PoolCall

unfoldable pub run_call : PoolCall → Pool → Pool
unfolding get_request_pipe reset_pool add_to_pool run_event
run_call getting p = get_request_pipe p
run_call resetting p = reset_pool p
run_call (adding nolimit link) p = (add_to_pool nolimit link p).1
run_call (going e i) p = run_event e i p

unfoldable pub run_calls : List PoolCall → Pool → Pool
unfolding run_call
run_calls [] p = p
run_calls (c ∷ cs) p = run_calls cs (run_call c p)

abbrev pub Kept : List AvailableLink → ℕ → AvailableLink → Type 0
Kept als i al = (al' : AvailableLink) × (get_elem? als i ≡ some al') × IsOnce al' × Final al al'

reset_requests-Kept :
    (als : List AvailableLink) (l : AvailableLinks) (i : ℕ) (al : AvailableLink)
    → get_elem? als i ≡ some al
    → IsOnce al
    → Kept (reset_requests als l).1 i al
unfolding reset_requests
reset_requests-Kept [] l i al at once = absurd (none-ne-some al at)
reset_requests-Kept (x ∷ xs) l zero al at once =
    let now : x ≡ al = some-injective _ _ at in
    let new = (reset_link_request_locked manager_reset l x).1 in
    let was : IsOnce x = subst IsOnce (sym now) once in
    subst (λ al. Kept (reset_requests (x ∷ xs) l).1 zero al) now
      (
        new,
        refl,
        reset_request-Once manager_reset l x was,
        reset_request-Final manager_reset l x was,
      )
reset_requests-Kept (x ∷ xs) l (suc i) al at once =
    reset_requests-Kept xs (reset_link_request_locked manager_reset l x).0 i al at once

on_request-Kept :
    (e : Event) (j : ℕ) (p : Pool) (i : ℕ) (al : AvailableLink)
    → get_elem? p.requests i ≡ some al
    → IsOnce al
    → Kept (run_event e j p).requests i al
unfolding run_event
on_request-Kept e j p i al at once = from (get_elem? p.requests j) refl
  where
    from :
        (slot : Option AvailableLink)
        → get_elem? p.requests j ≡ slot
        → Kept (on_request e j slot p).requests i al
    from none there = (al, at, once, λ closed. (closed, refl))
    from (some x) there =
        let new = (on_event e p.links x).1 in
        let read : get_elem? (set p.requests j new) i
            ≡ (if j == i then some new else get_elem? p.requests i) =
          get_elem?-set p.requests j i new (get_elem?_bounds p.requests j there) in
        elim (Bool-cases (j == i)) [
          | inl f ↦
              let same : j ≡ i = ground arith in
              let now : x ≡ al =
                some-injective _ _ (sym there ∙ ap (get_elem? p.requests) same ∙ at) in
              subst (λ al. Kept (set p.requests j new) i al) now
                (
                  new,
                  read ∙ ap (λ b. if b then some new else get_elem? p.requests i) f,
                  on_event-Once e p.links x (subst IsOnce (sym now) once),
                  on_event-Final e p.links x (subst IsOnce (sym now) once),
                )
          | inr f ↦ (
            al,
            read ∙ ap (λ b. if b then some new else get_elem? p.requests i) f ∙ at,
            once,
            λ closed. (closed, refl),
          )
        ]

run_call-Kept :
    (c : PoolCall) (p : Pool) (i : ℕ) (al : AvailableLink)
    → get_elem? p.requests i ≡ some al
    → IsOnce al
    → Kept (run_call c p).requests i al
unfolding run_call get_request_pipe reset_pool add_to_pool
run_call-Kept getting p i al at once = (
  al,
  get_elem?-append_left p.requests _ i (get_elem?_bounds p.requests i at) ∙ at,
  once,
  λ closed. (closed, refl),
)
run_call-Kept resetting p i al at once = reset_requests-Kept p.requests p.links i al at once
run_call-Kept (going e j) p i al at once = on_request-Kept e j p i al at once
run_call-Kept (adding nolimit link) p i al at once = from (add_available nolimit link p.links)
  where
    from : (r : Option (Bool × AvailableLinks)) → Kept (added_to p r).1.requests i al
    from none = (al, at, once, λ closed. (closed, refl))
    from (some (added, l)) = (al, at, once, λ closed. (closed, refl))

-- Whatever happens to a pool, a request for a link in it stays either open, in the list or being
-- served but not both, or closed; and once closed it keeps its error, so that its channel
-- is closed once and whoever reads Error() gets the same answer.
pub request_closes_once :
    (cs : List PoolCall) (p : Pool) (i : ℕ) (al : AvailableLink)
    → get_elem? p.requests i ≡ some al
    → IsOnce al
    → Kept (run_calls cs p).requests i al
unfolding run_calls
request_closes_once [] p i al at once = (al, at, once, λ closed. (closed, refl))
request_closes_once (c ∷ cs) p i al at once =
    let (al', there, still, final) = run_call-Kept c p i al at once in
    let (al'', there', still', final') = request_closes_once cs (run_call c p) i al' there still in
    (
      al'',
      there',
      still',
      λ closed. (let (c', e') = final closed in let (c'', e'') = final' c' in (c'', e'' ∙ e')),
    )
