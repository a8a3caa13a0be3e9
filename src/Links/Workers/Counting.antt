-- ===== src/Links/Workers/Counting.antt =====
-- How AvailableLinks counts its links, proxy/lambdastore/link_manager.go.
use lambda_objectstore.Base.{
  ℕ, suc, ◌+◌, ◌≡◌, inl, inr, refl, sym, ◌∙◌, ap, ap₂, Bool, true, false, ◌&&◌, ◌||◌, Option, none,
  some, List, [], ◌∷◌, length, if◌then◌else◌, arith, Bool-cases, if_cases, length-append,
}
use lambda_objectstore.Base.Int.{pos, negsuc, ◌+ℤ◌}
use lambda_objectstore.Links.{AvailableLinks, Found, no_round, waiting, found, add_available}
use lambda_objectstore.Links.Queue.{
  contents, IsChain, Takes, find_loop-Takes, add_available_queues, IsAdded,
}
use lambda_objectstore.Links.Workers.{
  LinkError, request_closed, request_timeout, sent, is_reset, releasing, ended, serving,
  AvailableLink, is_some, counted_off, reset_link_request_locked, time_out, after_find, find,
  take_request, kept_links, release, is_reset_error, serve, Event, found_link, request_came,
  saw_closed, served, released, closing, timing_out, is_finding, is_holding, is_releasing,
  is_serving, on_event,
}
use lambda_objectstore.Links.Workers.Requests.{IsOnce, place-Apart}

-- A goroutine that holds a link which is not counted off yet.
abbrev pub is_holder : AvailableLink → Bool
is_holder al =
    is_some al.link && (is_holding al.place || (is_serving al.place || is_releasing al.place))

abbrev pub held : AvailableLink → ℕ
held al = if is_holder al then 1 else 0

abbrev pub holders : List AvailableLink → ℕ
holders [] = 0
holders (al ∷ als) = held al + holders als

-- `k` links are held by others.
abbrev pub Counts : ℕ → AvailableLinks → AvailableLink → Type 0
Counts k l al = IsChain l × (l.total ≡ pos (length (contents l) + (held al + k)))

count_down : (n k : ℕ) → pos (n + (1 + k)) +ℤ negsuc 0 ≡ pos (n + k)
count_down n k = ground arith

count_up : (n : ℕ) → pos n +ℤ pos 1 ≡ pos (n + 1)
count_up n = ground arith

count_left : (n k : ℕ) → pos (n + (0 + k)) ≡ pos (n + k)
count_left n k = ground arith

counted_off-Counts :
    (k : ℕ) (l : AvailableLinks) (al : AvailableLink)
    → is_holder al ≡ true
    → Counts k l al
    → (counted_off l).total ≡ pos (length (contents l) + k)
counted_off-Counts k l al holds (chain, total) =
    let one : held al ≡ 1 = ground arith in
    ap (λ n. n +ℤ negsuc 0) total
    ∙ ap (λ h. pos (length (contents l) + (h + k)) +ℤ negsuc 0) one
    ∙ count_down (length (contents l)) k

-- Where neither the links nor what is held changes.
unheld-Counts :
    (k : ℕ) (l : AvailableLinks) (al al' : AvailableLink)
    → held al' ≡ held al
    → Counts k l al
    → Counts k l al'
unheld-Counts k l al al' same (chain, total) =
    (chain, total ∙ ap (λ h. pos (length (contents l) + (h + k))) (sym same))

false_true : {A : Type 0} → false ≡ true → A
false_true h = ground arith

pub reset_request-Counts :
    (k : ℕ) (error : LinkError) (l : AvailableLinks) (al : AvailableLink)
    → IsOnce al
    → Counts k l al
    → Counts k (reset_link_request_locked error l al).0 (reset_link_request_locked error l al).1
unfolding reset_link_request_locked
reset_request-Counts k error l al once counts = elim (Bool-cases al.in_list) [
  | inr e ↦ rw e counts
  | inl e ↦ elim (Bool-cases (is_some al.link && is_reset error)) [
    | inl f ↦
        let holds : is_holder al ≡ true = ground arith in
        rw (e, f)
          (
            counts.0,
            counted_off-Counts k l al holds counts ∙ sym (count_left (length (contents l)) k),
          )
    | inr f ↦ rw (e, f) counts
  ]
]

after_find-Counts :
    (k : ℕ) (al : AvailableLink) (f : Found) (l : AvailableLinks)
    → is_finding al.place ≡ true
    → Takes l f
    → Counts k l al
    → Counts k (after_find al f l).0 (after_find al f l).1
after_find-Counts k al no_round l at taken counts = elim taken [ ]
after_find-Counts k al (waiting m) l at (empty, rest, same, front, bottom) (chain, total) =
    let apart = place-Apart al.place in
    let unheld : held al ≡ 0 = ground arith in
    let still : held (if al.closed then record al { place = ended } else al) ≡ 0 = ground arith in
    let none_left : length (contents m) ≡ length (contents l) =
      rw (front, bottom) (ap length (sym empty)) in
    (rest, same ∙ total ∙ ap₂ (λ n h. pos (n + (h + k))) (sym none_left) (unheld ∙ sym still))
after_find-Counts k al (found link m) l at (first, rest, same) (chain, total) =
    let apart = place-Apart al.place in
    let unheld : held al ≡ 0 = ground arith in
    (
      rest,
      same
          ∙ total
          ∙ ap₂ (λ n h. pos (n + (h + k))) (ap length first) unheld
          ∙ shift (length (contents m)),
    )
  where
    shift : (n : ℕ) → pos (suc n + (0 + k)) ≡ pos (n + (1 + k))
    shift n = ground arith

pub forced :
    (link : ℕ) (l : AvailableLinks)
    → IsChain l
    → (m : AvailableLinks) × (add_available true link l ≡ some (true, m)) × IsAdded link l m
forced link l chain = elim (add_available_queues true link l chain) [
  | inl (limited, _) ↦ false_true limited
  | inr (_, made) ↦ made
]

added-Counts :
    (k link : ℕ) (l off : AvailableLinks) (al : AvailableLink)
    → IsChain off
    → off.total ≡ pos (length (contents l) + k)
    → contents off ≡ contents l
    → Counts k
        (kept_links (add_available true link off) off)
        (record al { link = none; place = ended })
added-Counts k link l off al chain total same =
    let (m, made, (behind, counted, rest)) = forced link off chain in
    let longer : length (contents m) ≡ length (contents l) + 1 =
      ap length behind ∙ length-append (contents off) (link ∷ []) ∙ ap (λ xs. length xs + 1) same in
    rw made (
      rest,
      counted
          ∙ ap (λ n. n +ℤ pos 1) total
          ∙ one_more (length (contents l))
          ∙ ap (λ n. pos (n + (0 + k))) (sym longer),
    )
  where
    one_more : (n : ℕ) → pos (n + k) +ℤ pos 1 ≡ pos (n + 1 + (0 + k))
    one_more n = ground arith

release-Counts :
    (k : ℕ) (l : AvailableLinks) (link : Option ℕ) (al : AvailableLink)
    → al.link ≡ link
    → is_releasing al.place ≡ true
    → Counts k l al
    → Counts k (release l link al).0 (release l link al).1
unfolding release
release-Counts k l none al same at counts =
    let unheld : held al ≡ 0 =
      ap
        (λ link.
          if (is_some link
            && (is_holding al.place || (is_serving al.place || is_releasing al.place)))
          then 1
          else 0)
        same in
    unheld-Counts k l al (release l none al).1 (sym unheld) counts
release-Counts k l (some link) al same at counts =
    let holds : is_holder al ≡ true = ground arith in
    let off = counted_off-Counts k l al holds counts in
    elim (Bool-cases (is_reset_error al.err)) [
      | inl e ↦ rw e (counts.0, off ∙ sym (count_left (length (contents l)) k))
      | inr e ↦ rw e (added-Counts k link l (counted_off l) al counts.0 off refl)
    ]

serve-Counts :
    (k : ℕ) (answer : Option ℕ) (l : AvailableLinks) (al : AvailableLink)
    → is_serving al.place ≡ true
    → Counts k l al
    → Counts k (serve answer l al).0 (serve answer l al).1
unfolding serve
serve-Counts k answer l al at counts =
    if_cases
      (λ l'. Counts k l' (record al { err = some (sent answer); closed = true; place = ended }))
      (is_some al.link)
      (λ e. (
        counts.0,
        counted_off-Counts k l al (holds e) counts
            ∙ sym (count_left (length (contents l)) k)
            ∙ ap (λ h. pos (length (contents l) + (h + k))) (sym gone),
      ))
      (λ e.
        unheld-Counts k l al (record al { err = some (sent answer); closed = true; place = ended })
          (gone ∙ sym (free e)) counts)
  where
    holds : is_some al.link ≡ true → is_holder al ≡ true
    holds e = ground arith

    free : is_some al.link ≡ false → held al ≡ 0
    free e = ground arith

    gone : held (record al { err = some (sent answer); closed = true; place = ended }) ≡ 0
    gone = ground arith

pub on_event-Counts :
    (k : ℕ) (e : Event) (l : AvailableLinks) (al : AvailableLink)
    → IsOnce al
    → Counts k l al
    → Counts k (on_event e l al).0 (on_event e l al).1
unfolding on_event find take_request time_out
on_event-Counts k e l al once counts = from e
  where
    Fine : AvailableLinks × AvailableLink → Type 0
    Fine r = Counts k r.0 r.1

    moved : (al' : AvailableLink) → held al' ≡ held al → Fine (l, al')
    moved al' same = unheld-Counts k l al al' same counts

    from : (e : Event) → Fine (on_event e l al)
    from found_link =
        if_cases Fine (is_finding al.place)
          (λ at. after_find-Counts k al _ l at (find_loop-Takes l counts.0) counts) (λ _. counts)
    from (request_came req) =
        if_cases Fine (is_holding al.place)
          (λ at.
            if_cases (λ al'. Fine (l, al')) al.in_list
              (λ _. moved (record al { in_list = false; place = serving req }) (ground arith))
              (λ _. moved (record al { place = releasing }) (ground arith)))
          (λ _. counts)
    from saw_closed =
        if_cases Fine (is_holding al.place && al.closed)
          (λ at. moved (record al { place = releasing }) (ground arith)) (λ _. counts)
    from (served answer) =
        if_cases Fine (is_serving al.place) (λ at. serve-Counts k answer l al at counts)
          (λ _. counts)
    from released =
        if_cases Fine (is_releasing al.place) (λ at. release-Counts k l al.link al refl at counts)
          (λ _. counts)
    from closing = reset_request-Counts k request_closed l al once counts
    from timing_out =
        if_cases Fine (is_some al.link) (λ _. counts)
          (λ _. reset_request-Counts k request_timeout l al once counts)
