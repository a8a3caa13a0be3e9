-- ===== src/Metastore/Placement/Offers.antt =====
-- What a scan of proxy/server/metastore/lru_placer.go that finds no victim says of the objects it
-- went over.
use lambda_objectstore.Base.{
  ℕ, zero, suc, ◌≡◌, refl, sym, ap, subst, ◌∙◌, ◌≢◌, List, [], ◌∷◌, Bool, true, false, Option, none,
  some, arith, get_elem?, ◌⊎◌, inl, inr, Bool-cases, ==_of_ne,
}
use lambda_objectstore.Metastore.Lru.{
  Clock, visit, advance, keep, Verdict, skip, second_chance, victim, better, act, scan, judge,
}
use lambda_objectstore.Metastore.Placement.Visits.{
  is_complete, is_visited, Forgets, Forgets-refl, Forgets-trans, keep-Forgets, unvisit-Forgets,
  visit-false,
}

-- A candidate that there is stays there, though it may become another.
abbrev pub Keeps : Option ℕ → Option ℕ → Type 0
Keeps candidate candidate' = candidate ≢ none → candidate' ≢ none

some_ne : {m : ℕ} → some m ≢ none
some_ne e = cc

-- The scan goes on with the rest.
abbrev GoesOn :
    (Clock → Option ℕ → Clock × Option ℕ × Bool)
    → Clock
    → Option ℕ
    → Clock × Option ℕ × Bool
    → Type 0
GoesOn next c candidate r =
    (c' : Clock) × (candidate' : Option ℕ) × (r ≡ next c' candidate')
    × Forgets c.heap c'.heap
    × Keeps candidate candidate'

module _ (next : Clock → Option ℕ → Clock × Option ℕ × Bool) (meta m : ℕ) (c : Clock)
    (candidate : Option ℕ) where
  act-GoesOn :
      (v : Verdict)
      → (act next meta m c candidate v).2 ≡ false
      → GoesOn next c candidate (act next meta m c candidate v)
  unfolding act
  act-GoesOn skip e = (keep m c, candidate, refl, keep-Forgets m c, λ h. h)
  act-GoesOn second_chance e = (
    keep m (visit m false c),
    candidate,
    refl,
    Forgets-trans _ _ _ (unvisit-Forgets m c) (keep-Forgets m (visit m false c)),
    λ h. h,
  )
  act-GoesOn victim e = cc
  act-GoesOn better e = (keep m c, some m, refl, keep-Forgets m c, λ h. some_ne)

  -- An object that is not visited makes a candidate.
  unvisited_first :
      (v : Verdict)
      → judge c.heap meta m candidate ≡ v
      → m ≢ meta
      → is_visited (c.heap m) ≡ false
      → (act next meta m c candidate v).2 ≡ false
      → (c' : Clock) × (candidate' : Option ℕ) × (act next meta m c candidate v
          ≡ next c' candidate')
        × (candidate' ≢ none)
  unfolding act judge
  unvisited_first skip e d unseen none_found =
      (keep m c, candidate, refl, λ f. absurd (ground (arith, rw (==_of_ne d, unseen, f) at e)))
  unvisited_first second_chance e d unseen none_found =
      absurd (ground (arith, rw (==_of_ne d, unseen) at e))
  unvisited_first victim e d unseen none_found = cc
  unvisited_first better e d unseen none_found = (keep m c, some m, refl, some_ne)

  -- A visited object with all its chunks is not visited any more.
  complete_first :
      m ≢ meta
      → is_visited (c.heap m) ≡ true
      → is_complete (c.heap m) ≡ true
      → (c' : Clock) × (act next meta m c candidate (judge c.heap meta m candidate)
          ≡ next c' candidate)
        × (is_visited (c'.heap m) ≡ false)
  unfolding act judge
  complete_first d seen complete = (
    keep m (visit m false c),
    rw (==_of_ne d, seen, complete) refl,
    (keep-Forgets m (visit m false c)).visits m (visit-false m c),
  )

-- What a scan without a victim leads to.
pub record Ends (c : Clock) (candidate : Option ℕ) (r : Clock × Option ℕ × Bool) : Type 0 where
  pub forgets : Forgets c.heap r.0.heap
  pub keeps : Keeps candidate r.1

GoesOn-Ends :
    (next : Clock → Option ℕ → Clock × Option ℕ × Bool) (c : Clock) (candidate : Option ℕ)
    (r : Clock × Option ℕ × Bool)
    → r.2 ≡ false
    → ((c' : Clock) (candidate' : Option ℕ)
        → (next c' candidate').2 ≡ false
        → Ends c' candidate' (next c' candidate'))
    → GoesOn next c candidate r
    → Ends c candidate r
GoesOn-Ends next c candidate r none_found ih (c', candidate', e, forgets, keeps) =
    let h = ih c' candidate' (sym (ap (λ x. x.2) e) ∙ none_found) in
    rw e record {
      forgets = Forgets-trans _ _ _ forgets h.forgets;
      keeps = λ there. h.keeps (keeps there);
    }

pub scan-Ends :
    (meta : ℕ) (ms : List (Option ℕ)) (c : Clock) (candidate : Option ℕ)
    → (scan meta ms c candidate).2 ≡ false
    → Ends c candidate (scan meta ms c candidate)
unfolding scan
scan-Ends meta [] c candidate e = record { forgets = Forgets-refl c.heap; keeps = λ h. h }
scan-Ends meta (none ∷ ms) c candidate e =
    let h = scan-Ends meta ms (advance c) candidate e in
    record { forgets = h.forgets; keeps = h.keeps }
scan-Ends meta (some m ∷ ms) c candidate e =
    let next = (λ (c' : Clock) (candidate' : Option ℕ). scan meta ms c' candidate') in
    GoesOn-Ends next c candidate _ e (λ c' candidate'. scan-Ends meta ms c' candidate')
      (act-GoesOn next meta m c candidate (judge c.heap meta m candidate) e)

-- A scan without a victim that goes over an object that is not visited ends with a candidate.
pub scan_unvisited :
    (meta : ℕ) (ms : List (Option ℕ)) (c : Clock) (candidate : Option ℕ) (i m : ℕ)
    → get_elem? ms i ≡ some (some m)
    → m ≢ meta
    → is_visited (c.heap m) ≡ false
    → (scan meta ms c candidate).2 ≡ false
    → (scan meta ms c candidate).1 ≢ none
unfolding scan
scan_unvisited meta [] c candidate i m at d unseen e = absurd cc
scan_unvisited meta (none ∷ ms) c candidate zero m at d unseen e = absurd cc
scan_unvisited meta (none ∷ ms) c candidate (suc i) m at d unseen e =
    scan_unvisited meta ms (advance c) candidate i m at d unseen e
scan_unvisited meta (some q ∷ ms) c candidate zero m at d unseen e =
    let is : q ≡ m = cc in
    let next = (λ (c' : Clock) (candidate' : Option ℕ). scan meta ms c' candidate') in
    let (c', candidate', f, there) =
      unvisited_first next meta q c candidate (judge c.heap meta q candidate) refl
        (λ g. d (sym is ∙ g)) (rw is unseen) e in
    rw f ((scan-Ends meta ms c' candidate' (sym (ap (λ x. x.2) f) ∙ e)).keeps there)
scan_unvisited meta (some q ∷ ms) c candidate (suc i) m at d unseen e =
    let next = (λ (c' : Clock) (candidate' : Option ℕ). scan meta ms c' candidate') in
    let (c', candidate', f, forgets, keeps) =
      act-GoesOn next meta q c candidate (judge c.heap meta q candidate) e in
    rw f (
      scan_unvisited meta ms c' candidate' i m at d (forgets.visits m unseen)
        (sym (ap (λ x. x.2) f) ∙ e))

-- A scan without a victim that goes over an object with all its chunks ends with a candidate, or
-- with the object not visited.
pub scan_complete :
    (meta : ℕ) (ms : List (Option ℕ)) (c : Clock) (candidate : Option ℕ) (i m : ℕ)
    → get_elem? ms i ≡ some (some m)
    → m ≢ meta
    → is_complete (c.heap m) ≡ true
    → (scan meta ms c candidate).2 ≡ false
    → ((scan meta ms c candidate).1 ≢ none)
      ⊎ (is_visited ((scan meta ms c candidate).0.heap m) ≡ false)
unfolding scan
scan_complete meta [] c candidate i m at d complete e = absurd cc
scan_complete meta (none ∷ ms) c candidate zero m at d complete e = absurd cc
scan_complete meta (none ∷ ms) c candidate (suc i) m at d complete e =
    scan_complete meta ms (advance c) candidate i m at d complete e
scan_complete meta (some q ∷ ms) c candidate zero m at d complete e =
    let is : q ≡ m = cc in
    let next = (λ (c' : Clock) (candidate' : Option ℕ). scan meta ms c' candidate') in
    elim (Bool-cases (is_visited (c.heap q))) [
      | inl seen ↦
          let (c', f, unseen) =
            complete_first next meta q c candidate (λ g. d (sym is ∙ g)) seen (rw is complete) in
          let h = scan-Ends meta ms c' candidate (sym (ap (λ x. x.2) f) ∙ e) in
          rw f (
            inr (
              subst (λ n. is_visited ((next c' candidate).0.heap n) ≡ false) is
                (h.forgets.visits q unseen)))
      | inr unseen ↦
          inl
            (scan_unvisited meta (some q ∷ ms) c candidate 0 q refl (λ g. d (sym is ∙ g)) unseen e)
    ]
scan_complete meta (some q ∷ ms) c candidate (suc i) m at d complete e =
    let next = (λ (c' : Clock) (candidate' : Option ℕ). scan meta ms c' candidate') in
    let (c', candidate', f, forgets, keeps) =
      act-GoesOn next meta q c candidate (judge c.heap meta q candidate) e in
    rw f (
      scan_complete meta ms c' candidate' i m at d (forgets.complete_eq m ∙ complete)
        (sym (ap (λ x. x.2) f) ∙ e))
