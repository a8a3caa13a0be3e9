-- ===== src/Metastore/Lru/Copy.antt =====
-- The copy of the objects to the secondary array in NextAvailableObject of
-- proxy/server/metastore/lru_placer.go, one object at a time.
use lambda_objectstore.Base.{
  ℕ, suc, ◌+◌, ◌<◌, ◌≡◌, refl, sym, ap, subst, ◌∙◌, ◌≢◌, List, [], ◌∷◌, ◌++◌, Bool, Option, none,
  some, arith, ◌==◌, length, get_elem?, inl, inr, Bool-cases, get_elem?_bounds,
  get_elem?-append_left, get_elem?-append_last, length-append,
}
use mathlib.Core.List.{append_assoc}
use lambda_objectstore.Metastore.Lru.{pos, Clock, objects, append_object, visit, advance, keep}
use lambda_objectstore.Metastore.Lru.Positions.{
  HasPos, HasPos-unique, IsPlaced, HasPos-set_pos_ne, HasPos-visited, objects-set_objects,
  objects-set_objects_ne, append-IsPlaced,
}

-- Without the empty slots.
abbrev pub compact : List (Option ℕ) → List (Option ℕ)
compact [] = []
compact (none ∷ ms) = compact ms
compact (some m ∷ ms) = some m ∷ compact ms

-- While an iteration copies: `ms` is still to be copied, from index `k` of the primary array on.
pub record Copying (k : ℕ) (c : Clock) (ms : List (Option ℕ)) : Type 0 where
  pub apart : c.placer.secondary ≢ c.placer.primary
  pub ahead : (j m : ℕ) → get_elem? ms j ≡ some (some m) → HasPos c.placer.primary c.heap m (k + j)
  pub placed : IsPlaced c.placer.secondary c.heap (objects c.placer.secondary c.placer)
  pub behind :
      (i m : ℕ)
      → 0 < i
      → get_elem? (objects c.placer.secondary c.placer) i ≡ some (some m)
      → (q : ℕ) × HasPos c.placer.primary c.heap m q × (q < k)

-- What copying changes in the placer.
pub record Copied (c : Clock) (ms : List (Option ℕ)) (c' : Clock) : Type 0 where
  pub primary_eq : c'.placer.primary ≡ c.placer.primary
  pub secondary_eq : c'.placer.secondary ≡ c.placer.secondary
  pub kept : objects c'.placer.primary c'.placer ≡ objects c.placer.primary c.placer
  pub copied :
      objects c'.placer.secondary c'.placer ≡ objects c.placer.secondary c.placer ++ compact ms

pub skip-Copying :
    (k : ℕ) (c : Clock) (ms : List (Option ℕ)) → Copying k c (none ∷ ms) → Copying (k + 1) c ms
skip-Copying k c ms h = record {
  apart = h.apart;
  ahead = λ j m at. subst (HasPos c.placer.primary c.heap m) (omega arith) (h.ahead (suc j) m at);
  placed = h.placed;
  behind = λ i m low at. let (q, p, below) = h.behind i m low at in (q, p, omega arith);
}

pub shift-Copying :
    {j k : ℕ} {c : Clock} {ms : List (Option ℕ)} → j ≡ k → Copying j c ms → Copying k c ms
shift-Copying {c} {ms} e h = subst (λ n. Copying n c ms) e h

pub visit-Copying :
    (k : ℕ) (c : Clock) (ms : List (Option ℕ)) (p : ℕ) (b : Bool)
    → Copying k c ms
    → Copying k (visit p b c) ms
visit-Copying k c ms p b h = record {
  apart = h.apart;
  ahead = λ j m at. HasPos-visited c.placer.primary c.heap p m (k + j) b (h.ahead j m at);
  placed = λ i m low at. HasPos-visited c.placer.secondary c.heap p m i b (h.placed i m low at);
  behind = λ i m low at.
      let (q, r, below) = h.behind i m low at in
      (q, HasPos-visited c.placer.primary c.heap p m q b r, below);
}

-- The next object is appended to the secondary array.
module _ (k : ℕ) (c : Clock) (m : ℕ) (ms : List (Option ℕ)) (h : Copying k c (some m ∷ ms)) where
  abbrev second_array : List (Option ℕ)
  second_array = objects c.placer.secondary c.placer

  not_copied : (j q : ℕ) → 0 < j → get_elem? second_array j ≡ some (some q) → m ≢ q
  not_copied j q low at same =
      let (r, p, below) = h.behind j q low at in
      let here = subst (λ n. HasPos c.placer.primary c.heap n (k + 0)) same (h.ahead 0 m refl) in
      absurd (omega (arith, HasPos-unique c.placer.primary c.heap q (k + 0) r here p))

  next_copied-IsPlaced :
      IsPlaced c.placer.secondary
        (append_object c.placer.secondary m c).heap
        (second_array ++ some m ∷ [])
  next_copied-IsPlaced =
      let (pm, a, b) = h.ahead 0 m refl in
      append-IsPlaced c.placer.secondary c.heap second_array m (pos c.placer.secondary pm)
        (pm, a, refl) not_copied h.placed

  append-behind :
      (i q : ℕ)
      → 0 < i
      → get_elem? (second_array ++ some m ∷ []) i ≡ some (some q)
      → (r : ℕ) × HasPos c.placer.primary (append_object c.placer.secondary m c).heap q r
        × (r < k + 1)
  append-behind i q low at = elim (Bool-cases (i == length second_array)) [
    | inl e ↦
        let last : i ≡ length second_array = ground arith in
        let is : m ≡ q =
          ground (arith, get_elem?-append_last second_array (some m), rw last at at) in
        let here = subst (λ n. HasPos c.placer.primary c.heap n (k + 0)) is (h.ahead 0 m refl) in
        (k + 0, kept q (k + 0) here, omega arith)
    | inr e ↦
        let inside : i < length second_array =
          ground (arith, get_elem?_bounds _ i at, length-append second_array (some m ∷ [])) in
        let old : get_elem? second_array i ≡ some (some q) =
          sym (get_elem?-append_left second_array (some m ∷ []) i inside) ∙ at in
        let (r, p, below) = h.behind i q low old in (r, kept q r p, omega arith)
  ]
    where
      kept :
          (q r : ℕ)
          → HasPos c.placer.primary c.heap q r
          → HasPos c.placer.primary (append_object c.placer.secondary m c).heap q r
      kept q r p =
          HasPos-set_pos_ne c.placer.secondary c.placer.primary c.heap m q r (length second_array)
            h.apart p

  pub append-Copying : Copying (k + 1) (append_object c.placer.secondary m c) ms
  append-Copying =
      let e = objects-set_objects c.placer.secondary (second_array ++ some m ∷ []) c.placer in
      record {
        apart = h.apart;
        ahead = λ j q at.
            HasPos-set_pos_ne c.placer.secondary c.placer.primary c.heap m q _ (length second_array)
              h.apart
              (subst (HasPos c.placer.primary c.heap q) (omega arith) (h.ahead (suc j) q at));
        placed =
            λ i q low at. next_copied-IsPlaced i q low (sym (ap (λ ys. get_elem? ys i) e) ∙ at);
        behind = λ i q low at. append-behind i q low (sym (ap (λ ys. get_elem? ys i) e) ∙ at);
      }

pub advance-Copying :
    (k : ℕ) (c : Clock) (ms : List (Option ℕ)) → Copying k c ms → Copying k (advance c) ms
advance-Copying k c ms h = record {
  apart = h.apart;
  ahead = h.ahead;
  placed = h.placed;
  behind = h.behind;
}

pub append-Copied :
    (c c' : Clock) (m : ℕ) (ms : List (Option ℕ))
    → c.placer.secondary ≢ c.placer.primary
    → Copied (append_object c.placer.secondary m c) ms c'
    → Copied c (some m ∷ ms) c'
append-Copied c c' m ms d h = record {
  primary_eq = h.primary_eq;
  secondary_eq = h.secondary_eq;
  kept = h.kept ∙ objects-set_objects_ne c.placer.secondary c.placer.primary _ c.placer d;
  copied =
      h.copied
      ∙ ap (λ ys. ys ++ compact ms) (objects-set_objects c.placer.secondary _ c.placer)
      ∙ append_assoc (objects c.placer.secondary c.placer) (some m ∷ []) (compact ms);
}

pub keep-Copied :
    (c c' : Clock) (m : ℕ) (ms : List (Option ℕ))
    → c.placer.secondary ≢ c.placer.primary
    → Copied (keep m c) ms c'
    → Copied c (some m ∷ ms) c'
keep-Copied c c' m ms d h = append-Copied c c' m ms d (record {
  primary_eq = h.primary_eq;
  secondary_eq = h.secondary_eq;
  kept = h.kept;
  copied = h.copied;
})
