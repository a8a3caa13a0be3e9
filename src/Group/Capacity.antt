-- ===== src/Group/Capacity.antt =====
-- What checkCapacity of proxy/server/cluster/group.go answers.
use lambda_objectstore.Base.{
  ℕ, ◌+◌, ◌-◌, ◌*◌, ◌/◌, ◌<◌, ◌≤◌, ◌≡◌, refl, sym, ◌∙◌, ap, Bool, true, false, Option, none, some,
  List, ◌++◌, length, get_elem?, take, drop, replicate, ltb, leb, ◌==◌, if◌then◌else◌, Bool-cases,
  inl, inr, arith, length-append, length-take, length-replicate, get_elem?-append_left,
  take-append-drop,
}
use native.Mathlib.Nat.{lt-div-mul-add}
use lambda_objectstore.Group.{Buffer, cap, larger_cap, enlarge, check_capacity, resliced}

larger_cap_lem : (num c : ℕ) → 0 < c → num ≤ larger_cap num c
larger_cap_lem num c positive =
    let above : num - 1 < (num - 1) / c * c + c = lt-div-mul-add positive in
    let whole : ((num - 1) / c + 1) * c ≡ (num - 1) / c * c + c = omega arith in omega arith

-- An array with room for `num` items, made from `b` with `preserve`.
abbrev pub Grown : Buffer → ℕ → Bool → Type 0
Grown b num preserve =
    (b' : Buffer) × (resliced num (check_capacity b num preserve) ≡ some b')
    × (b'.len ≡ num)
    × (num ≤ cap b')
    × (0 < cap b')
    × (preserve ≡ true → (i : ℕ) → i < b.len → get_elem? b'.items i ≡ get_elem? b.items i)

reslice-Grown :
    (num : ℕ) (preserve : Bool) (b c : Buffer)
    → check_capacity b num preserve ≡ some c
    → num ≤ cap c
    → 0 < cap c
    → (preserve ≡ true → (i : ℕ) → i < b.len → get_elem? c.items i ≡ get_elem? b.items i)
    → Grown b num preserve
reslice-Grown num preserve b c checked fits positive kept =
    let enough : leb num (cap c) ≡ true = ground arith in
    (
      record c { len = num },
      ap (resliced num) checked
          ∙ ap (λ t. if t then some (record c { len = num }) else none) enough,
      refl,
      fits,
      positive,
      kept,
    )

pub get_elem?-take_less :
    {A : Type 0}
    → (n i : ℕ) (xs : List A) → i < n
    → n ≤ length xs
    → get_elem? (take n xs) i ≡ get_elem? xs i
get_elem?-take_less n i xs inside fits =
    sym (get_elem?-append_left (take n xs) (drop n xs) i (omega (arith, length-take n xs fits)))
    ∙ ap (λ ys. get_elem? ys i) (take-append-drop n xs)

enlarge-Grown :
    (b : Buffer) (num : ℕ) (preserve : Bool)
    → b.len ≤ cap b
    → 0 < cap b
    → cap b < num
    → Grown b num preserve
unfolding check_capacity
enlarge-Grown b num preserve fits positive short =
    let c = larger_cap num (cap b) in
    let enough : num ≤ c = larger_cap_lem num (cap b) positive in
    let is_short : ltb (cap b) num ≡ true = ground arith in
    let holds : (cap b == 0) ≡ false = ground arith in
    let checked : check_capacity b num preserve ≡ some (enlarge b c preserve) =
      ap (λ t. if t then (if cap b == 0 then none else some (enlarge b c preserve)) else some b)
        is_short
      ∙ ap (λ t. if t then none else some (enlarge b c preserve)) holds in
    reslice-Grown num preserve b (enlarge b c preserve) checked (long preserve c enough)
      (positive_cap preserve c enough) (kept preserve c)
  where
    nil : Option ℕ
    nil = none

    whole : (c : ℕ) → num ≤ c → length (take b.len b.items ++ replicate (c - b.len) none) ≡ c
    whole c enough = omega (
      arith,
      length-append (take b.len b.items) (replicate (c - b.len) none),
      length-take b.len b.items fits,
      length-replicate (c - b.len) nil,
    )

    long : (p : Bool) (c : ℕ) → num ≤ c → num ≤ cap (enlarge b c p)
    long true c enough = omega (arith, whole c enough)
    long false c enough = omega (arith, length-replicate c nil)

    positive_cap : (p : Bool) (c : ℕ) → num ≤ c → 0 < cap (enlarge b c p)
    positive_cap p c enough = omega (arith, long p c enough)

    kept :
        (p : Bool) (c : ℕ)
        → p ≡ true
        → (i : ℕ) → i < b.len
        → get_elem? (enlarge b c p).items i ≡ get_elem? b.items i
    kept true c e i inside =
        get_elem?-append_left (take b.len b.items) (replicate (c - b.len) none) i
          (omega (arith, length-take b.len b.items fits))
        ∙ get_elem?-take_less b.len i b.items inside fits
    kept false c e i inside = absurd cc

pub check_capacity-Grown :
    (b : Buffer) (num : ℕ) (preserve : Bool) → b.len ≤ cap b → 0 < cap b → Grown b num preserve
unfolding check_capacity
check_capacity-Grown b num preserve fits positive = elim (Bool-cases (ltb (cap b) num)) [
  | inl e ↦ enlarge-Grown b num preserve fits positive (ground arith)
  | inr e ↦
      reslice-Grown num preserve b b
        (ap
          (λ t.
            if t
            then (if cap b == 0 then none else some (enlarge b (larger_cap num (cap b)) preserve))
            else some b)
          e)
        (ground arith) positive (λ _ _ _. refl)
]
