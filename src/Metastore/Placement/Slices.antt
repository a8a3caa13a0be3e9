-- ===== src/Metastore/Placement/Slices.antt =====
-- Slices of proxy/server/cluster/static_cluster.go: the instances of the chunks of an object.
use lambda_objectstore.Base.{
  ℕ, ◌+◌, ◌-◌, ◌%◌, ◌<◌, ◌≤◌, ◌≡◌, ◌≢◌, refl, sym, ◌∙◌, subst, Option, none, some, arith, ltb,
  if◌then◌else◌, Bool-cases, inl, inr,
}
use native.Mathlib.Nat.{mod-lt, mod-eq_of_lt, mod-add-mod, mod-eq-sub-mod}
use lambda_objectstore.Metastore.Meta.{Slice}
use lambda_objectstore.Metastore.Placement.{Placing, next_slice, get_index}

-- The number of instances that a slice is cut from.
abbrev pub cap_of : Slice → Placing → ℕ
cap_of s w = elim s.range [ none ↦ w.cap | some r ↦ r.1 ]

wrapped : (n c : ℕ) → n < c + c → n % c ≡ (if ltb n c then n else n - c)
wrapped n c h = elim (Bool-cases (ltb n c)) [
  | inl e ↦ rw e (mod-eq_of_lt (ground arith))
  | inr e ↦
      let past : c ≤ n = ground arith in
      rw e (mod-eq-sub-mod past ∙ mod-eq_of_lt (omega (arith, h, past)))
]

shifted_ne : (base c i j : ℕ) → i < c → j < c → i ≢ j → (base + i) % c ≢ (base + j) % c
shifted_ne base c i j hi hj d e =
    let low : base % c < c = mod-lt base (omega (arith, hi)) in
    let a = mod-add-mod base c i in
    let b = mod-add-mod base c j in
    d (
      apart (base % c) low (
        sym (wrapped (base % c + i) c (omega (arith, low, hi)))
        ∙ a
        ∙ e
        ∙ sym b
        ∙ wrapped (base % c + j) c (omega (arith, low, hj))))
  where
    apart :
        (r : ℕ)
        → r < c
        → (if ltb (r + i) c then r + i else r + i - c)
          ≡ (if ltb (r + j) c then r + j else r + j - c)
        → i ≡ j
    apart r low e = ground arith

ranged :
    (s : Slice) (i : ℕ) (w : Placing) (base c : ℕ)
    → s.range ≡ some (base, c)
    → get_index s i w ≡ (w, s, (base + i) % c)
unfolding get_index
ranged s i w base c e = rw e refl

-- Two chunks of an object that the client sends to different positions of its slice go to different
-- instances of the cluster, whether the slice has its range already or gets it from the first of
-- them; positions are below the number of instances.
pub get_index-distinct :
    (s : Slice) (i j : ℕ) (w : Placing)
    → i < cap_of s w
    → j < cap_of s w
    → i ≢ j
    → let first : Placing × Slice × ℕ = get_index s i w in
      let second : Placing × Slice × ℕ = get_index first.1 j first.0 in first.2 ≢ second.2
unfolding get_index next_slice
get_index-distinct s i j w hi hj d = at s.range refl
  where
    at :
        (o : Option (ℕ × ℕ))
        → s.range ≡ o
        → (get_index s i w).2 ≢ (get_index (get_index s i w).1 j (get_index s i w).0).2
    at none e = rw (e, get_index) (shifted_ne _ w.cap i j (rw e at hi) (rw e at hj) d)
    at (some (base, c)) e =
        subst (λ x. x.2 ≢ (get_index x.1 j x.0).2) (sym (ranged s i w base c e))
          (subst (λ y. (base + i) % c ≢ y.2) (sym (ranged s j w base c e))
            (shifted_ne base c i j (rw e at hi) (rw e at hj) d))
