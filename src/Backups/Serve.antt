-- ===== src/Backups/Serve.antt =====
-- The use of the backups of proxy/lambdastore/backups.go after they were reserved.
use lambda_objectstore.Base.{
  ℕ, ◌+◌, ◌%◌, ◌<◌, ◌≤◌, ◌≡◌, ◌⊎◌, refl, sym, ◌∙◌, List, [], ◌∷◌, false, Option, none, some, arith,
  ◌==◌, ltb, leb, length, take, inl, inr, Bool-cases, Option-cases,
}
use native.Mathlib.Nat.{mod-lt}
use lambda_objectstore.Backups.{
  Backups, Answer, entry, told, start, locate_by_hash, get_by_hash, get_by_location, located,
  nowhere,
}
use lambda_objectstore.Backups.Reserve.{reserve}
use lambda_objectstore.Backups.Reserve.Refill.{count}
use lambda_objectstore.Backups.Reserve.Count.{reserve_counts}

length-told : (required i : ℕ) (xs : List (Option ℕ)) → length (told required i xs) ≡ count xs
length-told required i [] = refl
length-told required i (none ∷ xs) = omega (arith, length-told required (i + 1) xs)
length-told required i (some ins ∷ xs) = omega (arith, length-told required (i + 1) xs)

-- After a Reserve that ended without a panic, Start tells as many backups to back the target as it
-- returns, whatever the instances answered and a fallback offered.
pub start_reserved :
    {S : Type 0} (reserve_backing : ℕ → S → S × Answer) (own : ℕ) (fallback : Option (List ℕ))
    (s : S) (b : Backups)
    → 0 < b.required
    → b.required ≤ length b.slots
    → b.len ≤ length b.slots
    → (reserve reserve_backing own fallback s b).panicked ≡ false
    → length (start (reserve reserve_backing own fallback s b).backups).0
      ≡ (start (reserve reserve_backing own fallback s b).backups).1
start_reserved reserve_backing own fallback s b some_required room held fine =
    start_tells (reserve reserve_backing own fallback s b).backups
      (reserve_counts reserve_backing own fallback s b some_required room held fine)
  where
    start_tells :
        (b : Backups) → b.availables ≡ count (take b.len b.slots) → length (start b).0 ≡ (start b).1
    start_tells b h =
        unfold start in
        elim (Bool-cases (b.len == 0)) [
          | inl e ↦ rw e refl
          | inr e ↦ rw e (length-told b.required 0 (take b.len b.slots) ∙ sym h)
        ]

-- A lookup by hash never cuts the array out of range, where the number that the locator was
-- told is positive and at most the length of the array; a location that is found is one of the backups in use.
pub get_by_hash-located :
    (hash : ℕ) (b : Backups)
    → 0 < b.locator.backups
    → b.locator.backups ≤ length b.slots
    → ((get_by_hash hash b ≡ nowhere)
        × ((b.locator.enable ≡ false)
            ⊎ (b.len ≤ hash % b.locator.backups)
            ⊎ (entry b.slots (hash % b.locator.backups) ≡ none)))
      ⊎ ((ins : ℕ) × (get_by_hash hash b ≡ located ins)
          × (hash % b.locator.backups < b.len)
          × (entry b.slots (hash % b.locator.backups) ≡ some ins))
unfolding get_by_hash locate_by_hash get_by_location
get_by_hash-located hash b positive room =
    let within : hash % b.locator.backups < b.locator.backups = mod-lt hash positive in
    elim (Bool-cases b.locator.enable) [
      | inr e ↦ rw e (inl (refl, inl refl))
      | inl e ↦ elim (Bool-cases (leb b.len (hash % b.locator.backups))) [
        | inl f ↦ rw (e, f) (inl (refl, inr (inl (ground arith))))
        | inr f ↦
            let inside : ltb b.locator.backups (hash % b.locator.backups) ≡ false = ground arith in
            let cut : ltb (length b.slots) b.locator.backups ≡ false = ground arith in
            let before : leb b.locator.backups (hash % b.locator.backups) ≡ false = ground arith in
            elim (Option-cases (entry b.slots (hash % b.locator.backups))) [
              | inl g ↦ rw (e, f, inside, cut, before, g) (inl (refl, inr (inr refl)))
              | inr (ins, g) ↦
                  rw (e, f, inside, cut, before, g) (inr (ins, refl, ground arith, refl))
            ]
      ]
    ]
