-- ===== src/Backups/Reserve/Count.antt =====
-- The number of available backups after Reserve of proxy/lambdastore/backups.go.
use lambda_objectstore.Base.{
  ℕ, zero, suc, ◌+◌, ◌-◌, ◌<◌, ◌≤◌, ◌≡◌, refl, sym, ap, ap₂, subst, ◌∙◌, List, [], ◌∷◌, true, false,
  Option, none, some, arith, ◌==◌, if◌then◌else◌, length, set, take, inl, inr, Bool-cases,
  length-set,
}
use native.Mathlib.Nat.{suc-add}
use lambda_objectstore.Backups.{Backups, Answer}
use lambda_objectstore.Backups.Reserve.{
  Reserving, reserve_at, reserve_loop, start_reserving, shrink, finish_reserve, with_fallback,
  reserve,
}
use lambda_objectstore.Backups.Reserve.Refill.{
  count, IsRefilled, with_fallback-IsRefilled, with_fallback_quiet,
}
use lambda_objectstore.Backups.Reserve.Search.{one_if, Filled}
use lambda_objectstore.Backups.Reserve.Fill.{reserve_at-Fills}

count-take_set :
    (xs : List (Option ℕ)) (i : ℕ) (o : Option ℕ)
    → i < length xs
    → count (take (i + 1) (set xs i o)) ≡ count (take i xs) + one_if o
count-take_set [] i o h = absurd (omega arith)
count-take_set (x ∷ xs) zero o h = omega arith
count-take_set (x ∷ xs) (suc i) o h =
    rw (suc-add) (omega (arith, count-take_set xs i o (omega arith)))

take-set_past :
    (xs : List (Option ℕ)) (i k : ℕ) (o : Option ℕ) → k ≤ i → take k (set xs i o) ≡ take k xs
take-set_past [] i k o h = refl
take-set_past (x ∷ xs) i zero o h = refl
take-set_past (x ∷ xs) zero (suc k) o h = absurd (omega arith)
take-set_past (x ∷ xs) (suc i) (suc k) o h = ap (◌∷◌ x) (take-set_past xs i k o (omega arith))

module _ {S : Type 0} where
  -- Before the place `i` is looked at, with the places before it filled.
  pub record IsCounted (i : ℕ) (r : Reserving S) : Type 0 where
    pub availables_eq : r.backups.availables ≡ count (take i r.backups.slots)
    pub failures_le : r.failures ≤ i
    pub trailing : count (take (i - r.failures) r.backups.slots) ≡ count (take i r.backups.slots)
    pub low : 0 < r.alters
    pub none_closed : r.closed_count ≡ 0

  Filled-IsCounted :
      (i : ℕ) (o : Option ℕ) (r r' : Reserving S)
      → i < length r.backups.slots
      → IsCounted i r
      → Filled i o r r'
      → 0 < r'.alters
      → r'.closed_count ≡ 0
      → IsCounted (i + 1) r'
  Filled-IsCounted i (some c) r r' inside h filled low reset = record {
    availables_eq =
        filled.availables_eq
        ∙ ap (λ n. n + 1) h.availables_eq
        ∙ sym (count-take_set r.backups.slots i (some c) inside)
        ∙ ap (λ xs. count (take (i + 1) xs)) (sym filled.slots_eq);
    failures_le = omega (arith, filled.failures_eq);
    trailing = ap (λ n. count (take n r'.backups.slots)) (omega (arith, filled.failures_eq));
    low = low;
    none_closed = reset;
  }
  Filled-IsCounted i none r r' inside h filled low reset =
      let xs = r.backups.slots in
      let whole : count (take (i + 1) r'.backups.slots) ≡ count (take i xs) =
        ap (λ ys. count (take (i + 1) ys)) filled.slots_eq
        ∙ omega (arith, count-take_set xs i none inside) in
      record {
        availables_eq = omega (arith, filled.availables_eq, h.availables_eq, whole);
        failures_le = omega (arith, filled.failures_eq, h.failures_le);
        trailing =
            ap₂ (λ n ys. count (take n ys)) (omega (arith, filled.failures_eq, h.failures_le))
              filled.slots_eq
            ∙ ap count (take-set_past xs i (i - r.failures) none (omega arith))
            ∙ h.trailing
            ∙ sym whole;
        low = low;
        none_closed = reset;
      }

  finish_panicked : (r : Reserving S) → (finish_reserve r).panicked ≡ false → r.panicked ≡ false
  unfolding finish_reserve
  finish_panicked r fine = elim (Bool-cases r.panicked) [
    | inl f ↦
        let e = ap (λ c. (if c then r else shrink r).panicked) f in
        absurd (loud (sym f ∙ sym e ∙ fine))
    | inr f ↦ f
  ]
    where
      loud : true ≡ false → ⊥
      loud e = cc

  finish_counts :
      (r : Reserving S)
      → IsRefilled r.backups.len r
      → (finish_reserve r).panicked ≡ false
      → (finish_reserve r).backups.availables
        ≡ count (take (finish_reserve r).backups.len (finish_reserve r).backups.slots)
  unfolding finish_reserve
  finish_counts r h fine =
      let quiet = ap (λ c. if c then r else shrink r) (finish_panicked r fine) in
      subst (λ x. x.backups.availables ≡ count (take x.backups.len x.backups.slots)) (sym quiet)
        (h.availables_eq ∙ sym h.trailing)

module _ {S : Type 0} (reserve_backing : ℕ → S → S × Answer) where
  loop-IsCounted :
      (n i : ℕ) (r : Reserving S)
      → i + n ≤ length r.backups.slots
      → IsCounted i r
      → (reserve_loop reserve_backing n i r).panicked ≡ false
      → IsCounted (i + n) (reserve_loop reserve_backing n i r)
        × ((reserve_loop reserve_backing n i r).backups.len ≡ r.backups.len)
        × (length (reserve_loop reserve_backing n i r).backups.slots ≡ length r.backups.slots)
  unfolding reserve_loop
  loop-IsCounted zero i r bound h fine = (subst (λ k. IsCounted k r) (omega arith) h, refl, refl)
  loop-IsCounted (suc n) i r bound h fine = elim (Bool-cases r'.panicked) [
    | inl f ↦ absurd (stops f)
    | inr f ↦
        let (o, filled, low, reset) = reserve_at-Fills reserve_backing i r h.low h.none_closed f in
        let size = ap length filled.slots_eq ∙ length-set r.backups.slots i o in
        let (counted, len_eq, size_eq) =
          loop-IsCounted n (i + 1) r' (omega (arith, size))
            (Filled-IsCounted i o r r' (omega arith) h filled low reset) (goes_on f) in
        let same : (if r'.panicked then r' else reserve_loop reserve_backing n (i + 1) r')
            ≡ reserve_loop reserve_backing n (i + 1) r' =
          ap (λ b. if b then r' else reserve_loop reserve_backing n (i + 1) r') f in
        (
          subst (IsCounted (i + suc n)) (sym same) (
              subst (λ k. IsCounted k (reserve_loop reserve_backing n (i + 1) r')) (omega arith)
                counted),
          ap (λ x. x.backups.len) same ∙ len_eq ∙ filled.len_eq,
          ap (λ x. length x.backups.slots) same ∙ size_eq ∙ size,
        )
  ]
    where
      r' : Reserving S
      r' = reserve_at reserve_backing i r

      stops : r'.panicked ≡ true → ⊥
      stops f =
          let e =
            ap (λ b. (if b then r' else reserve_loop reserve_backing n (i + 1) r').panicked) f in
          absurd cc

      goes_on : r'.panicked ≡ false → (reserve_loop reserve_backing n (i + 1) r').panicked ≡ false
      goes_on f =
          sym (ap (λ b. (if b then r' else reserve_loop reserve_backing n (i + 1) r').panicked) f)
          ∙ fine

  -- When Reserve ends without a panic, with at least one backup required and the array behind the
  -- backups as long as they are, the number of available backups is that of the backups that are
  -- there, whatever the instances answered and a fallback offered; only empty places were cut off.
  pub reserve_counts :
      (own : ℕ) (fallback : Option (List ℕ)) (s : S) (b : Backups)
      → 0 < b.required
      → b.required ≤ length b.slots
      → b.len ≤ length b.slots
      → (reserve reserve_backing own fallback s b).panicked ≡ false
      → (reserve reserve_backing own fallback s b).backups.availables
        ≡ count (
            take
              (reserve reserve_backing own fallback s b).backups.len
              (reserve reserve_backing own fallback s b).backups.slots)
  unfolding reserve
  reserve_counts own fallback s b some_required room held fine =
      let r0 : Reserving S = start_reserving s b in
      let big : b.required == 0 ≡ false = ground arith in
      let fits : 0 + r0.backups.len ≤ length b.slots = ground arith in
      let positive : 0 < r0.backups.len = ground arith in
      let ran = reserve_loop reserve_backing r0.backups.len 0 r0 in
      let more = with_fallback reserve_backing own fallback ran in
      let whole = ap (λ c. if c then record r0 { backups = b } else finish_reserve more) big in
      let quiet = sym (ap (λ x. x.panicked) whole) ∙ fine in
      let ran_quiet =
        with_fallback_quiet reserve_backing own fallback ran (finish_panicked more quiet) in
      let (counted, len_eq, size) =
        loop-IsCounted r0.backups.len 0 r0 fits
          (record {
            availables_eq = refl;
            failures_le = omega arith;
            trailing = refl;
            low = positive;
            none_closed = refl;
          })
          ran_quiet in
      let at = subst (λ k. IsCounted k ran) (omega (arith, len_eq)) counted in
      let refilled =
        with_fallback-IsRefilled reserve_backing own fallback ran ran_quiet
          (omega (arith, len_eq, size, fits))
          (record {
            availables_eq = at.availables_eq;
            failures_le = at.failures_le;
            trailing = at.trailing;
          }) in
      subst (λ x. x.backups.availables ≡ count (take x.backups.len x.backups.slots)) (sym whole)
        (finish_counts more refilled quiet)
