-- ===== src/Lifetime/Ticks/Bounds.antt =====
-- What getTimeout of lambda/lifetime/timeout.go promises of the due it computes.
use lambda_objectstore.Base.{
  ℕ, suc, ◌+◌, ◌-◌, ◌*◌, ◌/◌, ◌%◌, ◌<◌, ◌≤◌, ◌≡◌, if◌then◌else◌, sym, subst, ◌∙◌, ap, arith, leb,
  inl, inr, true, false, Bool-cases,
}
use native.Mathlib.Nat.{div-mul-le_self, lt-div-mul-add, mul-mod_left, zero-mod}
use lambda_objectstore.Base.Int.{ℤ, pos, negsuc, pos_part, neg_part, sub_ℕ, ◌+ℤ◌, ltb_ℤ, leb_ℤ}
use lambda_objectstore.Lifetime.Ticks.{
  Ticks, Due, get_timeout, ceil_to, negate, negate_ℤ, wrap_i64, millisecond,
}

-- Rounding up reaches the duration and stays less than a tick above it, at a multiple of the tick.
pub ceil_to-IsCeiling :
    (tick : ℕ) (d : ℤ)
    → 0 < tick
    → (leb_ℤ d (ceil_to tick d) ≡ true) × (ltb_ℤ (ceil_to tick d) (d +ℤ pos tick) ≡ true)
unfolding ceil_to
ceil_to-IsCeiling tick (pos d) positive =
    let below = div-mul-le_self (d + (tick - 1)) tick in
    let above : d + (tick - 1) < (d + (tick - 1)) / tick * tick + tick = lt-div-mul-add positive in
    (ground arith, ground arith)
ceil_to-IsCeiling tick (negsuc d) positive =
    let below = div-mul-le_self (suc d) tick in
    let above : suc d < suc d / tick * tick + tick = lt-div-mul-add positive in
    (ground arith, ground arith)

-- Both parts of an integer are multiples.
abbrev pub IsMultiple : ℕ → ℤ → Type 0
IsMultiple tick d = (pos_part d % tick ≡ 0) × (neg_part d % tick ≡ 0)

ceil_to-IsMultiple : (tick : ℕ) (d : ℤ) → IsMultiple tick (ceil_to tick d)
unfolding ceil_to
ceil_to-IsMultiple tick (pos d) = (mul-mod_left _ tick, zero-mod tick)
ceil_to-IsMultiple tick (negsuc d) = negated (suc d / tick * tick) (mul-mod_left _ tick)
  where
    negated : (n : ℕ) → n % tick ≡ 0 → IsMultiple tick (negate n)
    negated n h = elim (Bool-cases (leb n 0)) [
      | inl e ↦
          let gone : 0 - n ≡ 0 = ground arith in
          rw e (ap (λ k. k % tick) gone ∙ zero-mod tick, zero-mod tick)
      | inr e ↦
          let whole : suc (n - 0 - 1) ≡ n = ground arith in
          rw e (zero-mod tick, ap (λ k. k % tick) whole ∙ h)
    ]

add-neg_cancel : (a b : ℤ) → a +ℤ (b +ℤ sub_ℕ (neg_part a) (pos_part a)) ≡ b
add-neg_cancel (pos a) (pos b) = ground arith
add-neg_cancel (pos a) (negsuc b) = ground arith
add-neg_cancel (negsuc a) (pos b) = ground arith
add-neg_cancel (negsuc a) (negsuc b) = ground arith

sub-add_cancel : (a : ℤ) (n : ℕ) → a +ℤ negate n +ℤ pos n ≡ a
sub-add_cancel (pos a) n = ground arith
sub-add_cancel (negsuc a) n = ground arith

-- The due, with the error that is taken off it, is a multiple of the tick, not before the end of
-- the extension and less than a tick after it; and the timeout is the time from now until the due.
abbrev pub IsCeiling : Ticks → ℤ → ℕ → Due → Type 0
IsCeiling t now ext d =
    IsMultiple t.tick (d.due +ℤ pos t.tick_error)
    × (leb_ℤ (now +ℤ pos ext) (d.due +ℤ pos t.tick_error) ≡ true)
    × (ltb_ℤ (d.due +ℤ pos t.tick_error) (now +ℤ pos ext +ℤ pos t.tick) ≡ true)
    × (now +ℤ d.timeout ≡ d.due)

-- The durations below which the quotient of the source is exact.
abbrev pub exact_bound : ℕ
exact_bound = 4503599627370496

abbrev size : ℤ → ℕ
size d = pos_part d + neg_part d

wrap_small : (d : ℤ) → size d < 2 * exact_bound → wrap_i64 d ≡ d
wrap_small (pos n) h = ground arith
wrap_small (negsuc n) h = ground arith

between :
    (low high d : ℤ) (n : ℕ)
    → leb_ℤ low d ≡ true
    → ltb_ℤ d high ≡ true
    → size low < n
    → size high < n
    → size d < n
between low high (pos d) n reached near h k = ground arith
between low high (negsuc d) n reached near h k = ground arith

size_add : (a b : ℤ) → size (a +ℤ b) ≤ size a + size b
size_add a b = ground arith

size_negate : (n : ℕ) → size (negate n) ≡ n
size_negate n = ground arith

size-negate_ℤ : (d : ℤ) → size (negate_ℤ d) ≡ size d
size-negate_ℤ (pos n) = ground arith
size-negate_ℤ (negsuc n) = ground arith

-- The due of an extension that is not negative, with the error that is taken off it, is a multiple
-- of the tick, not before the extension's end and less than a tick after it; and the timeout is
-- the time from now until the due. It holds for any tick but 0, while the time since the start, the
-- extension, the tick and the error together stay below 2 ^ 52 ns.
pub get_timeout-IsCeiling :
    (t : Ticks) (now : ℤ) (ext : ℕ)
    → 0 < t.tick
    → pos_part now + neg_part now + ext + t.tick + t.tick_error < exact_bound
    → IsCeiling t now ext (get_timeout t now (pos ext))
unfolding get_timeout
get_timeout-IsCeiling t now ext positive small =
    let sum = now +ℤ pos ext in
    let (reached, near) = ceil_to-IsCeiling t.tick sum positive in
    let top = ceil_to t.tick sum in
    let due = top +ℤ negate t.tick_error in
    let at_sum = size_add now (pos ext) in
    let at_end = size_add sum (pos t.tick) in
    let at_top =
      between sum (sum +ℤ pos t.tick) top exact_bound reached near (omega arith) (omega arith) in
    let at_due = size_add top (negate t.tick_error) in
    let at_time = size_add due (negate_ℤ now) in
    let one : wrap_i64 sum ≡ sum = wrap_small sum (omega arith) in
    let two : wrap_i64 due ≡ due = wrap_small due (omega (arith, size_negate t.tick_error)) in
    let three : wrap_i64 (due +ℤ negate_ℤ now) ≡ due +ℤ negate_ℤ now =
      wrap_small (due +ℤ negate_ℤ now)
        (omega (arith, size_negate t.tick_error, size-negate_ℤ now)) in
    let back : top ≡ due +ℤ pos t.tick_error = sym (sub-add_cancel top t.tick_error) in
    let later : ltb_ℤ (pos ext) (pos 0) ≡ false = ground arith in
    let whole : get_timeout t now (pos ext) ≡ record { timeout = due +ℤ negate_ℤ now; due = due } =
      ap
        (λ b.
          if b
          then record { timeout = pos millisecond; due = wrap_i64 (now +ℤ pos millisecond) }
          else made (wrap_i64 sum))
        later
      ∙ ap made one
      ∙ ap (λ (d : ℤ). made_of d) two
      ∙ ap (λ (s : ℤ). made_at s due) three in
    subst (IsCeiling t now ext) (sym whole) (
      subst (IsMultiple t.tick) back (ceil_to-IsMultiple t.tick sum),
      subst (λ d. leb_ℤ sum d ≡ true) back reached,
      subst (λ d. ltb_ℤ d (sum +ℤ pos t.tick) ≡ true) back near,
      add-neg_cancel now due,
    )
  where
    made_at : ℤ → ℤ → Due
    made_at s d = record { timeout = s; due = d }

    made_of : ℤ → Due
    made_of d = made_at (wrap_i64 (d +ℤ negate_ℤ now)) d

    made : ℤ → Due
    made s = made_of (wrap_i64 (ceil_to t.tick s +ℤ negate t.tick_error))
