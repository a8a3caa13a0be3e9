-- ===== src/Window/Ack/Quiet.antt =====
-- That the loop in AckRequest of common/redeo/client/wnd.go has no index out of range.
use lambda_objectstore.Base.{
  ℕ, zero, suc, ◌+◌, ◌-◌, ◌*◌, ◌<◌, ◌≡◌, refl, sym, ◌∙◌, ap, subst, true, false, ◌||◌, Option, none,
  some, ltb, ◌==◌, if◌then◌else◌, if_cases, drop, arith,
}
use mathlib.Core.Option.{some-injective, none-ne-some}
use lambda_objectstore.WaitGroup.{done}
use lambda_objectstore.Window.{
  RequestMeta, Window, seq_step, live, seek, is_beyond, Sought, not_there, out_of_range, at,
  request_at,
}
use lambda_objectstore.Window.Ack.{
  change_at, Advancing, notify, release_at, release, advance, next_position, after, going_on,
  is_acked_meta, advance_loop, start_at,
}
use lambda_objectstore.Window.Ack.Advance.{with_live-Same}
use lambda_objectstore.Window.Ack.Ranges.{
  firsts, IsLadder, firsts-change_at, Holds, Holds-later, Reaches, seek-Reaches,
}

-- The loop for a sequence, with windows of `n`, is within a chain.
pub record Ranged (seq n : ℕ) (a : Advancing) : Type 0 where
  pub ladder : IsLadder (firsts (live a.window))
  pub size_eq : a.window.size ≡ n
  pub at_bucket : Holds seq a.bucket (firsts (live a.window))
  pub at_blocked : Holds (seq + n * seq_step) a.blocked (firsts (live a.window))
  pub quiet : a.panicked ≡ false

-- Another window with the same buckets.
rewindow-Ranged :
    (seq n : ℕ) (a : Advancing) (w : Window)
    → firsts (live w) ≡ firsts (live a.window)
    → w.size ≡ a.window.size
    → Ranged seq n a
    → Ranged seq n (record a { window = w })
rewindow-Ranged seq n a w same sized h = record {
  ladder = subst IsLadder (sym same) h.ladder;
  size_eq = sized ∙ h.size_eq;
  at_bucket = subst (Holds seq a.bucket) (sym same) h.at_bucket;
  at_blocked = subst (Holds (seq + n * seq_step) a.blocked) (sym same) h.at_blocked;
  quiet = h.quiet;
}

reblock-Ranged :
    (seq n k : ℕ) (a : Advancing)
    → Holds (seq + n * seq_step) k (firsts (live a.window))
    → Ranged seq n a
    → Ranged seq n (record a { blocked = k })
reblock-Ranged seq n k a holds h = record {
  ladder = h.ladder;
  size_eq = h.size_eq;
  at_bucket = h.at_bucket;
  at_blocked = holds;
  quiet = h.quiet;
}

release_at-Ranged :
    (seq n : ℕ) (a : Advancing)
    → Ranged seq n a
    → (s : Sought) → Reaches (seq + n * seq_step) (firsts (live a.window)) s
    → Ranged seq n (release_at s a)
release_at-Ranged seq n a h not_there found =
    reblock-Ranged seq n a.bucket a
      (Holds-later seq (seq + n * seq_step) a.bucket (firsts (live a.window)) (omega arith)
        h.at_bucket)
      h
release_at-Ranged seq n a h out_of_range found = absurd found
release_at-Ranged seq n a h (at k i) found = from (request_at k i (live a.window))
  where
    blocked : Ranged seq n (record a { blocked = k })
    blocked = reblock-Ranged seq n k a found h

    from :
        (x : Option RequestMeta)
        → Ranged seq n (record a { blocked = k; window = notify k i x a.window })
    from none = blocked
    from (some m) =
        rewindow-Ranged seq n (record a { blocked = k })
          (change_at k i (some (record m { notifier = done m.notifier })) 0 a.window)
          (firsts-change_at k i (some (record m { notifier = done m.notifier })) 0 a.window)
          (with_live-Same _ a.window).2 blocked

advance-Ranged : (seq n : ℕ) (a : Advancing) → Ranged seq n a → Ranged seq n (advance seq a)
unfolding advance release
advance-Ranged seq n a h =
    let w : Window = record (change_at a.bucket a.index none 0 a.window) { acked = seq } in
    let b : Advancing = record a { window = w; advanced = a.advanced + 1 } in
    let r =
      rewindow-Ranged seq n a w (firsts-change_at a.bucket a.index none 0 a.window)
        (with_live-Same _ a.window).2 h in
    let counted : Ranged seq n b = record {
      ladder = r.ladder;
      size_eq = r.size_eq;
      at_bucket = r.at_bucket;
      at_blocked = r.at_blocked;
      quiet = r.quiet;
    } in
    subst
      (λ k.
        Ranged seq n (release_at (seek (seq + k * seq_step) b.blocked (drop b.blocked (live w))) b))
      (sym counted.size_eq)
      (release_at-Ranged seq n b counted
        (seek (seq + n * seq_step) b.blocked (drop b.blocked (live w)))
        (seek-Reaches (seq + n * seq_step) b.blocked (live w) counted.ladder counted.at_blocked))

abbrev NextRanged : ℕ → ℕ → Option Advancing → Type 0
NextRanged seq n none = Unit
NextRanged seq n (some c) = Ranged seq n c

after-NextRanged :
    (seq n : ℕ) (a : Advancing)
    → Ranged seq n a
    → NextRanged (seq + seq_step) n (after (seq + seq_step) a)
after-NextRanged seq n a h =
    if_cases (NextRanged next n) (a.panicked || ltb a.window.seq next) (λ _. tt)
      (λ _. from (seek next a.bucket (drop a.bucket (live a.window))) (
        seek-Reaches next a.bucket (live a.window) h.ladder
          (Holds-later seq next a.bucket (firsts (live a.window)) (omega arith) h.at_bucket)))
  where
    next : ℕ
    next = seq + seq_step

    from :
        (s : Sought)
        → Reaches next (firsts (live a.window)) s
        → NextRanged next n (next_position s a)
    from not_there found = tt
    from out_of_range found = absurd found
    from (at k i) found =
        if_cases (NextRanged next n) (is_acked_meta (request_at k i (live a.window)))
          (λ _. record {
            ladder = h.ladder;
            size_eq = h.size_eq;
            at_bucket = found;
            at_blocked =
                Holds-later (seq + n * seq_step) (next + n * seq_step) a.blocked
                  (firsts (live a.window)) (omega arith) h.at_blocked;
            quiet = h.quiet;
          })
          (λ _. tt)

-- A search of the whole chain that ends at a position.
sought_near : (s k i : ℕ) (w : Window) → seek s 0 (live w) ≡ at k i → w.active.first < s + seq_step
unfolding seek
sought_near s k i w sought =
    if_cases (λ r. r ≡ at k i → w.active.first < s + seq_step) (is_beyond s w.active)
      (λ e _. ground arith)
      (λ _.
        if_cases (λ r. r ≡ at k i → w.active.first < s + seq_step) (ltb s w.active.first)
          (λ e.
            if_cases (λ r. r ≡ at k i → w.active.first < s + seq_step)
              (ltb (w.active.first - s) seq_step) (λ f _. ground arith) (λ f h. absurd cc))
          (λ e _. ground arith))
      sought

pub start_at-Ranged :
    (s k i : ℕ) (m : RequestMeta) (w : Window)
    → IsLadder (firsts (live w))
    → seek s 0 (live w) ≡ at k i
    → Ranged s w.size (start_at k i m w)
start_at-Ranged s k i m w ladder sought =
    let marked = firsts-change_at k i (some (record m { is_acked = true })) 1 w in
    let near = sought_near s k i w sought in
    let holds =
      subst (Reaches s (firsts (live w))) sought
        (seek-Reaches s 0 (live w) ladder (w.active.first, refl, near)) in
    record {
      ladder = subst IsLadder (sym marked) ladder;
      size_eq = (with_live-Same _ w).2;
      at_bucket = subst (Holds s k) (sym marked) holds;
      at_blocked =
          Holds-later s (s + w.size * seq_step) k (firsts (live (start_at k i m w).window))
            (omega arith) (subst (Holds s k) (sym marked) holds);
      quiet = refl;
    }

-- Within a chain, the loop never has an index out of range.
pub advance_loop_quiet :
    (rounds seq n : ℕ) (a b : Advancing)
    → Ranged seq n a
    → advance_loop rounds seq a ≡ some b
    → b.panicked ≡ false
unfolding advance_loop
advance_loop_quiet zero seq n a b h run = absurd (none-ne-some b run)
advance_loop_quiet (suc rounds) seq n a b h run =
    if_cases (λ x. x ≡ some b → b.panicked ≡ false) (seq == a.window.acked + seq_step)
      (λ _.
        from (λ c k r. advance_loop_quiet rounds (seq + seq_step) n c b k r)
          (after (seq + seq_step) (advance seq a)) (after-NextRanged seq n (advance seq a) moved))
      (λ _ e. ap (λ (c : Advancing). c.panicked) (sym (some-injective _ _ e)) ∙ h.quiet) run
  where
    moved : Ranged seq n (advance seq a)
    moved = advance-Ranged seq n a h

    from :
        ((c : Advancing)
          → Ranged (seq + seq_step) n c
          → advance_loop rounds (seq + seq_step) c ≡ some b
          → b.panicked ≡ false)
        → (x : Option Advancing) → NextRanged (seq + seq_step) n x
        → going_on x (advance seq a) (λ (c : Advancing). advance_loop rounds (seq + seq_step) c)
          ≡ some b
        → b.panicked ≡ false
    from rest none k e =
        ap (λ (c : Advancing). c.panicked) (sym (some-injective _ _ e)) ∙ moved.quiet
    from rest (some c) k e =
        rest c k
          (sym (ap (λ t. if t then some c else advance_loop rounds (seq + seq_step) c) k.quiet) ∙ e)
