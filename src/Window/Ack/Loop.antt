-- ===== src/Window/Ack/Loop.antt =====
-- The loop in AckRequest of common/redeo/client/wnd.go as a chain of rounds.
use lambda_objectstore.Base.{
  ℕ, zero, suc, ◌+◌, ◌≡◌, ◌⊎◌, inl, inr, refl, sym, ◌∙◌, ap, subst, true, false, ◌||◌, Option, none,
  some, ltb, ◌==◌, if◌then◌else◌, if_cases, Bool-cases, drop, arith,
}
use mathlib.Core.Option.{some-injective, none-ne-some}
use lambda_objectstore.Window.{
  RequestMeta, Window, seq_step, live, seek, Sought, not_there, out_of_range, at, request_at,
}
use lambda_objectstore.Window.Ack.{
  Advancing, advance, next_position, after, going_on, is_acked_meta, advance_loop,
}
use lambda_objectstore.Window.Ack.Rounds.{Round, Occupied, advance-Round}

-- Rounds from `seq` to `last`, each for the next sequence, whose request was acknowledged already.
pub data Rounds : ℕ → Advancing → ℕ → Advancing → Type 0 where
  one_round : (seq : ℕ) (a b : Advancing) → Round seq a b → Rounds seq a seq b
  next_round :
      (seq last : ℕ) (a b c d : Advancing)
      → Round seq a b
      → after (seq + seq_step) b ≡ some c
      → is_acked_meta (request_at c.bucket c.index (live c.window)) ≡ true
      → Rounds (seq + seq_step) c last d
      → Rounds seq a last d

-- Rounds up to `last`, where the loop stops: the next request is not sent, not there or not
-- acknowledged, or its index is out of range.
pub record Finished (seq : ℕ) (a b : Advancing) : Type 0 where
  pub last : ℕ
  pub end : Advancing
  pub rounds : Rounds seq a last end
  pub stops :
      ((after (last + seq_step) end ≡ none) × (b ≡ end))
      ⊎ ((after (last + seq_step) end ≡ some b) × (b.panicked ≡ true))

-- What the loop goes on with.
abbrev Next : Advancing → Option Advancing → Type 0
Next b none = Unit
Next b (some c) =
    (c.window ≡ b.window)
    × (c.panicked ≡ false → is_acked_meta (request_at c.bucket c.index (live c.window)) ≡ true)

after-Next : (seq : ℕ) (b : Advancing) → Next b (after seq b)
after-Next seq b =
    if_cases (Next b) (b.panicked || ltb b.window.seq seq) (λ _. tt)
      (λ _. from (seek seq b.bucket (drop b.bucket (live b.window))))
  where
    from : (s : Sought) → Next b (next_position s b)
    from not_there = tt
    from out_of_range = (refl, λ h. cc)
    from (at k i) =
        if_cases (Next b) (is_acked_meta (request_at k i (live b.window))) (λ e. (refl, λ _. e))
          (λ _. tt)

acked-Occupied :
    (c : Advancing)
    → is_acked_meta (request_at c.bucket c.index (live c.window)) ≡ true
    → Occupied c
acked-Occupied c h = from (request_at c.bucket c.index (live c.window)) refl h
  where
    from :
        (x : Option RequestMeta)
        → request_at c.bucket c.index (live c.window) ≡ x
        → is_acked_meta x ≡ true
        → Occupied c
    from none e h = absurd cc
    from (some m) e h = (m, e)

pub advance_loop-Finished :
    (rounds seq : ℕ) (a b : Advancing)
    → Occupied a
    → seq ≡ a.window.acked + seq_step
    → advance_loop rounds seq a ≡ some b
    → Finished seq a b
unfolding advance_loop
advance_loop-Finished zero seq a b occupied next run = absurd (none-ne-some b run)
advance_loop-Finished (suc rounds) seq a b occupied next run =
    let yes : (seq == a.window.acked + seq_step) ≡ true = ground arith in
    from (λ c o n r. advance_loop-Finished rounds (seq + seq_step) c b o n r)
      (after (seq + seq_step) (advance seq a)) refl (after-Next (seq + seq_step) (advance seq a))
      (sym (
          ap
            (λ t.
              if t
              then going_on (after (seq + seq_step) (advance seq a)) (advance seq a)
                  (λ (c : Advancing). advance_loop rounds (seq + seq_step) c)
              else some a)
            yes)
        ∙ run)
  where
    made : Round seq a (advance seq a)
    made = advance-Round seq a occupied

    from :
        ((c : Advancing)
          → Occupied c
          → seq + seq_step ≡ c.window.acked + seq_step
          → advance_loop rounds (seq + seq_step) c ≡ some b
          → Finished (seq + seq_step) c b)
        → (x : Option Advancing) → after (seq + seq_step) (advance seq a) ≡ x
        → Next (advance seq a) x
        → going_on x (advance seq a) (λ (c : Advancing). advance_loop rounds (seq + seq_step) c)
          ≡ some b
        → Finished seq a b
    from rest none e there run = record {
      last = seq;
      end = advance seq a;
      rounds = one_round seq a (advance seq a) made;
      stops = inl (e, sym (some-injective _ _ run));
    }
    from rest (some c) e (same, acked) run = elim (Bool-cases c.panicked) [
      | inl p ↦
          let is : c ≡ b = some-injective _ _ (
            sym (ap (λ t. if t then some c else advance_loop rounds (seq + seq_step) c) p) ∙ run) in
          record {
            last = seq;
            end = advance seq a;
            rounds = one_round seq a (advance seq a) made;
            stops = inr (e ∙ ap some is, subst (λ (d : Advancing). d.panicked ≡ true) is p);
          }
      | inr p ↦
          let more =
            rest c (acked-Occupied c (acked p))
              (ap (λ n. n + seq_step) (sym made.acked_eq ∙ ap (λ (w : Window). w.acked) (sym same)))
              (sym (ap (λ t. if t then some c else advance_loop rounds (seq + seq_step) c) p)
                ∙ run) in
          record {
            last = more.last;
            end = more.end;
            rounds =
                next_round seq more.last a (advance seq a) c more.end made e (acked p) more.rounds;
            stops = more.stops;
          }
    ]
