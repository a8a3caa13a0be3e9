-- ===== src/Lifetime/Loop/Once.antt =====
-- When the loop of lambda/lifetime/timeout.go triggers a timeout, and how often.
use lambda_objectstore.Base.{
  ℕ, ◌≡◌, ◌⊎◌, refl, ◌∙◌, ap, subst, if_cases, if◌then◌else◌, Bool, true, false, not, ◌||◌, ◌&&◌,
  Option, none, some, arith, inl, inr,
}
use mathlib.Core.Option.{some-injective}
use lambda_objectstore.Base.Int.{ℤ}
use lambda_objectstore.Lifetime.Ticks.{Ticks}
use lambda_objectstore.Lifetime.Timer.{
  Reason, Timer, stopped, armed, fired, Timeout, stop, reset_locked, reset, reset_with_extension,
  disable, enable, halt, restart, busy, done_busy, done_busy_with_reset, done_session,
  start_with_calibration, start_with_deadline, end_interruption,
}
use lambda_objectstore.Lifetime.Loop.{
  Check, flags, busyness, due_time, refuse, passes, trigger, try_timeout, selecting, triggering,
  Machine, take_reset, take_tick, expire, expire_armed, take_fired, take_extension, rearm, Call,
  resetting, resetting_with, restarting, done_busying_with, finishing_session, call, at_place, Step,
  called, expired, ended_by_session, took_reset, took_reset_first, took_tick, checked, got_answer,
  triggered, Steps, no_step, then_step, reset_on_busy_locked, is_some,
}
use lambda_objectstore.Lifetime.Loop.Sound.{IsSound, has_tick, is_stopped, Step-IsSound}

-- Every machine that is reached from a sound one is sound.
pub Steps-IsSound :
    {ticks : Ticks} {has_confirm : Bool} {m n : Machine}
    → Steps ticks has_confirm m n
    → IsSound m
    → IsSound n
Steps-IsSound (no_step m) sound = sound
Steps-IsSound (then_step m n o steps step) sound = Step-IsSound step (Steps-IsSound steps sound)

-- The signal of a sound machine always finds its channel empty: the loop does not wait there with
-- the lock held.
pub trigger_passes :
    (now : ℕ) (t : Timeout)
    → IsSound (at_place triggering t)
    → trigger now t
      ≡ some (at_place selecting (record t { timeout = true; interrupt_at = now; c = some now }))
unfolding trigger
trigger_passes now t sound =
    let free : is_some t.c ≡ false = ground arith in
    ap
      (λ b.
        if b
        then none
        else some
            (at_place selecting (record t { timeout = true; interrupt_at = now; c = some now })))
      free

abbrev Same : Timeout → Timeout → Type 0
Same t t' = (t'.timeout ≡ t.timeout) × (t'.interrupt_at ≡ t.interrupt_at)

reset-Same : (t : Timeout) → Same t (reset t).1
unfolding reset reset_locked
reset-Same t = ground arith

reset_with_extension-Same :
    (ext : ℤ) (reason : Reason) (t : Timeout) → Same t (reset_with_extension ext reason t).1
unfolding reset_with_extension
reset_with_extension-Same ext reason t =
    reset-Same (record t { last_extension = ext; last_reason = reason })

call-Same : (by : Call) (t : Timeout) → Same t (call by t)
unfolding call disable enable halt stop restart busy done_busy done_busy_with_reset done_session
    start_with_calibration start_with_deadline end_interruption
call-Same resetting t = reset-Same t
call-Same (resetting_with ext reason) t = reset_with_extension-Same ext reason t
call-Same (restarting ext reason) t =
    reset_with_extension-Same ext reason (record t { disabled = false })
call-Same (done_busying_with ext reason) t =
    let at = reset_with_extension-Same ext reason t in ground arith
call-Same finishing_session t = ground arith
call-Same _ t = (refl, refl)

expire-Same : (now : ℕ) (t t' : Timeout) → expire now t ≡ some t' → Same t t'
unfolding expire
expire-Same now t t' h = from t.timer h
  where
    from : (timer : Timer) → expire_armed now t timer ≡ some t' → Same t t'
    from stopped h = unfold expire_armed in ground arith
    from fired h = unfold expire_armed in ground arith
    from (armed instant) h = unfold expire_armed in ground arith

take_tick-Same : (t t' : Timeout) → take_tick t ≡ some t' → Same t t'
unfolding take_tick
take_tick-Same t t' h = from t.timer h
  where
    from : (timer : Timer) → take_fired t timer ≡ some t' → Same t t'
    from stopped h = unfold take_fired in ground arith
    from (armed instant) h = unfold take_fired in ground arith
    from fired h = unfold take_fired in subst (Same t) (some-injective _ _ h) (refl, refl)

take_reset-Same :
    (ticks : Ticks) (now : ℕ) (t t' : Timeout) → take_reset ticks now t ≡ some t' → Same t t'
unfolding take_reset
take_reset-Same ticks now t t' h = from t.reset_slot h
  where
    from : (slot : Option ℤ) → take_extension ticks now t slot ≡ some t' → Same t t'
    from none h = unfold take_extension in ground arith
    from (some ext) h =
        unfold take_extension rearm stop in subst (Same t) (some-injective _ _ h) (refl, refl)

checked-Same :
    (confirmed : Bool) (check : Check) (now : ℕ) (t : Timeout)
    → Same t (try_timeout confirmed check now t).timeout
unfolding try_timeout refuse reset_on_busy_locked reset_locked
checked-Same confirmed check now t =
    if_cases (λ (m : Machine). Same t m.timeout) (passes check now t) (λ _. (refl, refl))
      (λ _. refused check)
  where
    refused : (check : Check) → Same t (refuse check t)
    refused flags = (refl, refl)
    refused busyness = (refl, refl)
    refused due_time = (refl, refl)

abbrev pub IsTriggered : ℕ → Machine → Type 0
IsTriggered now m =
    (m.timeout.c ≡ some now) × (m.timeout.interrupt_at ≡ now) × (m.place ≡ selecting)

pub trigger-IsTriggered :
    (now : ℕ) (t : Timeout) (m : Machine) → trigger now t ≡ some m → IsTriggered now m
unfolding trigger
trigger-IsTriggered now t m h = from (is_some t.c) h
  where
    after : Machine
    after = at_place selecting (record t { timeout = true; interrupt_at = now; c = some now })

    from : (b : Bool) → (if b then none else some after) ≡ some m → IsTriggered now m
    from true h = ground arith
    from false h = subst (IsTriggered now) (some-injective _ _ h) (refl, refl, refl)

-- Every step either leaves the timeout as untriggered or triggered as it was, with its instant, or
-- is the end of the loop's second try.
pub Step-cases :
    {ticks : Ticks} {has_confirm : Bool} {m n : Machine}
    → Step ticks has_confirm m n
    → Same m.timeout n.timeout ⊎ ((now : ℕ) × (m.place ≡ triggering) × IsTriggered now n)
Step-cases (called by p t _) = inl (call-Same by t)
Step-cases (expired now p t t' h) = inl (expire-Same now t t' h)
Step-cases (ended_by_session t h) = inl (refl, refl)
Step-cases (took_reset now t t' h) = inl (take_reset-Same _ now t t' h)
Step-cases (took_reset_first now t t' _ _ h) = inl (take_reset-Same _ now t t' h)
Step-cases (took_tick t t' h) = inl (take_tick-Same t t' h)
Step-cases (checked confirmed check now t _) = inl (checked-Same confirmed check now t)
Step-cases (got_answer answer t) = inl (refl, refl)
Step-cases (triggered now t m h) = inr (now, refl, trigger-IsTriggered now t m h)

spent_rest :
    (m : Machine)
    → IsSound m
    → m.timeout.timeout ≡ true
    → (m.timeout.timer ≡ stopped) × (m.timeout.reset_slot ≡ none)
spent_rest m sound spent = (ground arith, ground arith)

spent_keeps :
    {ticks : Ticks} {has_confirm : Bool} {m n : Machine}
    → Step ticks has_confirm m n
    → IsSound m
    → m.timeout.timeout ≡ true
    → (n.timeout.timeout ≡ true) × (n.timeout.interrupt_at ≡ m.timeout.interrupt_at)
spent_keeps {m = m} step sound spent = elim (Step-cases step) [
  | inl same ↦ (same.0 ∙ spent, same.1)
  | inr (now, there, _) ↦
      let ticked : (is_stopped m.timeout.timer && not m.timeout.timeout) ≡ true =
        subst
          (λ p. (not (has_tick p) || (is_stopped m.timeout.timer && not m.timeout.timeout)) ≡ true)
          there sound.2 in
      ground arith
]

-- A timeout that was triggered in a sound machine is never triggered again: whatever steps follow,
-- its instant stays, its timer does not run and no reset waits.
pub triggers_once :
    {ticks : Ticks} {has_confirm : Bool} {m n : Machine}
    → Steps ticks has_confirm m n
    → IsSound m
    → m.timeout.timeout ≡ true
    → (n.timeout.timeout ≡ true)
      × (n.timeout.interrupt_at ≡ m.timeout.interrupt_at)
      × (n.timeout.timer ≡ stopped)
      × (n.timeout.reset_slot ≡ none)
triggers_once (no_step m) sound spent =
    (spent, refl, (spent_rest m sound spent).0, (spent_rest m sound spent).1)
triggers_once (then_step m n o steps step) sound spent =
    let (still, instant, _, _) = triggers_once steps sound spent in
    let kept = spent_keeps step (Steps-IsSound steps sound) still in
    let (idle, empty) = spent_rest o (Step-IsSound step (Steps-IsSound steps sound)) kept.0 in
    (kept.0, kept.1 ∙ instant, idle, empty)
