-- ===== src/Lifetime/Loop/Sound.antt =====
-- The invariant of the loop of a timeout, lambda/lifetime/timeout.go.
use lambda_objectstore.Base.{
  ℕ, ◌≡◌, refl, sym, ap, ◌∙◌, subst, Bool, true, false, not, ◌||◌, ◌&&◌, Option, none, some,
  if◌then◌else◌, arith, Bool-cases, inl, inr,
}
use mathlib.Core.Option.{some-injective}
use lambda_objectstore.Base.Int.{ℤ, pos, leb_ℤ}
use lambda_objectstore.Lifetime.Ticks.{Ticks}
use lambda_objectstore.Lifetime.Timer.{
  Reason, Timer, stopped, armed, fired, Timeout, stop, reset_locked, reset, reset_with_extension,
  disable, enable, halt, restart, busy, done_busy, done_busy_with_reset, done_session,
  start_with_calibration, start_with_deadline, end_interruption,
}
use lambda_objectstore.Lifetime.Loop.{
  Check, flags, busyness, due_time, passes, refuse, trigger, try_timeout, is_some, Place, selecting,
  confirming, triggering, ended, trying, Machine, take_reset, take_tick, expire, expire_armed,
  take_fired, take_extension, rearm, Call, resetting, resetting_with, disabling, enabling, halting,
  stopping, restarting, busying, done_busying, done_busying_with, finishing_session, calibrating,
  limiting, resuming, receiving, extending, call, takes_lock, is_locked, at_place, Step, called,
  expired, ended_by_session, took_reset, took_reset_first, took_tick, checked, got_answer,
  triggered, reset_on_busy_locked,
}

abbrev pub is_stopped : Timer → Bool
is_stopped stopped = true
is_stopped _ = false

-- The loop holds a tick that it took from the timer.
abbrev pub has_tick : Place → Bool
has_tick selecting = false
has_tick confirming = true
has_tick triggering = true
has_tick ended = false
has_tick (trying confirmed check) = true

-- A timeout that was triggered has neither a timer that runs nor a reset that waits.
abbrev pub is_spent : Timeout → Bool
is_spent t = not t.timeout || (is_stopped t.timer && not (is_some t.reset_slot))

-- Only a timeout that was triggered has its signal in C().
abbrev pub is_signalled : Timeout → Bool
is_signalled t = not (is_some t.c) || t.timeout

-- While the loop holds a tick, the timer does not run and the timeout was not triggered.
abbrev pub is_ticked : Place → Timeout → Bool
is_ticked p t = not (has_tick p) || (is_stopped t.timer && not t.timeout)

-- While the loop holds the lock no reset waits: that was its first check.
abbrev pub is_cleared : Place → Timeout → Bool
is_cleared p t = not (is_locked p) || not (is_some t.reset_slot)

abbrev pub IsSound : Machine → Type 0
IsSound m =
    (is_spent m.timeout ≡ true)
    × (is_signalled m.timeout ≡ true)
    × (is_ticked m.place m.timeout ≡ true)
    × (is_cleared m.place m.timeout ≡ true)

-- What a call may change of what the invariant reads.
abbrev pub Mild : Timeout → Timeout → Type 0
Mild t t' =
    (t'.timeout ≡ t.timeout)
    × ((is_stopped t.timer && not (is_stopped t'.timer)) ≡ false)
    × ((t.timeout && (is_some t'.reset_slot && not (is_some t.reset_slot))) ≡ false)
    × ((is_some t'.c && not (is_some t.c)) ≡ false)

Mild-IsSound :
    (p : Place) (t t' : Timeout)
    → Mild t t'
    → (is_locked p ≡ true → t'.reset_slot ≡ t.reset_slot)
    → IsSound (at_place p t)
    → IsSound (at_place p t')
Mild-IsSound p t t' mild kept sound = elim (Bool-cases (is_locked p)) [
  | inl e ↦ let same = kept e in ground arith
  | inr e ↦ ground arith
]

reset-Mild : (t : Timeout) → Mild t (reset t).1
unfolding reset reset_locked
reset-Mild t = ground arith

reset_with_extension-Mild :
    (ext : ℤ) (reason : Reason) (t : Timeout) → Mild t (reset_with_extension ext reason t).1
unfolding reset_with_extension
reset_with_extension-Mild ext reason t =
    reset-Mild (record t { last_extension = ext; last_reason = reason })

done_busy_with_reset-Mild :
    (ext : ℤ) (reason : Reason) (t : Timeout) → Mild t (done_busy_with_reset ext reason t)
unfolding done_busy_with_reset done_busy
done_busy_with_reset-Mild ext reason t =
    let at = reset_with_extension-Mild ext reason t in ground arith

pub call-Mild : (by : Call) (t : Timeout) → Mild t (call by t)
unfolding call disable enable halt stop restart busy done_busy done_session start_with_calibration
    start_with_deadline end_interruption
call-Mild resetting t = reset-Mild t
call-Mild (resetting_with ext reason) t = reset_with_extension-Mild ext reason t
call-Mild disabling t = ground arith
call-Mild enabling t = ground arith
call-Mild halting t = ground arith
call-Mild stopping t = ground arith
call-Mild (restarting ext reason) t =
    reset_with_extension-Mild ext reason (record t { disabled = false })
call-Mild (busying reason) t = ground arith
call-Mild done_busying t = ground arith
call-Mild (done_busying_with ext reason) t = done_busy_with_reset-Mild ext reason t
call-Mild finishing_session t = ground arith
call-Mild (calibrating start) t = ground arith
call-Mild (limiting now deadline) t = ground arith
call-Mild (resuming now) t = ground arith
call-Mild receiving t = ground arith
call-Mild (extending ext reason) t = ground arith

-- A call without the lock leaves the reset as it is.
call_slot :
    (by : Call) (t : Timeout) → takes_lock by ≡ false → (call by t).reset_slot ≡ t.reset_slot
unfolding call disable enable halt stop busy done_busy start_with_calibration start_with_deadline
    end_interruption
call_slot resetting t h = ground arith
call_slot (resetting_with ext reason) t h = ground arith
call_slot (restarting ext reason) t h = ground arith
call_slot (done_busying_with ext reason) t h = ground arith
call_slot finishing_session t h = ground arith
call_slot _ t h = refl

expired-IsSound :
    (now : ℕ) (p : Place) (t t' : Timeout)
    → expire now t ≡ some t'
    → IsSound (at_place p t)
    → IsSound (at_place p t')
unfolding expire
expired-IsSound now p t t' h sound = from t.timer refl h
  where
    from :
        (timer : Timer)
        → t.timer ≡ timer
        → expire_armed now t timer ≡ some t'
        → IsSound (at_place p t')
    from stopped e h = unfold expire_armed in ground arith
    from fired e h = unfold expire_armed in ground arith
    from (armed instant) e h =
        unfold expire_armed in
        let idle : is_stopped t.timer ≡ false = rw e refl in
        elim (Bool-cases (leb_ℤ instant (pos now))) [
          | inl f ↦
              let made : record t { timer = fired } ≡ t' = some-injective _ _ (
                subst (λ b. (if b then some (record t { timer = fired }) else none) ≡ some t') f
                  h) in
              subst (λ u. IsSound (at_place p u)) made (ground arith)
          | inr f ↦ ground arith
        ]

took_tick-IsSound :
    (has_confirm : Bool) (t t' : Timeout)
    → take_tick t ≡ some t'
    → IsSound (at_place selecting t)
    → IsSound (at_place (trying (not has_confirm) flags) t')
unfolding take_tick
took_tick-IsSound has_confirm t t' h sound = from t.timer refl h
  where
    from :
        (timer : Timer)
        → t.timer ≡ timer
        → take_fired t timer ≡ some t'
        → IsSound (at_place (trying (not has_confirm) flags) t')
    from stopped e h = unfold take_fired in ground arith
    from (armed instant) e h = unfold take_fired in ground arith
    from fired e h =
        unfold take_fired in
        let idle : is_stopped t.timer ≡ false = rw e refl in
        subst (λ u. IsSound (at_place (trying (not has_confirm) flags) u)) (some-injective _ _ h)
          (ground arith)

took_reset-IsSound :
    (ticks : Ticks) (now : ℕ) (t t' : Timeout)
    → take_reset ticks now t ≡ some t'
    → IsSound (at_place selecting t)
    → IsSound (at_place selecting t')
unfolding take_reset
took_reset-IsSound ticks now t t' h sound = from t.reset_slot refl h
  where
    from :
        (slot : Option ℤ)
        → t.reset_slot ≡ slot
        → take_extension ticks now t slot ≡ some t'
        → IsSound (at_place selecting t')
    from none e h = unfold take_extension in ground arith
    from (some ext) e h =
        unfold take_extension rearm stop in
        let waiting : is_some t.reset_slot ≡ true = rw e refl in
        subst (λ u. IsSound (at_place selecting u)) (some-injective _ _ h) (ground arith)

checked-IsSound :
    (confirmed : Bool) (check : Check) (now : ℕ) (t : Timeout)
    → IsSound (at_place (trying confirmed check) t)
    → IsSound (try_timeout confirmed check now t)
unfolding try_timeout refuse passes reset_on_busy_locked reset_locked
checked-IsSound confirmed flags now t sound = ground arith
checked-IsSound confirmed busyness now t sound = ground arith
checked-IsSound true due_time now t sound = ground arith
checked-IsSound false due_time now t sound = ground arith

triggered-IsSound :
    (now : ℕ) (t : Timeout) (m : Machine)
    → trigger now t ≡ some m
    → IsSound (at_place triggering t)
    → IsSound m
unfolding trigger
triggered-IsSound now t m h sound =
    let free : is_some t.c ≡ false = ground arith in
    subst IsSound
      (some-injective _ _ (
        sym (
          ap
            (λ b.
              if b
              then none
              else some (
                  at_place selecting
                    (record t { timeout = true; interrupt_at = now; c = some now })))
            free)
        ∙ h))
      (ground arith)

pub Step-IsSound :
    {ticks : Ticks} {has_confirm : Bool} {m n : Machine}
    → Step ticks has_confirm m n
    → IsSound m
    → IsSound n
Step-IsSound (called by p t h) sound =
    Mild-IsSound p t (call by t) (call-Mild by t) (λ e. call_slot by t (ground arith)) sound
Step-IsSound (expired now p t t' h) sound = expired-IsSound now p t t' h sound
Step-IsSound (ended_by_session t h) sound = ground arith
Step-IsSound (took_reset now t t' h) sound = took_reset-IsSound _ now t t' h sound
Step-IsSound (took_reset_first now t t' _ _ h) sound =
    let kept = took_reset-IsSound _ now t t' h sound in ground arith
Step-IsSound {has_confirm = has_confirm} (took_tick t t' h) sound =
    took_tick-IsSound has_confirm t t' h sound
Step-IsSound (checked confirmed check now t h) sound = checked-IsSound confirmed check now t sound
Step-IsSound (got_answer answer t) sound = elim (Bool-cases answer) [
  | inl e ↦ rw e (ground arith)
  | inr e ↦ rw e (ground arith)
]
Step-IsSound (triggered now t m h) sound = triggered-IsSound now t m h sound
