-- ===== src/Lifetime/Loop.antt =====
-- validateTimeout and tryTimeout of lambda/lifetime/timeout.go: the loop that watches a timeout,
-- as a machine whose steps interleave with the calls of the handlers. tryTimeout makes its checks
-- one by one, with the lock of the session held: calls that take the lock come before or after it,
-- all others between its checks, too.
use lambda_objectstore.Base.{
  ℕ, ◌+◌, ◌≡◌, Bool, true, false, not, ◌&&◌, ◌||◌, Option, none, some, if◌then◌else◌,
}
use lambda_objectstore.Base.Int.{ℤ, pos, ◌+ℤ◌, ltb_ℤ, leb_ℤ}
use lambda_objectstore.Lifetime.Ticks.{Ticks, get_timeout}
use lambda_objectstore.Lifetime.Timer.{
  Reason, Timer, stopped, armed, fired, Timeout, since, stop, reset_locked, reset,
  reset_with_extension, disable, enable, halt, restart, busy, done_busy, done_busy_with_reset,
  is_busy, done_session, start_with_calibration, start_with_deadline, end_interruption,
}
pub mod Sound
pub mod Once
pub mod Checks

-- The checks of tryTimeout, in their order: a reset that waits or a timeout that is disabled; a
-- function that is busy; the due.
pub data Check : Type 0 where
  flags busyness due_time : Check

-- Where the loop is: in its select; in tryTimeout(false) or tryTimeout(true), before a check;
-- where Confirm runs; where tryTimeout(true) is to trigger the timeout; and where it has ended.
pub data Place : Type 0 where
  selecting confirming triggering ended : Place
  trying : Bool → Check → Place

pub record Machine : Type 0 where
  pub timeout : Timeout
  pub place : Place

abbrev pub at_place : Place → Timeout → Machine
at_place place t = record { timeout = t; place = place }

unfoldable pub reset_on_busy_locked : Timeout → Timeout
unfolding reset_locked
reset_on_busy_locked t = reset_locked (record t { busy_extension = t.busy_extension + 1 })

abbrev pub is_some {ℓ} : {A : Type ℓ} → Option A → Bool
is_some none = false
is_some (some _) = true

-- What comes after a check that passes.
abbrev pub next_place : Bool → Check → Place
next_place confirmed flags = trying confirmed busyness
next_place confirmed busyness = trying confirmed due_time
next_place confirmed due_time = if confirmed then triggering else confirming

-- Whether a check passes.
unfoldable pub passes : Check → ℕ → Timeout → Bool
unfolding is_busy since
passes flags now t = not (is_some t.reset_slot || t.disabled)
passes busyness now t = not (is_busy t)
passes due_time now t = not (ltb_ℤ (since now t) t.due)

-- What a check that fails does, before tryTimeout returns false.
unfoldable pub refuse : Check → Timeout → Timeout
unfolding reset_on_busy_locked reset_locked
refuse flags t = t
refuse busyness t = reset_on_busy_locked t
refuse due_time t = reset_locked t

-- A check of tryTimeout(confirmed)
unfoldable pub try_timeout : Bool → Check → ℕ → Timeout → Machine
unfolding passes refuse
try_timeout confirmed check now t =
    if passes check now t
    then at_place (next_place confirmed check) t
    else at_place selecting (refuse check t)

-- The end of tryTimeout(true); `none` where it would wait at t.c with the lock held.
unfoldable pub trigger : ℕ → Timeout → Option Machine
trigger now t =
    if is_some t.c
    then none
    else some (at_place selecting (record t { timeout = true; interrupt_at = now; c = some now }))

unfoldable pub rearm : Ticks → ℕ → ℤ → Timeout → Timeout
unfolding get_timeout since stop
rearm ticks now ext t =
    let d = get_timeout ticks (since now t) ext in
    record (stop (record t { reset_slot = none })) {
      due = d.due;
      timer = armed (pos now +ℤ d.timeout);
    }

unfoldable pub take_extension : Ticks → ℕ → Timeout → Option ℤ → Option Timeout
unfolding rearm
take_extension ticks now t none = none
take_extension ticks now t (some ext) = some (rearm ticks now ext t)

-- The case of t.reset
unfoldable pub take_reset : Ticks → ℕ → Timeout → Option Timeout
unfolding take_extension
take_reset ticks now t = take_extension ticks now t t.reset_slot

unfoldable pub take_fired : Timeout → Timer → Option Timeout
take_fired t fired = some (record t { timer = stopped; c = none })
take_fired t _ = none

-- The case of t.timer.C, up to the checks: t.c is emptied.
unfoldable pub take_tick : Timeout → Option Timeout
unfolding take_fired
take_tick t = take_fired t t.timer

unfoldable pub expire_armed : ℕ → Timeout → Timer → Option Timeout
expire_armed now t (armed instant) =
    if leb_ℤ instant (pos now) then some (record t { timer = fired }) else none
expire_armed now t _ = none

-- The timer's goroutine
unfoldable pub expire : ℕ → Timeout → Option Timeout
unfolding expire_armed
expire now t = expire_armed now t t.timer

-- The calls that come from other goroutines, and the receipt of the signal from C().
pub data Call : Type 0 where
  resetting : Call
  resetting_with : ℤ → Reason → Call
  disabling enabling halting stopping : Call
  restarting : ℤ → Reason → Call
  busying : Reason → Call
  done_busying : Call
  done_busying_with : ℤ → Reason → Call
  finishing_session : Call
  calibrating : ℕ → Call
  limiting : ℕ → ℕ → Call
  resuming : ℕ → Call
  receiving : Call
  -- The part of ResetWithExtension that comes before the lock
  extending : ℤ → Reason → Call

unfoldable pub call : Call → Timeout → Timeout
unfolding reset reset_with_extension disable enable halt stop restart busy done_busy
    done_busy_with_reset done_session start_with_calibration start_with_deadline end_interruption
call resetting t = (reset t).1
call (resetting_with ext reason) t = (reset_with_extension ext reason t).1
call disabling t = (disable t).1
call enabling t = (enable t).1
call halting t = halt t
call stopping t = stop t
call (restarting ext reason) t = restart ext reason t
call (busying reason) t = busy reason t
call done_busying t = done_busy t
call (done_busying_with ext reason) t = done_busy_with_reset ext reason t
call finishing_session t = done_session t
call (calibrating start) t = start_with_calibration start t
call (limiting now deadline) t = start_with_deadline now deadline t
call (resuming now) t = end_interruption now t
call receiving t = record t { c = none }
call (extending ext reason) t = record t { last_extension = ext; last_reason = reason }

-- The calls that take the lock of the session.
abbrev pub takes_lock : Call → Bool
takes_lock resetting = true
takes_lock (resetting_with ext reason) = true
takes_lock (restarting ext reason) = true
takes_lock (done_busying_with ext reason) = true
takes_lock finishing_session = true
takes_lock _ = false

-- The loop holds the lock of the session.
abbrev pub is_locked : Place → Bool
is_locked (trying confirmed busyness) = true
is_locked (trying confirmed due_time) = true
is_locked triggering = true
is_locked _ = false

-- The steps of the loop. A loop without Confirm goes to its second try at once. A handler that
-- finds `reset` full takes what is in it, to replace it; when the loop took that first, the handler
-- waits for ever, with the lock held.
pub data Step (ticks : Ticks) (has_confirm : Bool) : Machine → Machine → Type 0 where
  called :
      (by : Call) (place : Place) (t : Timeout)
      → (takes_lock by && (is_locked place || t.lock_lost)) ≡ false
      → Step ticks has_confirm (at_place place t) (at_place place (call by t))
  expired :
      (now : ℕ) (place : Place) (t t' : Timeout)
      → expire now t ≡ some t'
      → Step ticks has_confirm (at_place place t) (at_place place t')
  ended_by_session :
      (t : Timeout)
      → t.session_done ≡ true
      → Step ticks has_confirm (at_place selecting t) (at_place ended t)
  took_reset :
      (now : ℕ) (t t' : Timeout)
      → take_reset ticks now t ≡ some t'
      → Step ticks has_confirm (at_place selecting t) (at_place selecting t')
  took_reset_first :
      (now : ℕ) (t t' : Timeout)
      → t.timeout ≡ false
      → t.lock_lost ≡ false
      → take_reset ticks now t ≡ some t'
      → Step ticks has_confirm
          (at_place selecting t)
          (at_place selecting (record t' { lock_lost = true }))
  took_tick :
      (t t' : Timeout)
      → take_tick t ≡ some t'
      → Step ticks has_confirm (at_place selecting t) (at_place (trying (not has_confirm) flags) t')
  checked :
      (confirmed : Bool) (check : Check) (now : ℕ) (t : Timeout)
      → t.lock_lost ≡ false
      → Step ticks has_confirm
          (at_place (trying confirmed check) t)
          (try_timeout confirmed check now t)
  got_answer :
      (answer : Bool) (t : Timeout)
      → Step ticks has_confirm
          (at_place confirming t)
          (at_place (if answer then trying true flags else selecting) t)
  triggered :
      (now : ℕ) (t : Timeout) (m : Machine)
      → trigger now t ≡ some m
      → Step ticks has_confirm (at_place triggering t) m

-- Any number of steps.
pub data Steps (ticks : Ticks) (has_confirm : Bool) : Machine → Machine → Type 0 where
  no_step : (m : Machine) → Steps ticks has_confirm m m
  then_step :
      (m n o : Machine)
      → Steps ticks has_confirm m n
      → Step ticks has_confirm n o
      → Steps ticks has_confirm m o
