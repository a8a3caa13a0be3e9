-- ===== src/Tests/Lifetime.antt =====
-- Timeouts at concrete inputs: a function that started at 0, with ticks of 100 ms less 2 ms.
use lambda_objectstore.Base.{◌≡◌, refl, true, false, none, some, arith}
use lambda_objectstore.Base.Int.{pos}
use lambda_objectstore.Lifetime.Ticks.{init, initial_ticks, get_timeout, ceil_to}
use lambda_objectstore.Lifetime.Ticks.Bounds.{IsCeiling, get_timeout-IsCeiling}
use lambda_objectstore.Lifetime.Timer.{other, stopped, fired, Timeout}
use lambda_objectstore.Lifetime.Loop.{
  at_place, triggering, selecting, trigger, called, triggered, no_step, then_step, Steps, Step,
  resetting, call,
}
use lambda_objectstore.Lifetime.Loop.Sound.{IsSound}
use lambda_objectstore.Lifetime.Loop.Once.{Steps-IsSound, trigger_passes, triggers_once}

-- 250 ms and 1 s more are paid for until 1.3 s, less the error.
test_due :
    get_timeout initial_ticks (pos 250000000) (pos 1000000000)
    ≡ record { timeout = pos 1048000000; due = pos 1298000000 }
unfolding get_timeout ceil_to
test_due = refl

test_init : (init 512 initial_ticks).tick_error ≡ 10000000
unfolding init
test_init = refl

get_timeout-IsCeiling_example :
    IsCeiling initial_ticks
      (pos 250000000)
      1000000000
      (get_timeout initial_ticks (pos 250000000) (pos 1000000000))
get_timeout-IsCeiling_example =
    get_timeout-IsCeiling initial_ticks (pos 250000000) 1000000000 (omega arith) (omega arith)

-- Its timer fired, and the loop took the tick and was confirmed.
abbrev pending : Timeout
pending = record {
  start_at = 0;
  interrupt_at = 0;
  interrupt_end = 0;
  timer = stopped;
  last_extension = pos 0;
  last_reason = other 1;
  reset_slot = none;
  reset_reason = other 0;
  active = pos 0;
  disabled = false;
  c = none;
  timeout = false;
  due = pos 98000000;
  deadline = 0;
  busy_extension = 0;
  session_done = false;
  lock_lost = false;
}

abbrev over : Timeout
over = record pending { timeout = true; interrupt_at = 98000500; c = some 98000500 }

pending-IsSound : IsSound (at_place triggering pending)
pending-IsSound = (refl, refl, refl, refl)

over-IsSound : IsSound (at_place selecting over)
over-IsSound = (refl, refl, refl, refl)

-- The run from the tick through the checks, without Confirm; a function gets busy after the check
-- for that, and the timeout is triggered all the same.
abbrev ticked : Timeout
ticked = record pending { timer = fired }

abbrev late_busy : Timeout
late_busy = record pending { active = pos 1; last_reason = other 2 }

triggering-Step : Step initial_ticks true (at_place triggering pending) (at_place selecting over)
unfolding trigger
triggering-Step = triggered 98000500 pending (at_place selecting over) refl

triggering-Steps : Steps initial_ticks true (at_place triggering pending) (at_place selecting over)
triggering-Steps = then_step _ _ _ (no_step _) triggering-Step

Steps-IsSound_example : IsSound (at_place selecting over)
Steps-IsSound_example = Steps-IsSound triggering-Steps pending-IsSound

trigger_passes_example : trigger 98000500 pending ≡ some (at_place selecting over)
trigger_passes_example = trigger_passes 98000500 pending pending-IsSound

-- A reset comes too late.
late-Steps :
    Steps initial_ticks true (at_place selecting over) (at_place selecting (call resetting over))
late-Steps = then_step _ _ _ (no_step _) (called resetting selecting over refl)

triggers_once_example :
    ((call resetting over).timeout ≡ true)
    × ((call resetting over).interrupt_at ≡ 98000500)
    × ((call resetting over).timer ≡ stopped)
    × ((call resetting over).reset_slot ≡ none)
triggers_once_example = triggers_once late-Steps over-IsSound refl
