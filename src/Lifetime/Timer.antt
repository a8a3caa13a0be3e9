-- ===== src/Lifetime/Timer.antt =====
-- The timeout of a session (lambda/lifetime/timeout.go): its state, the calls of the handlers, and
-- what its loop does with the timer. The done channel of the session is a field here, and so is
-- the state of the timer; loggers are left out. A call takes the present instant where it needs it.
use lambda_objectstore.Base.{
  ℕ, ◌-◌, ◌*◌, Bool, true, false, not, ◌||◌, Option, some, ltb, if◌then◌else◌,
}
use lambda_objectstore.Base.Int.{ℤ, pos, negsuc, pos_part, neg_part, sub_ℕ, ◌+ℤ◌, ltb_ℤ}
use lambda_objectstore.Lifetime.Ticks.{Ticks, get_timeout, ceil_to, millisecond}

-- The reasons that are told apart: protocol.CMD_PING and any other.
pub data Reason : Type 0 where
  ping : Reason
  other : ℕ → Reason

-- `armed at` fires at an instant; `fired` has its tick in timer.C.
pub data Timer : Type 0 where
  stopped : Timer
  armed : ℤ → Timer
  fired : Timer

-- `reset` and `c` are channels of one slot.
pub record Timeout : Type 0 where
  pub start_at : ℕ
  pub interrupt_at : ℕ
  pub interrupt_end : ℕ
  pub timer : Timer
  pub last_extension : ℤ
  pub last_reason : Reason
  pub reset_slot : Option ℤ
  pub reset_reason : Reason
  pub active : ℤ
  pub disabled : Bool
  pub c : Option ℕ
  pub timeout : Bool
  pub due : ℤ
  pub deadline : ℕ
  pub busy_extension : ℕ
  pub session_done : Bool
  -- a handler waits for ever at `reset`, with the lock of the session held
  pub lock_lost : Bool

unfoldable pub since : ℕ → Timeout → ℤ
since now t = sub_ℕ now t.start_at

unfoldable pub start_with_calibration : ℕ → Timeout → Timeout
start_with_calibration start t = record t { start_at = start }

-- StartWithDeadline(deadline): the life is what is left, rounded up to seconds.
unfoldable pub start_with_deadline : ℕ → ℕ → Timeout → Timeout
unfolding ceil_to start_with_calibration
start_with_deadline now deadline t =
    let life = ceil_to (1000 * millisecond) (sub_ℕ deadline now) in
    start_with_calibration (pos_part (pos deadline +ℤ sub_ℕ (neg_part life) (pos_part life)))
      (record t { deadline = deadline })

unfoldable pub end_interruption : ℕ → Timeout → Timeout
end_interruption now t = record t { interrupt_end = now }

unfoldable pub interrupted : ℕ → Timeout → ℕ
interrupted now t =
    if ltb t.interrupt_at t.interrupt_end
    then t.interrupt_end - t.interrupt_at
    else now - t.interrupt_at

-- Stop() drains the timer too.
unfoldable pub stop : Timeout → Timeout
stop t = record t { timer = stopped }

-- Enable() and Disable() return whether they changed the flag.
unfoldable pub disable : Timeout → Bool × Timeout
disable t = (not t.disabled, record t { disabled = true })

unfoldable pub enable : Timeout → Bool × Timeout
enable t = (t.disabled, record t { disabled = false })

unfoldable pub reset_locked : Timeout → Timeout
reset_locked t = record t { reset_reason = t.last_reason; reset_slot = some t.last_extension }

unfoldable pub reset : Timeout → Bool × Timeout
unfolding reset_locked
reset t =
    if t.timeout || t.disabled
    then (false, t)
    else if t.session_done
    then (false, t)
    else (true, reset_locked (record t { busy_extension = 0 }))

unfoldable pub reset_with_extension : ℤ → Reason → Timeout → Bool × Timeout
unfolding reset
reset_with_extension ext reason t = reset (record t { last_extension = ext; last_reason = reason })

unfoldable pub halt : Timeout → Timeout
unfolding disable stop
halt t = stop (disable t).1

unfoldable pub restart : ℤ → Reason → Timeout → Timeout
unfolding enable reset_with_extension
restart ext reason t = (reset_with_extension ext reason (enable t).1).1

unfoldable pub busy : Reason → Timeout → Timeout
busy reason t = record t { active = t.active +ℤ pos 1; last_reason = reason }

unfoldable pub done_busy : Timeout → Timeout
done_busy t = record t { active = t.active +ℤ negsuc 0 }

abbrev pub is_ping : Reason → Bool
is_ping ping = true
is_ping (other _) = false

-- An extension by a ping that was not acknowledged is kept.
unfoldable pub done_busy_with_reset : ℤ → Reason → Timeout → Timeout
unfolding reset_with_extension done_busy
done_busy_with_reset ext reason t =
    done_busy (if is_ping t.last_reason then t else (reset_with_extension ext reason t).1)

unfoldable pub is_busy : Timeout → Bool
is_busy t = ltb_ℤ (pos 0) t.active

unfoldable pub get_estimate_due : Ticks → ℕ → ℤ → Timeout → ℤ
unfolding get_timeout since
get_estimate_due ticks now ext t = pos t.start_at +ℤ (get_timeout ticks (since now t) ext).due

unfoldable pub get_due : Timeout → ℤ
get_due t = pos t.start_at +ℤ t.due

-- Session.DoneLocked closes the channel, once.
unfoldable pub done_session : Timeout → Timeout
done_session t = if t.session_done then t else record t { session_done = true }
