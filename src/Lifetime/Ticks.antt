-- ===== src/Lifetime/Ticks.antt =====
-- The ticks of lambda/lifetime/timeout.go: Init, which adapts them to the memory of the function,
-- and getTimeout, whose durations are int64 and wrap around. The source rounds up by a quotient in
-- floating point, which is exact for durations below 2 ^ 52 ns (52 days) and is taken as exact
-- here. NewTimeout calls getTimeout before the start is set, when the time since then is the
-- largest duration; that call is not modelled.
use lambda_objectstore.Base.{ℕ, suc, ◌+◌, ◌-◌, ◌*◌, ◌/◌, ◌%◌, ltb, ◌==◌, if◌then◌else◌}
use lambda_objectstore.Base.Int.{ℤ, pos, negsuc, pos_part, neg_part, sub_ℕ, ◌+ℤ◌, ltb_ℤ}
pub mod Bounds

abbrev pub millisecond : ℕ
millisecond = 1000000

-- The package's variables.
pub record Ticks : Type 0 where
  pub tick : ℕ
  pub tick_error_extend : ℕ
  pub tick_error : ℕ
  pub memory_limit : ℕ

-- Their values at the start.
abbrev pub initial_ticks : Ticks
initial_ticks = record {
  tick = 100 * millisecond;
  tick_error_extend = 1000 * millisecond;
  tick_error = 2 * millisecond;
  memory_limit = 3096;
}

-- Init(), where `configured` is the memory that the platform tells
unfoldable pub init : ℕ → Ticks → Ticks
init configured t =
    let memory = if ltb 0 configured then configured else t.memory_limit in
    let extend =
      if ltb memory 896
      then 10000 * millisecond
      else if ltb memory 1792
      then 1000 * millisecond
      else 1000 * millisecond in
    let error =
      if ltb memory 896
      then 10 * millisecond
      else if ltb memory 1792
      then 10 * millisecond
      else 2 * millisecond in
    record t {
      tick_error_extend = extend;
      tick_error = if t.tick == millisecond then 0 else error;
      memory_limit = memory;
    }

abbrev pub negate : ℕ → ℤ
negate n = sub_ℕ 0 n

-- Ceil(d / tick) * tick
unfoldable pub ceil_to : ℕ → ℤ → ℤ
ceil_to tick (pos d) = pos ((d + (tick - 1)) / tick * tick)
ceil_to tick (negsuc d) = negate (suc d / tick * tick)

abbrev pub i64_bound : ℕ
i64_bound = 9223372036854775808

-- An int64, which wraps around
abbrev pub wrap_i64 : ℤ → ℤ
wrap_i64 (pos n) =
    let m = n % (2 * i64_bound) in if ltb m i64_bound then pos m else negsuc (2 * i64_bound - 1 - m)
wrap_i64 (negsuc n) =
    let m = n % (2 * i64_bound) in if ltb m i64_bound then negsuc m else pos (2 * i64_bound - 1 - m)

abbrev pub negate_ℤ : ℤ → ℤ
negate_ℤ d = sub_ℕ (neg_part d) (pos_part d)

pub record Due : Type 0 where
  pub timeout : ℤ
  pub due : ℤ

-- getTimeout(ext), where `now` is what Since() returns
unfoldable pub get_timeout : Ticks → ℤ → ℤ → Due
unfolding ceil_to
get_timeout t now ext =
    if ltb_ℤ ext (pos 0)
    then record { timeout = pos millisecond; due = wrap_i64 (now +ℤ pos millisecond) }
    else let due = wrap_i64 (ceil_to t.tick (wrap_i64 (now +ℤ ext)) +ℤ negate t.tick_error) in
      record { timeout = wrap_i64 (due +ℤ negate_ℤ now); due = due }
