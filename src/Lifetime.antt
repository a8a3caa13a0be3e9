-- ===== src/Lifetime.antt =====
-- lambda/lifetime: how long a cloud function lives (lifetime.go), the ticks that it is billed by
-- (Init of timeout.go) and the session of an invocation (session.go); the children are about the
-- timeout of a session. Instants and durations are in nanoseconds.
use lambda_objectstore.Base.{ℕ, ◌-◌, Bool, true, false, leb, if◌then◌else◌}
pub mod Ticks
pub mod Timer
pub mod Loop
mod Session

pub record Lifetime : Type 0 where
  pub birthtime : ℕ
  pub alive : Bool
  pub expected : ℕ

-- New(expected), at `now`
unfoldable new_lifetime : ℕ → ℕ → Lifetime
new_lifetime expected now = record { birthtime = now; alive = true; expected = expected }

unfoldable id : Lifetime → ℕ
id l = l.birthtime

unfoldable reborn : ℕ → Lifetime → Lifetime
reborn now l = record l { birthtime = now; alive = true }

unfoldable reborn_if_dead : ℕ → Lifetime → Lifetime
unfolding reborn
reborn_if_dead now l = if l.alive then l else reborn now l

-- The package's variable Immortal is the first argument.
unfoldable is_time_up : Bool → ℕ → Lifetime → Bool
is_time_up immortal now l = if immortal then false else leb l.expected (now - l.birthtime)

unfoldable rest : Lifetime → Lifetime
rest l = record l { alive = false }
