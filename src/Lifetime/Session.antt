-- ===== src/Lifetime/Session.antt =====
-- The session of an invocation, lambda/lifetime/session.go. The package's variable `session` is
-- the state; what the handlers keep in a session beside its timeout is left out. The channel that
-- tells that a session is done stands in its timeout.
use lambda_objectstore.Base.{ℕ, Bool, false, Option, none, some}
use lambda_objectstore.Lifetime.Timer.{Timeout, done_session}

pub record Session : Type 0 where
  pub setup : ℕ
  pub migrating : Bool
  pub timeout : Timeout

-- GetOrCreateSession(), where `fresh` is what NewTimeout makes
unfoldable pub get_or_create_session : Timeout → Option Session → Session × Option Session
get_or_create_session fresh none =
    let session : Session = record { setup = 1; migrating = false; timeout = fresh } in
    (session, some session)
get_or_create_session fresh (some session) = (session, some session)

unfoldable pub get_session : Option Session → Option Session
get_session session = session

unfoldable pub clear_session : Option Session → Option Session
clear_session session = none

unfoldable pub is_done : Session → Bool
is_done s = s.timeout.session_done

unfoldable pub done : Session → Session
unfolding done_session
done s = record s { timeout = done_session s.timeout }

unfoldable pub is_migrating : Session → Bool
is_migrating s = s.migrating
