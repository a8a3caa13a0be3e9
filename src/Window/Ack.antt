-- ===== src/Window/Ack.antt =====
-- AckRequest of common/redeo/client/wnd.go. A call runs alone, so that its exchange of the
-- acknowledged sequence succeeds; a meta that goes back to the pool is not followed further.
use lambda_objectstore.Base.{
  ℕ, zero, suc, ◌+◌, ◌*◌, Bool, true, false, ◌&&◌, ◌||◌, Option, none, some, List, ◌∷◌, ◌++◌, ltb,
  leb, ◌==◌, if◌then◌else◌, set, get_elem?, drop,
}
use lambda_objectstore.WaitGroup.{done}
use lambda_objectstore.Window.{
  ReqBucket, RequestMeta, Window, WindowError, connection_closed, seq_step, live, seek, Sought,
  not_there, out_of_range, at, request_at, Located, lost, located, find_request_meta,
}
use lambda_objectstore.Window.Add.{with_live}
pub mod Rounds
pub mod Loop
pub mod Advance
pub mod Ranges
pub mod Quiet
pub mod Ends

-- A change of the request at a position, and of the counter of the bucket
abbrev pub change_slot :
    Option ReqBucket → ℕ → Option RequestMeta → ℕ → ℕ → List ReqBucket → List ReqBucket
change_slot none i m more k bs = bs
change_slot (some b) i m more k bs =
    set bs k (record b { requests = set b.requests i m; acks = b.acks + more })

abbrev pub change_at : ℕ → ℕ → Option RequestMeta → ℕ → Window → Window
change_at k i m more w = with_live (change_slot (get_elem? (live w) k) i m more k (live w)) w

-- The loop: where it is, the bucket from which blocked requests are searched, how often it
-- advanced, and whether an index was out of range.
pub record Advancing : Type 0 where
  pub window : Window
  pub bucket : ℕ
  pub index : ℕ
  pub blocked : ℕ
  pub advanced : ℕ
  pub panicked : Bool

abbrev pub notify : ℕ → ℕ → Option RequestMeta → Window → Window
notify k i none w = w
notify k i (some m) w = change_at k i (some (record m { notifier = done m.notifier })) 0 w

-- A request that waits for the window is released.
abbrev pub release_at : Sought → Advancing → Advancing
release_at not_there a = record a { blocked = a.bucket }
release_at out_of_range a = record a { panicked = true }
release_at (at k i) a = record a {
  blocked = k;
  window = notify k i (request_at k i (live a.window)) a.window;
}

unfoldable pub release : ℕ → Advancing → Advancing
unfolding seek
release target a = release_at (seek target a.blocked (drop a.blocked (live a.window))) a

-- A round of the loop, up to the search for the next request
unfoldable pub advance : ℕ → Advancing → Advancing
unfolding release
advance seq a =
    let w = record (change_at a.bucket a.index none 0 a.window) { acked = seq } in
    release (seq + w.size * seq_step) (record a { window = w; advanced = a.advanced + 1 })

abbrev pub is_acked_meta : Option RequestMeta → Bool
is_acked_meta none = false
is_acked_meta (some m) = m.is_acked

-- The next position, where its request was acknowledged already, or a panic
abbrev pub next_position : Sought → Advancing → Option Advancing
next_position not_there a = none
next_position out_of_range a = some (record a { panicked = true })
next_position (at k i) a =
    if is_acked_meta (request_at k i (live a.window))
    then some (record a { bucket = k; index = i })
    else none

abbrev pub after : ℕ → Advancing → Option Advancing
after seq a =
    if a.panicked || ltb a.window.seq seq
    then none
    else next_position (seek seq a.bucket (drop a.bucket (live a.window))) a

abbrev pub going_on :
    Option Advancing → Advancing → (Advancing → Option Advancing) → Option Advancing
going_on none a rest = some a
going_on (some b) a rest = if b.panicked then some b else rest b

-- The loop, at most the given number of rounds
unfoldable pub advance_loop : ℕ → ℕ → Advancing → Option Advancing
unfolding advance
advance_loop zero seq a = none
advance_loop (suc rounds) seq a =
    if seq == a.window.acked + seq_step
    then going_on (after (seq + seq_step) (advance seq a)) (advance seq a)
        (λ (b : Advancing). advance_loop rounds (seq + seq_step) b)
    else some a

-- Whether the garbage collection is started
abbrev pub must_collect : List ReqBucket → ℕ → ℕ → Bool
must_collect (top ∷ next ∷ bs) advanced acked = ltb 0 advanced && leb next.first (acked + seq_step)
must_collect _ advanced acked = false

pub data Acked : Type 0 where
  ack_failed : WindowError → Acked
  acknowledged : Option ℕ → Advancing → Bool → Acked
  no_round : Acked

abbrev pub finished : Option ℕ → Option Advancing → Acked
finished request none = no_round
finished request (some a) =
    acknowledged request a
      (must_collect (a.window.behind ++ live a.window) a.advanced a.window.acked)

abbrev pub start_at : ℕ → ℕ → RequestMeta → Window → Advancing
start_at k i m w = record {
  window = change_at k i (some (record m { is_acked = true })) 1 w;
  bucket = k;
  index = i;
  blocked = k;
  advanced = 0;
  panicked = false;
}

abbrev pub ack_located : ℕ → ℕ → Located → Window → Acked
ack_located rounds seq (lost error) w = ack_failed error
ack_located rounds seq (located k i m) w =
    finished m.request (advance_loop rounds seq (start_at k i m w))

-- AckRequest(seq), with a bound for the rounds of its loop
unfoldable pub ack_request : ℕ → ℕ → Window → Acked
unfolding find_request_meta advance_loop
ack_request rounds seq w =
    if w.closed
    then ack_failed connection_closed
    else ack_located rounds seq (find_request_meta seq w) w
