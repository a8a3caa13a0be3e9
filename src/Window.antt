-- ===== src/Window.antt =====
-- The window of requests that a client has sent and that were not answered, Window of
-- common/redeo/client/wnd.go: the buckets and the search in them. The chain of buckets from the top
-- to the tail is cut at the active one: `behind` are those before it, and `active` and `ahead`
-- are searched. Sequences and sizes are numbers; the counters of references are left out.
use lambda_objectstore.Base.{
  ℕ, ◌+◌, ◌-◌, ◌*◌, ◌/◌, Bool, false, not, ◌&&◌, ◌||◌, Option, none, some, List, [], ◌∷◌, replicate,
  ltb, leb, if◌then◌else◌, get_elem?,
}
use lambda_objectstore.WaitGroup.{WaitGroup, is_waiting}
pub mod Add
pub mod Ack
pub mod Recycle

abbrev pub bucket_size : ℕ
bucket_size = 20

abbrev pub window_size : ℕ
window_size = 20

abbrev pub seq_step : ℕ
seq_step = 1000000

-- The sequences of a bucket
abbrev pub span : ℕ
span = bucket_size * seq_step

pub record RequestMeta : Type 0 where
  pub request : Option ℕ
  pub meta_seq : ℕ
  pub sent : Bool
  pub is_acked : Bool
  pub deadline : ℕ
  pub notifier : WaitGroup

abbrev pub Requests : Type 0
Requests = List (Option RequestMeta)

pub record ReqBucket : Type 0 where
  pub first : ℕ
  pub acks : ℕ
  pub filled : ℕ
  pub requests : Requests

unfoldable pub new_req_bucket : ℕ → ReqBucket
new_req_bucket seq = record {
  first = seq;
  acks = 0;
  filled = 0;
  requests = replicate bucket_size none;
}

pub record Window : Type 0 where
  pub seq : ℕ
  pub acked : ℕ
  pub size : ℕ
  pub behind : List ReqBucket
  pub active : ReqBucket
  pub ahead : List ReqBucket
  pub closed : Bool

-- NewWindow(), where `start` is the random start
unfoldable pub new_window : ℕ → Window
unfolding new_req_bucket
new_window start = record {
  seq = start;
  acked = start;
  size = window_size;
  behind = [];
  active = new_req_bucket (start + seq_step);
  ahead = [];
  closed = false;
}

unfoldable pub len : Window → ℕ
len w = (w.seq - w.acked) / seq_step

unfoldable pub set_size : ℕ → Window → ℕ × Window
set_size size w = (w.size, record w { size = size })

-- testTimeout(t): whether it returns ErrTimeout
unfoldable pub test_timeout : ℕ → RequestMeta → Bool
unfolding is_waiting
test_timeout t m =
    if not m.sent || (m.is_acked || is_waiting m.notifier) then false else ltb m.deadline t

-- The buckets from the active one to the tail.
abbrev pub live : Window → List ReqBucket
live w = w.active ∷ w.ahead

-- Where a chain ends: the sequence of the tail and the sequences of a bucket.
abbrev pub end_of : ℕ → List ReqBucket → ℕ
end_of end [] = end
end_of end (b ∷ bs) = end_of (b.first + span) bs

-- What a search finds: no bucket, a bucket that starts a step or more after the sequence, whose
-- slice then is indexed out of range, or a position in a bucket. The division truncates, so that a
-- sequence less than a step before a bucket has the index 0.
pub data Sought : Type 0 where
  not_there out_of_range : Sought
  at : ℕ → ℕ → Sought

abbrev pub is_beyond : ℕ → ReqBucket → Bool
is_beyond seq b = leb b.first seq && leb span (seq - b.first)

abbrev pub in_bucket : ℕ → ℕ → ReqBucket → Sought
in_bucket seq k b =
    if ltb seq b.first
    then (if ltb (b.first - seq) seq_step then at k 0 else out_of_range)
    else at k ((seq - b.first) / seq_step)

-- seekRLocked(seq, bucket, false) in the chain from that bucket on, whose position is `k`
unfoldable pub seek : ℕ → ℕ → List ReqBucket → Sought
seek seq k [] = not_there
seek seq k (b ∷ bs) =
    let rest = seek seq (k + 1) bs in if is_beyond seq b then rest else in_bucket seq k b

abbrev pub slot_meta : Option (Option RequestMeta) → Option RequestMeta
slot_meta none = none
slot_meta (some m) = m

-- The request at a position
abbrev pub request_of : Option ReqBucket → ℕ → Option RequestMeta
request_of none i = none
request_of (some b) i = slot_meta (get_elem? b.requests i)

abbrev pub request_at : ℕ → ℕ → List ReqBucket → Option RequestMeta
request_at k i bs = request_of (get_elem? bs k) i

pub data WindowError : Type 0 where
  already_acked not_sent not_seen connection_closed index_panic : WindowError

pub data Located : Type 0 where
  lost : WindowError → Located
  located : ℕ → ℕ → RequestMeta → Located

abbrev pub located_meta : ℕ → ℕ → Option RequestMeta → Located
located_meta k i none = lost not_seen
located_meta k i (some m) = if is_waiting m.notifier then lost not_sent else located k i m

abbrev pub located_at : List ReqBucket → Sought → Located
located_at bs not_there = lost not_seen
located_at bs out_of_range = lost index_panic
located_at bs (at k i) = located_meta k i (request_at k i bs)

-- findRequestMetaRLocked(seq)
unfoldable pub find_request_meta : ℕ → Window → Located
unfolding seek
find_request_meta seq w =
    if leb seq w.acked
    then lost already_acked
    else if ltb w.seq seq
    then lost not_sent
    else located_at (live w) (seek seq 0 (live w))

abbrev pub matched : Located → Option WindowError × Option ℕ
matched (lost error) = (some error, none)
matched (located k i m) = (none, m.request)

-- MatchRequest(seq)
unfoldable pub match_request : ℕ → Window → Option WindowError × Option ℕ
unfolding find_request_meta
match_request seq w =
    if w.closed then (some connection_closed, none) else matched (find_request_meta seq w)
