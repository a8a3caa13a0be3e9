-- ===== src/Window/Add.antt =====
-- AddRequest of common/redeo/client/wnd.go.
use lambda_objectstore.Base.{
  ℕ, zero, suc, ◌+◌, ◌-◌, ◌*◌, ◌/◌, Bool, false, Option, none, some, List, [], ◌∷◌, ltb,
  if◌then◌else◌, set, get_elem?,
}
use lambda_objectstore.Base.Int.{pos}
use lambda_objectstore.WaitGroup.{new_wait_group, add}
use lambda_objectstore.Window.{
  ReqBucket, RequestMeta, Window, span, seq_step, new_req_bucket, is_beyond,
}
pub mod Match
pub mod Filled
pub mod Found

abbrev pub fresh_meta : RequestMeta
fresh_meta = record {
  request = none;
  meta_seq = 0;
  sent = false;
  is_acked = false;
  deadline = 0;
  notifier = new_wait_group;
}

-- A position, with the chain that it is in.
pub record Place : Type 0 where
  pub bucket : ℕ
  pub index : ℕ
  pub chain : List ReqBucket

abbrev pub further : ReqBucket → Option Place → Option Place
further b none = none
further b (some p) = some (record p { bucket = suc p.bucket; chain = b ∷ p.chain })

abbrev pub here : ℕ → ReqBucket → List ReqBucket → Place
here seq b bs = record { bucket = 0; index = (seq - b.first) / seq_step; chain = b ∷ bs }

-- seekRLocked(seq, bucket, true) at the tail, where buckets are added, at most the given number
unfoldable pub extend : ℕ → ℕ → ReqBucket → Option Place
unfolding new_req_bucket
extend zero seq b = if is_beyond seq b then none else some (here seq b [])
extend (suc rounds) seq b =
    let rest = extend rounds seq (new_req_bucket (b.first + span)) in
    if is_beyond seq b then further b rest else some (here seq b [])

-- seekRLocked(seq, bucket, true), from a bucket that starts before the sequence
unfoldable pub seek_for_set : ℕ → ReqBucket → List ReqBucket → Option Place
unfolding extend
seek_for_set seq b [] = extend 1 seq b
seek_for_set seq b (c ∷ bs) =
    let rest = seek_for_set seq c bs in
    if is_beyond seq b then further b rest else some (here seq b (c ∷ bs))

abbrev pub fill_bucket : Option ReqBucket → ℕ → RequestMeta → ℕ → List ReqBucket → List ReqBucket
fill_bucket none i m k bs = bs
fill_bucket (some b) i m k bs =
    set bs k (record b { requests = set b.requests i (some m); filled = b.filled + 1 })

unfoldable pub fill : Place → RequestMeta → List ReqBucket
fill p m = fill_bucket (get_elem? p.chain p.bucket) p.index m p.bucket p.chain

-- `spinning`: the loop waits until the active bucket is updated. `no_bucket` does not happen.
pub data Added : Type 0 where
  refused : Added
  spinning : Added
  no_bucket : Added
  added : RequestMeta → Bool → Window → Added

abbrev pub with_live : List ReqBucket → Window → Window
with_live [] w = w
with_live (b ∷ bs) w = record w { active = b; ahead = bs }

-- Whether a request waits for the window to advance.
abbrev pub must_wait : ℕ → Window → Bool
must_wait seq w = ltb (w.size * seq_step) (seq - w.acked)

abbrev pub notified : Bool → RequestMeta → RequestMeta
notified waits m = if waits then record m { notifier = add (pos 1) m.notifier } else m

-- The deadline is `now` and the default timeout, which are counted in the same unit.
abbrev pub meta_of : RequestMeta → ℕ → ℕ → ℕ → RequestMeta
meta_of pooled request deadline seq = record pooled {
  request = some request;
  is_acked = false;
  deadline = deadline;
  meta_seq = seq;
}

abbrev pub placed : RequestMeta → ℕ → Window → Option Place → Added
placed m seq w none = no_bucket
placed m seq w (some p) =
    let waits = must_wait seq w in
    let m' = notified waits m in added m' waits (with_live (fill p m') (record w { seq = seq }))

-- AddRequest(req), until it waits, with the meta that the pool gives
unfoldable pub add_request : RequestMeta → ℕ → ℕ → Window → Added
unfolding seek_for_set fill
add_request pooled request deadline w =
    if w.closed
    then refused
    else let seq = w.seq + seq_step in
      if ltb seq w.active.first
      then spinning
      else placed (meta_of pooled request deadline seq) seq w (seek_for_set seq w.active w.ahead)
