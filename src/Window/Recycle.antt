-- ===== src/Window/Recycle.antt =====
-- How the buckets of common/redeo/client/wnd.go are used again: Reset, gc and Close. A bucket that
-- is reset tells which requests it answered with ErrConnectionClosed.
use lambda_objectstore.Base.{
  ℕ, ◌+◌, true, not, ◌&&◌, Option, none, some, List, [], ◌∷◌, ◌++◌, ltb, leb, if◌then◌else◌,
}
use lambda_objectstore.Window.{RequestMeta, Requests, ReqBucket, Window, seq_step, live, end_of}
pub mod Collect

abbrev pub answered : Option RequestMeta → List ℕ
answered none = []
answered (some m) = if m.sent && not m.is_acked then m.meta_seq ∷ [] else []

unfoldable pub answer_all : Requests → List ℕ
answer_all [] = []
answer_all (m ∷ ms) = answered m ++ answer_all ms

unfoldable pub clear_all : Requests → Requests
clear_all [] = []
clear_all (m ∷ ms) = none ∷ clear_all ms

unfoldable pub reset_bucket : ReqBucket → List ℕ × ReqBucket
unfolding answer_all clear_all
reset_bucket b =
    let clears = ltb b.acks b.filled in
    (
      if clears then answer_all b.requests else [],
      record b {
        requests = if clears then clear_all b.requests else b.requests;
        acks = 0;
        filled = 0;
      },
    )

-- recycleTopLocked, of a bucket that was reset: it goes behind the tail of the chain.
unfoldable pub recycle_top : ReqBucket → List ReqBucket → List ReqBucket
recycle_top b chain = chain ++ (record b { first = end_of 0 chain } ∷ [])

-- The buckets before the tail are reset and recycled, from the top on, in turn.
unfoldable pub recycle_all : List ReqBucket → List ReqBucket → List ℕ × List ReqBucket
unfolding reset_bucket recycle_top
recycle_all [] chain = ([], chain)
recycle_all (b ∷ bs) chain =
    let r = reset_bucket b in
    let rest = recycle_all bs (recycle_top r.1 chain) in (r.0 ++ rest.0, rest.1)

abbrev pub before_tail : ReqBucket → List ReqBucket → List ReqBucket
before_tail b [] = []
before_tail b (c ∷ bs) = b ∷ before_tail c bs

abbrev pub tail_of : ReqBucket → List ReqBucket → ReqBucket
tail_of b [] = b
tail_of b (c ∷ bs) = tail_of c bs

-- Reset()
unfoldable pub reset : Window → List ℕ × Window
unfolding recycle_all
reset w =
    let tail = tail_of w.active w.ahead in
    let drained = recycle_all (w.behind ++ before_tail w.active w.ahead) (tail ∷ []) in
    let r = reset_bucket tail in
    (
      drained.0 ++ r.0,
      record w { behind = []; active = r.1; ahead = tail_chain drained.1; acked = w.seq },
    )
  where
    tail_chain : List ReqBucket → List ReqBucket
    tail_chain [] = []
    tail_chain (b ∷ bs) = bs

-- The end of gc: the active bucket moves on to the one with the first sequence not acknowledged.
unfoldable pub move_active : ℕ → List ReqBucket → ReqBucket → List ReqBucket → Window → Window
move_active acked behind active [] w = record w { behind = behind; active = active; ahead = [] }
move_active acked behind active (c ∷ cs) w =
    let next = move_active acked (behind ++ (active ∷ [])) c cs w in
    if leb c.first (acked + seq_step)
    then next
    else record w { behind = behind; active = active; ahead = c ∷ cs }

abbrev pub moved_from : ℕ → List ReqBucket → Window → Window
moved_from acked [] w = w
moved_from acked (b ∷ bs) w = move_active acked [] b bs w

-- gc(acked), when no other call refers to the buckets
unfoldable pub gc : ℕ → Window → List ℕ × Window
unfolding recycle_all move_active
gc acked w =
    if w.closed
    then ([], w)
    else let recycled = recycle_all w.behind (live w) in (recycled.0, moved_from acked recycled.1 w)

unfoldable pub reset_each : List ReqBucket → List ℕ
unfolding reset_bucket
reset_each [] = []
reset_each (b ∷ bs) = (reset_bucket b).0 ++ reset_each bs

-- Close(), which drops the buckets; what they hold is not read any more.
unfoldable pub close : Window → List ℕ × Window
unfolding reset_each
close w =
    if w.closed then ([], w) else (reset_each (w.behind ++ live w), record w { closed = true })
