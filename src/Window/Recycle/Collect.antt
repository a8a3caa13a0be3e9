-- ===== src/Window/Recycle/Collect.antt =====
-- The chain of common/redeo/client/wnd.go after a garbage collection.
use lambda_objectstore.Base.{
  ℕ, suc, ◌+◌, ◌<◌, ◌≤◌, ◌≡◌, refl, sym, ◌∙◌, ap, subst, false, List, [], ◌∷◌, ◌++◌, ltb, leb,
  if_cases, length, arith, All,
}
use lambda_objectstore.Window.{Requests, ReqBucket, Window, seq_step, span, end_of, bucket_size}
use lambda_objectstore.Window.Add.Match.{IsChain}
use lambda_objectstore.Window.Add.Found.{IsOpen}
use lambda_objectstore.Window.Recycle.{
  clear_all, reset_bucket, recycle_top, recycle_all, move_active, moved_from, gc,
}

length-clear_all : (ms : Requests) → length (clear_all ms) ≡ length ms
unfolding clear_all
length-clear_all [] = refl
length-clear_all (m ∷ ms) = ap suc (length-clear_all ms)

reset_bucket_lem : (b : ReqBucket) → length (reset_bucket b).1.requests ≡ length b.requests
unfolding reset_bucket
reset_bucket_lem b =
    if_cases (λ (ms : Requests). length ms ≡ length b.requests) (ltb b.acks b.filled)
      (λ _. length-clear_all b.requests) (λ _. refl)

-- A chain with a bucket more, which starts where the chain ends.
IsChain-append :
    (bs : List ReqBucket) (b c : ReqBucket)
    → IsChain (b ∷ bs)
    → length c.requests ≡ bucket_size
    → c.first ≡ end_of (b.first + span) bs
    → IsChain (b ∷ (bs ++ (c ∷ [])))
IsChain-append [] b c (own, _, _) whole starts = (own, starts, (whole, tt, tt))
IsChain-append (d ∷ ds) b c (own, follows, chain) whole starts =
    (own, follows, IsChain-append ds d c chain whole starts)

end_of-append :
    (bs : List ReqBucket) (end : ℕ) (c : ReqBucket) → end_of end (bs ++ (c ∷ [])) ≡ c.first + span
end_of-append [] end c = refl
end_of-append (d ∷ ds) end c = end_of-append ds (d.first + span) c

-- A chain that starts with `b` and reaches beyond `seq`.
abbrev IsLong : ℕ → ReqBucket → List ReqBucket → Type 0
IsLong seq b chain =
    (bs : List ReqBucket) × (chain ≡ b ∷ bs) × IsChain (b ∷ bs) × (seq < end_of (b.first + span) bs)

recycle_all-IsLong :
    (seq : ℕ) (front : List ReqBucket) (b : ReqBucket) (bs : List ReqBucket)
    → (All (λ (c : ReqBucket). length c.requests ≡ bucket_size) front)
    → IsChain (b ∷ bs)
    → seq < end_of (b.first + span) bs
    → IsLong seq b (recycle_all front (b ∷ bs)).1
unfolding recycle_all recycle_top
recycle_all-IsLong seq [] b bs whole chain inside = (bs, refl, chain, inside)
recycle_all-IsLong seq (c ∷ cs) b bs (own, whole) chain inside =
    let moved : ReqBucket = record (reset_bucket c).1 { first = end_of (b.first + span) bs } in
    recycle_all-IsLong seq cs b (bs ++ (moved ∷ [])) whole
      (IsChain-append bs b moved chain (reset_bucket_lem c ∙ own) refl)
      (subst (λ e. seq < e) (sym (end_of-append bs (b.first + span) moved)) (omega arith))

-- The active bucket moves within the chain.
move_active-IsOpen :
    (acked : ℕ) (behind : List ReqBucket) (b : ReqBucket) (bs : List ReqBucket) (w : Window)
    → w.closed ≡ false
    → w.acked ≤ w.seq
    → acked ≤ w.seq
    → b.first ≤ w.seq + seq_step
    → IsChain (b ∷ bs)
    → w.seq < end_of (b.first + span) bs
    → IsOpen (move_active acked behind b bs w)
unfolding move_active
move_active-IsOpen acked behind b [] w opened within seen early chain inside =
    (opened, within, early, chain, inside)
move_active-IsOpen acked behind b (c ∷ cs) w opened within seen early chain inside =
    if_cases IsOpen (leb c.first (acked + seq_step))
      (λ e.
        move_active-IsOpen acked (behind ++ (b ∷ [])) c cs w opened within seen (ground arith)
          chain.2 inside)
      (λ _. (opened, within, early, chain, inside))

-- The garbage collection leaves an open window open, whose buckets before the active one have the
-- right size: the buckets that are used again go on from the tail, and the active one starts no
-- later than the next sequence.
pub gc-IsOpen :
    (acked : ℕ) (w : Window)
    → IsOpen w
    → acked ≤ w.seq
    → All (λ (b : ReqBucket). length b.requests ≡ bucket_size) w.behind
    → IsOpen (gc acked w).1
unfolding gc
gc-IsOpen acked w opened seen whole =
    if_cases (λ (r : List ℕ × Window). IsOpen r.1) w.closed (λ _. opened)
      (λ _.
        let (bs, made, chain, inside) =
          recycle_all-IsLong w.seq w.behind w.active w.ahead whole opened.3 opened.4 in
        subst (λ bs. IsOpen (moved_from acked bs w)) (sym made)
          (move_active-IsOpen acked [] w.active bs w opened.0 opened.1 seen opened.2 chain inside))
