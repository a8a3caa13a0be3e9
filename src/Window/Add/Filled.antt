-- ===== src/Window/Add/Filled.antt =====
-- A bucket that AddRequest of common/redeo/client/wnd.go filled, in its chain.
use lambda_objectstore.Base.{
  ℕ, zero, suc, ◌+◌, ◌<◌, ◌≡◌, refl, sym, ◌∙◌, ap, subst, some, List, [], ◌∷◌, if◌then◌else◌, set,
  get_elem?, length, arith, get_elem?_bounds, get_elem?-set, length-set, ==_refl,
}
use mathlib.Core.Option.{some-injective}
use lambda_objectstore.Window.{
  ReqBucket, RequestMeta, span, bucket_size, seek, at, request_at, slot_meta, request_of, end_of,
}
use lambda_objectstore.Window.Add.{Place, fill, fill_bucket}
use lambda_objectstore.Window.Add.Match.{StartsAt, Follows, IsChain, IsPlace, seek-set}

-- A chain in which a bucket was replaced.
IsChain-set :
    (bs : List ReqBucket) (j : ℕ) (b b' : ReqBucket)
    → get_elem? bs j ≡ some b
    → b'.first ≡ b.first
    → length b'.requests ≡ length b.requests
    → IsChain bs
    → IsChain (set bs j b')
IsChain-set [] j b b' there same whole chain = tt
IsChain-set (c ∷ bs) zero b b' there same whole (own, follows, chain) =
    let is : c ≡ b = some-injective _ _ there in
    (
      whole ∙ subst (λ b. length b.requests ≡ bucket_size) is own,
      still bs follows (same ∙ ap first_of (sym is)),
      chain,
    )
  where
    first_of : ReqBucket → ℕ
    first_of b = b.first

    still : (bs : List ReqBucket) → Follows c bs → b'.first ≡ c.first → Follows b' bs
    still [] follows e = tt
    still (d ∷ ds) follows e = follows ∙ ap (λ f. f + span) (sym e)
IsChain-set (c ∷ bs) (suc j) b b' there same whole (own, follows, chain) =
    (own, still bs j there follows, IsChain-set bs j b b' there same whole chain)
  where
    first_of : ReqBucket → ℕ
    first_of b = b.first

    still :
        (bs : List ReqBucket) (j : ℕ)
        → get_elem? bs j ≡ some b
        → Follows c bs
        → Follows c (set bs j b')
    still [] j there follows = tt
    still (d ∷ ds) zero there follows =
        same ∙ sym (ap first_of (some-injective _ _ there)) ∙ follows
    still (d ∷ ds) (suc j) there follows = follows

end_of-set :
    (end : ℕ) (bs : List ReqBucket) (j : ℕ) (b b' : ReqBucket)
    → get_elem? bs j ≡ some b
    → b'.first ≡ b.first
    → end_of end (set bs j b') ≡ end_of end bs
end_of-set end [] j b b' there same = refl
end_of-set end (c ∷ bs) zero b b' there same =
    ap (λ f. end_of (f + span) bs) (same ∙ sym (ap first_of (some-injective _ _ there)))
  where
    first_of : ReqBucket → ℕ
    first_of b = b.first
end_of-set end (c ∷ bs) (suc j) b b' there same = end_of-set (c.first + span) bs j b b' there same

StartsAt-set :
    (first : ℕ) (bs : List ReqBucket) (j : ℕ) (b b' : ReqBucket)
    → get_elem? bs j ≡ some b
    → b'.first ≡ b.first
    → StartsAt first bs
    → StartsAt first (set bs j b')
StartsAt-set first [] j b b' there same starts = starts
StartsAt-set first (c ∷ bs) zero b b' there same starts =
    same ∙ sym (ap first_of (some-injective _ _ there)) ∙ starts
  where
    first_of : ReqBucket → ℕ
    first_of b = b.first
StartsAt-set first (c ∷ bs) (suc j) b b' there same starts = starts

-- What filling a place leaves.
pub fill-IsPlace :
    (seq first : ℕ) (p : Place) (m : RequestMeta)
    → IsPlace seq first p
    → StartsAt first (fill p m)
      × IsChain (fill p m)
      × (seq < end_of 0 (fill p m))
      × (seek seq 0 (fill p m) ≡ at p.bucket p.index)
      × (request_at p.bucket p.index (fill p m) ≡ some m)
unfolding fill
fill-IsPlace seq first p m (starts, chain, inside, found, (b, there, room)) =
    let b' : ReqBucket = record b {
      requests = set b.requests p.index (some m);
      filled = b.filled + 1;
    } in
    let filled : fill_bucket (get_elem? p.chain p.bucket) p.index m p.bucket p.chain
        ≡ set p.chain p.bucket b' =
      ap (λ slot. fill_bucket slot p.index m p.bucket p.chain) there in
    rw filled (
      StartsAt-set first p.chain p.bucket b b' there refl starts,
      IsChain-set p.chain p.bucket b b' there refl (length-set b.requests p.index (some m)) chain,
      subst (λ e. seq < e) (sym (end_of-set 0 p.chain p.bucket b b' there refl)) inside,
      seek-set seq 0 p.bucket p.chain b b' there refl
          ∙ found 0
          ∙ ap (λ n. at n p.index) (zero_plus p.bucket),
      ap (λ slot. request_of slot p.index)
            (read p.chain p.bucket b' (get_elem?_bounds p.chain p.bucket there))
          ∙ ap slot_meta (read b.requests p.index (some m) room),
    )
  where
    zero_plus : (n : ℕ) → 0 + n ≡ n
    zero_plus n = omega arith

    read :
        {A : Type 0}
        → (xs : List A) (i : ℕ) (v : A) → i < length xs
        → get_elem? (set xs i v) i ≡ some v
    read xs i v inside =
        get_elem?-set xs i i v inside ∙ ap (λ t. if t then some v else get_elem? xs i) (==_refl i)
