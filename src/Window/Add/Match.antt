-- ===== src/Window/Add/Match.antt =====
-- The place that AddRequest of common/redeo/client/wnd.go finds, which later searches find again.
use lambda_objectstore.Base.{
  ℕ, zero, suc, ◌+◌, ◌-◌, ◌/◌, ◌<◌, ◌≤◌, ◌≡◌, inl, inr, refl, sym, ◌∙◌, ap, subst, true, false,
  ◌&&◌, some, List, [], ◌∷◌, ltb, leb, if◌then◌else◌, Bool-cases, set, get_elem?, length, arith,
}
use mathlib.Core.Option.{some-injective}
use native.Mathlib.Nat.{div-lt_iff_lt-mul}
use lambda_objectstore.Window.{
  ReqBucket, span, seq_step, bucket_size, new_req_bucket, is_beyond, seek, Sought, out_of_range, at,
  in_bucket, end_of,
}
use lambda_objectstore.Window.Add.{Place, here, extend, seek_for_set}

-- The first bucket of a chain starts there.
abbrev pub StartsAt : ℕ → List ReqBucket → Type 0
StartsAt first [] = ⊥
StartsAt first (b ∷ bs) = b.first ≡ first

abbrev pub Follows : ReqBucket → List ReqBucket → Type 0
Follows b [] = Unit
Follows b (c ∷ bs) = c.first ≡ b.first + span

-- Buckets of the right size, each of which starts where the one before ends.
abbrev pub IsChain : List ReqBucket → Type 0
IsChain [] = Unit
IsChain (b ∷ bs) = (length b.requests ≡ bucket_size) × Follows b bs × IsChain bs

end_of_later :
    (b : ReqBucket) (bs : List ReqBucket)
    → IsChain (b ∷ bs)
    → b.first + span ≤ end_of (b.first + span) bs
end_of_later b [] chain = omega arith
end_of_later b (c ∷ bs) (_, follows, chain) = omega (arith, end_of_later c bs chain)

-- A place where searches for the sequence end.
abbrev pub IsPlace : ℕ → ℕ → Place → Type 0
IsPlace seq first p =
    StartsAt first p.chain
    × IsChain p.chain
    × (seq < end_of 0 p.chain)
    × ((k : ℕ) → seek seq k p.chain ≡ at (k + p.bucket) p.index)
    × ((b : ReqBucket) × (get_elem? p.chain p.bucket ≡ some b) × (p.index < length b.requests))

here-IsPlace :
    (seq : ℕ) (b : ReqBucket) (bs : List ReqBucket)
    → IsChain (b ∷ bs)
    → b.first ≤ seq
    → is_beyond seq b ≡ false
    → IsPlace seq b.first (here seq b bs)
unfolding seek
here-IsPlace seq b bs chain before near =
    let close : seq - b.first < span = ground arith in
    let started : ltb seq b.first ≡ false = ground arith in
    let inside : (seq - b.first) / seq_step < bucket_size =
      (div-lt_iff_lt-mul (omega arith)).1 close in
    (
      refl,
      chain,
      omega (arith, end_of_later b bs chain),
      (λ k. rw (near, started) (ap (λ n. at n ((seq - b.first) / seq_step)) (plus_zero k))),
      (b, refl, subst (λ n. (seq - b.first) / seq_step < n) (sym chain.0) inside),
    )
  where
    plus_zero : (k : ℕ) → k ≡ k + 0
    plus_zero k = omega arith

further-IsPlace :
    (seq : ℕ) (b : ReqBucket) (p : Place)
    → length b.requests ≡ bucket_size
    → is_beyond seq b ≡ true
    → IsPlace seq (b.first + span) p
    → IsPlace seq b.first (record p { bucket = suc p.bucket; chain = b ∷ p.chain })
unfolding seek
further-IsPlace seq b p whole beyond (starts, chain, inside, found, (c, there, room)) = (
  refl,
  (whole, follows p.chain starts, chain),
  ends p.chain starts inside,
  (λ k. rw beyond (found (k + 1) ∙ ap (λ n. at n p.index) (shift k p.bucket))),
  (c, there, room),
)
  where
    follows : (bs : List ReqBucket) → StartsAt (b.first + span) bs → Follows b bs
    follows [] starts = tt
    follows (c ∷ bs) starts = starts

    ends :
        (bs : List ReqBucket)
        → StartsAt (b.first + span) bs
        → seq < end_of 0 bs
        → seq < end_of (b.first + span) bs
    ends [] starts inside = absurd starts
    ends (c ∷ bs) starts inside = inside

    shift : (k n : ℕ) → k + 1 + n ≡ k + suc n
    shift k n = omega arith

-- A search that may add buckets ends, at a place in the chain, for a sequence that starts at most a
-- bucket behind its end.
pub seek_for_set-IsPlace :
    (seq : ℕ) (b : ReqBucket) (bs : List ReqBucket)
    → IsChain (b ∷ bs)
    → b.first ≤ seq
    → seq < end_of (b.first + span) bs + span
    → (p : Place) × (seek_for_set seq b bs ≡ some p) × IsPlace seq b.first p
unfolding seek_for_set extend new_req_bucket
seek_for_set-IsPlace seq b [] chain before near = elim (Bool-cases (is_beyond seq b)) [
  | inr e ↦ rw e (here seq b [], refl, here-IsPlace seq b [] chain before e)
  | inl e ↦
      let next = new_req_bucket (b.first + span) in
      let far : is_beyond seq next ≡ false = ground arith in
      rw (e, far)
        (
          _,
          refl,
          further-IsPlace seq b (here seq next []) chain.0 e
              (here-IsPlace seq next [] (refl, tt, tt) (ground arith) far),
        )
]
seek_for_set-IsPlace seq b (c ∷ bs) chain before near = elim (Bool-cases (is_beyond seq b)) [
  | inr e ↦ rw e (here seq b (c ∷ bs), refl, here-IsPlace seq b (c ∷ bs) chain before e)
  | inl e ↦
      let (p, found, place) = seek_for_set-IsPlace seq c bs chain.2 (ground arith) near in
      rw (e, found)
        (_, refl, further-IsPlace seq b p chain.0 e (subst (λ f. IsPlace seq f p) chain.1 place))
]

-- A search reads only where the buckets start.
pub seek-set :
    (seq k j : ℕ) (bs : List ReqBucket) (b b' : ReqBucket)
    → get_elem? bs j ≡ some b
    → b'.first ≡ b.first
    → seek seq k (set bs j b') ≡ seek seq k bs
unfolding seek
seek-set seq k j [] b b' there same = refl
seek-set seq k zero (c ∷ bs) b b' there same =
    ap
      (λ f.
        if (leb f seq && leb span (seq - f))
        then seek seq (k + 1) bs
        else (if ltb seq f
            then (if ltb (f - seq) seq_step then at k 0 else out_of_range)
            else at k ((seq - f) / seq_step)))
      (same ∙ sym (ap first_of (some-injective _ _ there)))
  where
    first_of : ReqBucket → ℕ
    first_of b = b.first
seek-set seq k (suc j) (c ∷ bs) b b' there same =
    ap (λ (r : Sought). if is_beyond seq c then r else in_bucket seq k c)
      (seek-set seq (k + 1) j bs b b' there same)
