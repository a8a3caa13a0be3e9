-- ===== src/Window/Ack/Ranges.antt =====
-- That AckRequest of common/redeo/client/wnd.go stays within the buckets of a chain.
use lambda_objectstore.Base.{
  ℕ, zero, suc, ◌+◌, ◌-◌, ◌<◌, ◌≤◌, ◌≡◌, refl, sym, ◌∙◌, ap, subst, true, Option, none, some, List,
  [], ◌∷◌, ltb, if_cases, get_elem?, set, drop, arith, get_elem?-drop,
}
use mathlib.Core.Option.{some-injective, none-ne-some}
use lambda_objectstore.Window.{
  ReqBucket, RequestMeta, Window, seq_step, span, live, seek, is_beyond, Sought, not_there,
  out_of_range, at,
}
use lambda_objectstore.Window.Add.{with_live}
use lambda_objectstore.Window.Ack.{change_slot, change_at}
use lambda_objectstore.Window.Ack.Rounds.{live_set}

abbrev pub firsts : List ReqBucket → List ℕ
firsts [] = []
firsts (b ∷ bs) = b.first ∷ firsts bs

-- Each bucket starts where the one before ends.
abbrev pub IsLadder : List ℕ → Type 0
IsLadder [] = Unit
IsLadder (f ∷ []) = Unit
IsLadder (f ∷ g ∷ fs) = (g ≡ f + span) × IsLadder (g ∷ fs)

IsLadder-tail : (f : ℕ) (fs : List ℕ) → IsLadder (f ∷ fs) → IsLadder fs
IsLadder-tail f [] h = tt
IsLadder-tail f (g ∷ fs) h = h.1

IsLadder-drop : (n : ℕ) (fs : List ℕ) → IsLadder fs → IsLadder (drop n fs)
IsLadder-drop zero fs h = h
IsLadder-drop (suc n) [] h = h
IsLadder-drop (suc n) (f ∷ fs) h = IsLadder-drop n fs (IsLadder-tail f fs h)

firsts-drop : (n : ℕ) (bs : List ReqBucket) → firsts (drop n bs) ≡ drop n (firsts bs)
firsts-drop zero bs = refl
firsts-drop (suc n) [] = refl
firsts-drop (suc n) (b ∷ bs) = firsts-drop n bs

firsts-set :
    (bs : List ReqBucket) (k : ℕ) (b b' : ReqBucket)
    → get_elem? bs k ≡ some b
    → b'.first ≡ b.first
    → firsts (set bs k b') ≡ firsts bs
firsts-set [] k b b' there same = refl
firsts-set (c ∷ bs) zero b b' there same =
    ap (λ f. f ∷ firsts bs) (same ∙ sym (ap first_of (some-injective _ _ there)))
  where
    first_of : ReqBucket → ℕ
    first_of b = b.first
firsts-set (c ∷ bs) (suc k) b b' there same =
    ap (λ fs. c.first ∷ fs) (firsts-set bs k b b' there same)

pub firsts-change_at :
    (k i : ℕ) (x : Option RequestMeta) (more : ℕ) (w : Window)
    → firsts (live (change_at k i x more w)) ≡ firsts (live w)
firsts-change_at k i x more w = from (get_elem? (live w) k) refl
  where
    from :
        (o : Option ReqBucket)
        → get_elem? (live w) k ≡ o
        → firsts (live (with_live (change_slot o i x more k (live w)) w)) ≡ firsts (live w)
    from none e = refl
    from (some b) e =
        ap firsts (live_set w k (record b { requests = set b.requests i x; acks = b.acks + more }))
        ∙ firsts-set (live w) k b (record b { requests = set b.requests i x; acks = b.acks + more })
            e refl

-- The bucket at a position starts less than a step behind the sequence.
abbrev pub Holds : ℕ → ℕ → List ℕ → Type 0
Holds s p fs = (f : ℕ) × (get_elem? fs p ≡ some f) × (f < s + seq_step)

pub Holds-later : (s s' p : ℕ) (fs : List ℕ) → s ≤ s' → Holds s p fs → Holds s' p fs
Holds-later s s' p fs h (f, there, near) = (f, there, omega arith)

-- What a search finds from the position `k` on.
abbrev Finds : ℕ → ℕ → List ℕ → Sought → Type 0
Finds s k fs not_there = Unit
Finds s k fs out_of_range = ⊥
Finds s k fs (at p i) = (j : ℕ) × (p ≡ k + j) × Holds s j fs

seek-Finds :
    (s k : ℕ) (bs : List ReqBucket)
    → IsLadder (firsts bs)
    → ((b : ReqBucket) → get_elem? bs 0 ≡ some b → b.first < s + seq_step)
    → Finds s k (firsts bs) (seek s k bs)
unfolding seek
seek-Finds s k [] ladder near = tt
seek-Finds s k (b ∷ bs) ladder near =
    if_cases (Finds s k (b.first ∷ firsts bs)) (is_beyond s b)
      (λ e.
        shift (seek s (k + 1) bs)
          (seek-Finds s (k + 1) bs (IsLadder-tail b.first (firsts bs) ladder) (later e bs ladder)))
      (λ _.
        if_cases (Finds s k (b.first ∷ firsts bs)) (ltb s b.first)
          (λ e.
            if_cases (Finds s k (b.first ∷ firsts bs)) (ltb (b.first - s) seq_step) (λ _. here)
              (λ f. let close = near b refl in ground arith))
          (λ _. here))
  where
    here : (j : ℕ) × (k ≡ k + j) × Holds s j (b.first ∷ firsts bs)
    here = (0, omega arith, (b.first, refl, near b refl))

    shift : (r : Sought) → Finds s (k + 1) (firsts bs) r → Finds s k (b.first ∷ firsts bs) r
    shift not_there h = tt
    shift out_of_range h = h
    shift (at p i) (j, is, found) = (suc j, omega arith, found)

    later :
        is_beyond s b ≡ true
        → (bs : List ReqBucket) → IsLadder (b.first ∷ firsts bs)
        → (c : ReqBucket) → get_elem? bs 0 ≡ some c
        → c.first < s + seq_step
    later e [] h c there = absurd (none-ne-some c there)
    later e (d ∷ ds) h c there =
        let is : d.first ≡ c.first = ap first_of (some-injective _ _ there) in
        let next = h.0 in ground arith
      where
        first_of : ReqBucket → ℕ
        first_of b = b.first

-- A search from a bucket of the chain.
abbrev pub Reaches : ℕ → List ℕ → Sought → Type 0
Reaches s fs not_there = Unit
Reaches s fs out_of_range = ⊥
Reaches s fs (at p i) = Holds s p fs

pub seek-Reaches :
    (s n : ℕ) (bs : List ReqBucket)
    → IsLadder (firsts bs)
    → Holds s n (firsts bs)
    → Reaches s (firsts bs) (seek s n (drop n bs))
seek-Reaches s n bs ladder (f, there, near) = from (seek s n (drop n bs)) (
    seek-Finds s n (drop n bs)
      (subst IsLadder (sym (firsts-drop n bs)) (IsLadder-drop n (firsts bs) ladder))
      (λ b at_start. head n bs there b at_start))
  where
    head :
        (n : ℕ) (bs : List ReqBucket)
        → get_elem? (firsts bs) n ≡ some f
        → (b : ReqBucket) → get_elem? (drop n bs) 0 ≡ some b
        → b.first < s + seq_step
    head zero [] h b g = absurd (none-ne-some b g)
    head zero (c ∷ cs) h b g =
        let is : c.first ≡ f = some-injective _ _ h in
        let same : c.first ≡ b.first = ap first_of (some-injective _ _ g) in omega arith
      where
        first_of : ReqBucket → ℕ
        first_of b = b.first
    head (suc n) [] h b g = absurd (none-ne-some b g)
    head (suc n) (c ∷ cs) h b g = head n cs h b g

    from : (r : Sought) → Finds s n (firsts (drop n bs)) r → Reaches s (firsts bs) r
    from not_there h = tt
    from out_of_range h = h
    from (at p i) (j, is, (g, found, close)) = (
      g,
      ap (get_elem? (firsts bs)) is
          ∙ sym (get_elem?-drop n j (firsts bs))
          ∙ sym (ap (λ fs. get_elem? fs j) (firsts-drop n bs))
          ∙ found,
      close,
    )
