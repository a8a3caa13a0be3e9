-- ===== src/Links/Queue.antt =====
-- AvailableLinks of proxy/lambdastore/link_manager.go is a queue: links are taken in the order in
-- which they were added.
use lambda_objectstore.Base.{
  ℕ, suc, ◌≡◌, ◌⊎◌, inl, inr, refl, sym, ap, ◌∙◌, Bool, true, false, some, List, [], ◌∷◌, ◌++◌,
  length, ltb, All, All-append, Bool-cases,
}
use lambda_objectstore.Base.Int.{ℤ, pos, ◌+ℤ◌}
use lambda_objectstore.Links.{
  LinkBucket, link_bucket_size, AvailableLinks, move_bottom, next_bottom_locked, add_loop,
  is_limited, added, add_available, recycle_top_locked, recycle_top_bucket, receive_top, Found,
  no_round, waiting, found, find_loop,
}
use mathlib.Core.List.{append_assoc, append-nil}

abbrev pub concat {ℓ} : {A : Type ℓ} → List (List A) → List A
concat [] = []
concat (b ∷ bs) = b ++ concat bs

-- The links that wait, in the order in which they will be taken.
abbrev pub contents : AvailableLinks → List ℕ
contents l = concat l.front ++ l.bottom

abbrev pub IsDrained : LinkBucket → Type 0
IsDrained b = b ≡ []

-- The buckets after the bottom are empty.
abbrev pub IsChain : AvailableLinks → Type 0
IsChain l = All IsDrained l.spare

concat-append {ℓ} :
    {A : Type ℓ} (bs cs : List (List A)) → concat (bs ++ cs) ≡ concat bs ++ concat cs
concat-append [] cs = refl
concat-append (b ∷ bs) cs = rw (concat-append bs cs) (sym (append_assoc b (concat bs) (concat cs)))

concat_last : (bs : List LinkBucket) (b : LinkBucket) → concat (bs ++ (b ∷ [])) ≡ concat bs ++ b
concat_last bs b = concat-append bs (b ∷ []) ∙ ap (◌++◌ (concat bs)) (append-nil b)

-- The bottom moves to an empty bucket, and no link is lost.
abbrev Moved : AvailableLinks → AvailableLinks → Type 0
Moved l m = (m.bottom ≡ []) × (contents m ≡ contents l) × IsChain m × (m.total ≡ l.total)

move_bottom-Moved :
    (spare : List LinkBucket) (l : AvailableLinks)
    → All IsDrained spare
    → Moved l (move_bottom spare l)
unfolding move_bottom
move_bottom-Moved [] l chain = (refl, append-nil _ ∙ concat_last l.front l.bottom, tt, refl)
move_bottom-Moved (b ∷ bs) l (drained, chain) = (
  drained,
  ap (◌++◌ (concat (l.front ++ (l.bottom ∷ [])))) drained
      ∙ append-nil _
      ∙ concat_last l.front l.bottom,
  chain,
  refl,
)

-- What an addition does: the link stands behind all others, and is counted.
abbrev pub IsAdded : ℕ → AvailableLinks → AvailableLinks → Type 0
IsAdded link l m =
    (contents m ≡ contents l ++ (link ∷ [])) × (m.total ≡ l.total +ℤ pos 1) × IsChain m

pushed-Added :
    (link : ℕ) (l m : AvailableLinks)
    → contents m ≡ contents l
    → m.total ≡ l.total
    → IsChain m
    → IsAdded link l (record m { bottom = m.bottom ++ (link ∷ []); total = m.total +ℤ pos 1 })
pushed-Added link l m same total chain = (
  sym (append_assoc (concat m.front) m.bottom (link ∷ [])) ∙ ap (λ xs. xs ++ (link ∷ [])) same,
  ap (λ n. n +ℤ pos 1) total,
  chain,
)

add_loop-Added :
    (link : ℕ) (l : AvailableLinks)
    → IsChain l
    → (m : AvailableLinks) × (add_loop 2 link l ≡ some m) × IsAdded link l m
unfolding add_loop next_bottom_locked
add_loop-Added link l chain = elim (Bool-cases (ltb (length l.bottom) link_bucket_size)) [
  | inl e ↦ rw e (_, refl, pushed-Added link l l refl refl chain)
  | inr e ↦
      let (empty, same, chain, total) = move_bottom-Moved l.spare l chain in
      let room : ltb (length (move_bottom l.spare l).bottom) link_bucket_size ≡ true =
        rw empty refl in
      rw (e, room) (_, refl, pushed-Added link l (move_bottom l.spare l) same total chain)
]

-- Adding a link ends within two rounds. Where the number of links is limited and reached, it is
-- refused and nothing changes; otherwise it stands behind all links that wait, and is counted.
pub add_available_queues :
    (nolimit : Bool) (link : ℕ) (l : AvailableLinks)
    → IsChain l
    → ((is_limited nolimit l ≡ true) × (add_available nolimit link l ≡ some (false, l)))
      ⊎ ((is_limited nolimit l ≡ false)
          × ((m : AvailableLinks) × (add_available nolimit link l ≡ some (true, m))
              × IsAdded link l m))
unfolding add_available
add_available_queues nolimit link l chain = elim (Bool-cases (is_limited nolimit l)) [
  | inl e ↦ inl (e, rw e refl)
  | inr e ↦
      let (m, made, added) = add_loop-Added link l chain in inr (e, (m, rw (e, made) refl, added))
]

-- Looking for a link gives the one that waits longest, or waits where there is none.
abbrev pub Takes : AvailableLinks → Found → Type 0
Takes l no_round = ⊥
Takes l (waiting m) =
    (contents l ≡ []) × IsChain m × (m.total ≡ l.total) × (m.front ≡ []) × (m.bottom ≡ [])
Takes l (found link m) = (contents l ≡ link ∷ contents m) × IsChain m × (m.total ≡ l.total)

transfer_lem :
    (l m : AvailableLinks) (f : Found)
    → contents l ≡ contents m
    → l.total ≡ m.total
    → Takes m f
    → Takes l f
transfer_lem l m (waiting n) same total (empty, rest, kept, ends, last) =
    (same ∙ empty, rest, kept ∙ sym total, ends, last)
transfer_lem l m (found link n) same total (first, rest, kept) =
    (same ∙ first, rest, kept ∙ sym total)
transfer_lem l m no_round same total h = h

module _ (total limit : ℤ) where
  abbrev links : List LinkBucket → LinkBucket → List LinkBucket → AvailableLinks
  links front bottom spare = record {
    front = front;
    bottom = bottom;
    spare = spare;
    total = total;
    limit = limit;
  }

  find_chain_lem :
      (front : List LinkBucket) (bottom : LinkBucket) (spare : List LinkBucket)
      → All IsDrained spare
      → Takes (links front bottom spare) (find_loop (suc (length front)) (links front bottom spare))
  unfolding find_loop receive_top recycle_top_bucket recycle_top_locked
  find_chain_lem [] [] spare chain = (refl, chain, refl, refl, refl)
  find_chain_lem [] (x ∷ xs) spare chain = (refl, chain, refl)
  find_chain_lem ((x ∷ xs) ∷ bs) bottom spare chain = (refl, chain, refl)
  find_chain_lem ([] ∷ bs) bottom spare chain =
      transfer_lem (links ([] ∷ bs) bottom spare) (links bs bottom (spare ++ ([] ∷ []))) _ refl refl
        (find_chain_lem bs bottom (spare ++ ([] ∷ []))
          (All-append IsDrained spare ([] ∷ []) chain (refl, tt)))

-- Looking for a link ends within a round for each bucket before the bottom and one more. It takes
-- the link that stands before all others; where no link is left, it waits at an empty top, which
-- is then the bottom.
pub find_loop-Takes :
    (l : AvailableLinks) → IsChain l → Takes l (find_loop (suc (length l.front)) l)
find_loop-Takes l chain = find_chain_lem l.total l.limit l.front l.bottom l.spare chain
