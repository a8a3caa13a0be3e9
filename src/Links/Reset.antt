-- ===== src/Links/Reset.antt =====
-- What Reset of AvailableLinks leaves, proxy/lambdastore/link_manager.go.
use lambda_objectstore.Base.{
  ◌≡◌, ◌⊎◌, inl, inr, refl, true, false, List, [], ◌∷◌, ◌++◌, All-append, Bool-cases,
}
use lambda_objectstore.Base.Int.{pos}
use lambda_objectstore.Links.{LinkBucket, AvailableLinks, top, is_empty, drain, reset_available}
use lambda_objectstore.Links.Queue.{IsChain, IsDrained, contents}

abbrev Emptied : AvailableLinks → AvailableLinks → Type 0
Emptied l m = (m.front ≡ []) × IsChain m × (m.limit ≡ l.limit)

drain-Emptied :
    (front : List LinkBucket) (l : AvailableLinks) → IsChain l → Emptied l (drain front l)
unfolding drain
drain-Emptied [] l chain = (refl, chain, refl)
drain-Emptied (b ∷ bs) l chain =
    drain-Emptied bs (record l { front = bs; spare = l.spare ++ ([] ∷ []) })
      (All-append IsDrained l.spare ([] ∷ []) chain (refl, tt))

-- Where a link stands in the top bucket, Reset leaves no link, counts none and keeps the limit and
-- the empty buckets. Where the top bucket is empty, it changes nothing.
pub reset_available_empties :
    (l : AvailableLinks)
    → IsChain l
    → ((is_empty (top l) ≡ true) × (reset_available l ≡ l))
      ⊎ ((is_empty (top l) ≡ false)
          × (contents (reset_available l) ≡ [])
          × IsChain (reset_available l)
          × ((reset_available l).total ≡ pos 0)
          × ((reset_available l).limit ≡ l.limit))
unfolding reset_available
reset_available_empties l chain =
    let (front, rest, limit) = drain-Emptied l.front l chain in
    elim (Bool-cases (is_empty (top l))) [
      | inl e ↦ inl (e, rw e refl)
      | inr e ↦ rw e (inr (refl, rw front refl, rest, refl, limit))
    ]
