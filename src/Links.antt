-- ===== src/Links.antt =====
-- The links that wait for requests, AvailableLinks of proxy/lambdastore/link_manager.go: a chain of
-- buckets, channels of ten links, from the top, where links are taken, over the bottom, where they
-- are added, to the tail. A bucket is the list of its links; the buckets before the bottom are
-- `front`, so that the top is the first of `front`, or the bottom where that is empty, and those
-- after it are `spare`. A link is a number, never nil.
use lambda_objectstore.Base.{
  ℕ, zero, suc, Bool, true, false, not, ◌&&◌, ◌||◌, Option, none, some, List, [], ◌∷◌, ◌++◌, length,
  ltb, if◌then◌else◌,
}
use lambda_objectstore.Base.Int.{ℤ, pos, ◌+ℤ◌, ltb_ℤ, leb_ℤ}
pub mod Queue
pub mod Reset
pub mod Workers
pub mod Manager

abbrev pub link_bucket_size : ℕ
link_bucket_size = 10

abbrev pub LinkBucket : Type 0
LinkBucket = List ℕ

pub record AvailableLinks : Type 0 where
  pub front : List LinkBucket
  pub bottom : LinkBucket
  pub spare : List LinkBucket
  pub total : ℤ
  pub limit : ℤ

unfoldable pub new_available_links : AvailableLinks
new_available_links = record { front = []; bottom = []; spare = []; total = pos 0; limit = pos 2 }

unfoldable pub set_limit : ℤ → AvailableLinks → ℤ × AvailableLinks
set_limit limit l = (l.limit, record l { limit = limit })

-- OffsetLimit(offset, max)
unfoldable pub offset_limit : ℤ → ℤ → AvailableLinks → ℤ × AvailableLinks
offset_limit offset max l =
    let moved = l.limit +ℤ offset in
    let limit = if ltb_ℤ moved (pos 1) then pos 1 else if ltb_ℤ max moved then max else moved in
    (l.limit, record l { limit = limit })

-- The top bucket is the first of the two.
abbrev pub first_of : List LinkBucket → LinkBucket → LinkBucket
first_of [] bottom = bottom
first_of (b ∷ bs) bottom = b

abbrev pub top : AvailableLinks → LinkBucket
top l = first_of l.front l.bottom

abbrev pub is_empty {ℓ} : {A : Type ℓ} → List A → Bool
is_empty [] = true
is_empty (x ∷ xs) = false

-- The bottom moves to the next bucket, which is made where there is none.
unfoldable pub move_bottom : List LinkBucket → AvailableLinks → AvailableLinks
move_bottom [] l = record l { front = l.front ++ (l.bottom ∷ []); bottom = []; spare = [] }
move_bottom (b ∷ bs) l = record l { front = l.front ++ (l.bottom ∷ []); bottom = b; spare = bs }

unfoldable pub next_bottom_locked : Bool → AvailableLinks → AvailableLinks
unfolding move_bottom
next_bottom_locked check l =
    if check && ltb (length l.bottom) link_bucket_size then l else move_bottom l.spare l

-- The loop of addAvailableLocked, at most the given number of rounds
unfoldable pub add_loop : ℕ → ℕ → AvailableLinks → Option AvailableLinks
unfolding next_bottom_locked
add_loop zero link l = none
add_loop (suc rounds) link l =
    let rest = add_loop rounds link (next_bottom_locked true l) in
    if ltb (length l.bottom) link_bucket_size
    then some (record l { bottom = l.bottom ++ (link ∷ []); total = l.total +ℤ pos 1 })
    else rest

abbrev pub is_limited : Bool → AvailableLinks → Bool
is_limited nolimit l = not nolimit && (ltb_ℤ (pos 0) l.limit && leb_ℤ l.limit l.total)

abbrev pub added : Option AvailableLinks → Option (Bool × AvailableLinks)
added none = none
added (some l) = some (true, l)

-- addAvailableLocked(link, nolimit), with two rounds of its loop
unfoldable pub add_available : Bool → ℕ → AvailableLinks → Option (Bool × AvailableLinks)
unfolding add_loop
add_available nolimit link l =
    if is_limited nolimit l then some (false, l) else added (add_loop 2 link l)

abbrev recycled : List LinkBucket → AvailableLinks → AvailableLinks
recycled [] l = l
recycled (b ∷ bs) l = record l { front = bs; spare = l.spare ++ (b ∷ []) }

-- The top goes behind the tail; it is called where the top is not the bottom.
unfoldable pub recycle_top_locked : AvailableLinks → AvailableLinks
recycle_top_locked l = recycled l.front l

unfoldable pub recycle_top_bucket : AvailableLinks → AvailableLinks
unfolding recycle_top_locked
recycle_top_bucket l =
    if is_empty l.front || not (is_empty (top l)) then l else recycle_top_locked l

-- Receiving from the channel of the top bucket, in a chain with the given front and bottom
abbrev pub received : List LinkBucket → LinkBucket → AvailableLinks → Option (ℕ × AvailableLinks)
received [] [] l = none
received [] (x ∷ xs) l = some (x, record l { bottom = xs })
received ([] ∷ bs) bottom l = none
received ((x ∷ xs) ∷ bs) bottom l = some (x, record l { front = xs ∷ bs })

unfoldable pub receive_top : AvailableLinks → Option (ℕ × AvailableLinks)
receive_top l = received l.front l.bottom l

-- `waiting`: the top is the bottom, and empty.
pub data Found : Type 0 where
  no_round : Found
  waiting : AvailableLinks → Found
  found : ℕ → AvailableLinks → Found

abbrev pub found_or : Option (ℕ × AvailableLinks) → Found → Found
found_or none otherwise = otherwise
found_or (some (x, l)) otherwise = found x l

-- The loop of GetRequestPipe that looks for a link, at most the given number of rounds
unfoldable pub find_loop : ℕ → AvailableLinks → Found
unfolding receive_top recycle_top_bucket
find_loop zero l = no_round
find_loop (suc rounds) l =
    let rest = find_loop rounds (recycle_top_bucket l) in
    found_or (receive_top l) (if is_empty l.front then waiting l else rest)

-- The loop of Reset that drains the buckets before the bottom
unfoldable pub drain : List LinkBucket → AvailableLinks → AvailableLinks
drain [] l = record l { front = [] }
drain (b ∷ bs) l = drain bs (record l { front = bs; spare = l.spare ++ ([] ∷ []) })

-- Reset(), after the requests for links were reset
unfoldable pub reset_available : AvailableLinks → AvailableLinks
unfolding drain
reset_available l =
    if is_empty (top l) then l else record (drain l.front l) { bottom = []; total = pos 0 }
