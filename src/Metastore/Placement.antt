-- ===== src/Metastore/Placement.antt =====
-- FindPlacement of proxy/server/metastore/lru_placer.go: where a chunk goes, with the sizes of the
-- instances of proxy/lambdastore/meta.go and the slices of proxy/server/cluster/static_cluster.go.
pub mod Visits
pub mod Offers
pub mod Search
pub mod Stuck
pub mod Place
pub mod Slices
use lambda_objectstore.Base.{
  ℕ, zero, suc, ◌+◌, ◌-◌, ◌%◌, List, [], ◌∷◌, Bool, true, false, Option, none, some, ◌||◌, ◌==◌,
  ltb, if◌then◌else◌, length, get_elem?, set, replicate,
}
use lambda_objectstore.Base.Int.{pos as nonneg, sub_ℕ}
use lambda_objectstore.InstanceMeta.{InstanceMeta, u64_bound, increase_size, decrease_size}
use lambda_objectstore.Metastore.Meta.{Meta, LruPlacerMeta, Slice, fresh}
use lambda_objectstore.Metastore.Store.{Heap, update}
use lambda_objectstore.Metastore.Lru.{
  Clock, new_placer_meta, placer_meta_of, modify, modify_at, confirm, pos, add_object, evict_meta,
  next_available_object,
}

-- The loop for a replacement, whose rounds are counted in `scanned`: a victim was found, or
-- from the second round on the largest candidate is evicted, or `next` goes on.
unfoldable pub settle :
    (Clock → Option ℕ → Option Clock) → ℕ → ℕ → Clock × Option ℕ × Bool → Option Clock
unfolding evict_meta
settle next scanned meta (c, candidate, true) = some c
settle next scanned meta (c, none, false) = next c none
settle next scanned meta (c, some m, false) =
    if ltb 0 scanned then some (evict_meta meta m false c) else next c (some m)

-- `none` when the fuel is used up: the loop of the source has no bound.
unfoldable pub search : ℕ → ℕ → ℕ → Option ℕ → Clock → Option Clock
search zero scanned meta candidate c = none
search (suc fuel) scanned meta candidate c =
    settle (λ c' candidate'. search fuel (scanned + 1) meta candidate' c') scanned meta
      (next_available_object meta candidate c)

-- The placer, the instances by their ids, and the counter and the number of instances of the
-- cluster that slices are cut from.
pub record Placing : Type 0 where
  pub clock : Clock
  pub instances : ℕ → InstanceMeta
  pub slice_base : ℕ
  pub cap : ℕ

-- How FindPlacement ends: with an instance, and a post process or none; or with an index out of
-- the range of a placement.
pub data Placed : Type 0 where
  placed : ℕ → Bool → Placed
  index_panic : Placed

abbrev pub heap_of : Placing → Heap
heap_of w = w.clock.heap

abbrev pub set_heap : Heap → Placing → Placing
set_heap heap w = record w { clock = record w.clock { heap = heap } }

abbrev pub set_instance : (ℕ → InstanceMeta) → ℕ → InstanceMeta → ℕ → InstanceMeta
set_instance instances id i q = if id == q then i else instances q

-- The placer meta is made when there is none.
abbrev pub with_placer_meta : Meta → Meta
with_placer_meta m = elim m.placer_meta [
  | some pm ↦ m
  | none ↦ record m { placer_meta = some (new_placer_meta (replicate (length m.placement) false)) }
]

-- The chunk goes to the instance, and is confirmed.
abbrev pub assign : ℕ → ℕ → Meta → Meta
assign chunk id m = modify (confirm chunk) (record m { placement = set m.placement chunk id })

-- StaticCluster.nextSlice: the base of a new slice. The cluster has an instance at least.
unfoldable pub next_slice : ℕ → Placing → Placing × ℕ × ℕ
next_slice size w =
    let base = (w.slice_base + size) % u64_bound in
    (record w { slice_base = base }, (base + (u64_bound - size)) % u64_bound % w.cap, w.cap)

-- Slice.GetIndex: the range is asked for once. Ids are far below 2 ^ 63.
unfoldable pub get_index : Slice → ℕ → Placing → Placing × Slice × ℕ
unfolding next_slice
get_index s id w = elim s.range [
  | some (base, cap) ↦ (w, s, (base + id) % cap)
  | none ↦
      let (w', base, cap) = next_slice s.size w in
      (w', record s { range = some (base, cap) }, (base + id) % cap)
]

-- The instance that a meta assigns to an id, which is the id itself without a slice.
unfoldable pub assigned_to : ℕ → ℕ → Placing → Placing × ℕ
unfolding get_index
assigned_to meta id w = elim (heap_of w meta).slice [
  | none ↦ (w, id)
  | some s ↦
      let (w', s', id') = get_index s id w in
      (set_heap (update (heap_of w') meta (record (heap_of w' meta) { slice = some s' })) w', id')
]

-- Room for a chunk on an instance; it is given back where it turns out to be too much.
unfoldable pub reserve : ℕ → (ℕ → InstanceMeta) → ℕ → (ℕ → InstanceMeta) × Bool
unfolding increase_size decrease_size
reserve chunk_size instances id =
    let i = instances id in
    if ltb ((i.size + chunk_size) % u64_bound) i.capacity
    then (let (i', size) = increase_size (nonneg chunk_size) i in
        if ltb size i.capacity
        then (set_instance instances id i', true)
        else (set_instance instances id (decrease_size (nonneg chunk_size) i').0, false))
    else (instances, false)

-- The sizes after an eviction: a chunk that is confirmed elsewhere only frees room, another takes
-- the place of the evicted object's. `none` is a panic, where the evicted object has more chunks
-- than there are flags.
unfoldable pub resize : List Bool → ℕ → ℕ → List ℕ → (ℕ → InstanceMeta) → Option (ℕ → InstanceMeta)
unfolding increase_size decrease_size
resize confirmed chunk_size evicted_size [] instances = some instances
resize [] chunk_size evicted_size (tbe ∷ swap_map) instances = none
resize (moved ∷ confirmed) chunk_size evicted_size (tbe ∷ swap_map) instances =
    let ins : InstanceMeta =
      if moved
      then (decrease_size (nonneg evicted_size) (instances tbe)).0
      else (increase_size (sub_ℕ chunk_size evicted_size) (instances tbe)).0 in
    resize confirmed chunk_size evicted_size swap_map (set_instance instances tbe ins)

-- evictMeta sets the evicted object together with the placement that it leaves.
abbrev pub evicted_size : Heap → LruPlacerMeta → ℕ
evicted_size heap pm = elim pm.evicts [ some e ↦ (heap e).chunk_size | none ↦ 0 ]

-- The chunk takes the place of the evicted object's.
unfoldable pub take_place : ℕ → ℕ → Bool → Placing → Placing × Placed
take_place meta chunk post w = elim (get_elem? (placer_meta_of (heap_of w meta)).swap_map chunk) [
  | none ↦ (w, index_panic)
  | some id ↦
      if ltb chunk (length (heap_of w meta).placement)
      then (set_heap (update (heap_of w) meta (assign chunk id (heap_of w meta))) w, placed id post)
      else (w, index_panic)
]

-- What follows the sizes; what was changed before a panic is not followed.
unfoldable pub resized : ℕ → ℕ → Placing → Option (ℕ → InstanceMeta) → Placing × Placed
unfolding take_place
resized meta chunk w none = (w, index_panic)
resized meta chunk w (some instances) =
    let (w', r) = take_place meta chunk true (record w { instances = instances }) in
    (set_heap (modify_at meta (λ pm'. record pm' { once = some fresh }) (heap_of w')) w', r)

-- Behind the search for a replacement.
unfoldable pub replace : ℕ → ℕ → Placing → Placing × Placed
unfolding resize resized
replace meta chunk w =
    let heap = heap_of w in
    let pm = placer_meta_of (heap meta) in
    resized meta chunk w
      (resize pm.confirmed (heap meta).chunk_size (evicted_size heap pm) pm.swap_map w.instances)

-- Behind a reservation: an object that is in neither array is added.
unfoldable pub settle_in : ℕ → Placing → Placing
unfolding add_object
settle_in meta w =
    let pm = placer_meta_of (heap_of w meta) in
    if ltb 0 (pos w.clock.placer.primary pm) || ltb 0 (pos w.clock.placer.secondary pm)
    then w
    else record w { clock = add_object meta w.clock }

-- What follows the search.
unfoldable pub replaced : ℕ → ℕ → Placing → Option Clock → Option (Placing × Placed)
unfolding replace
replaced meta chunk w none = none
replaced meta chunk w (some c) = some (replace meta chunk (record w { clock = c }))

-- What follows the attempt to reserve room.
unfoldable pub reserved :
    ℕ → ℕ → ℕ → ℕ → Placing → (ℕ → InstanceMeta) × Bool → Option (Placing × Placed)
unfolding settle_in search replaced
reserved fuel meta chunk id w (instances, true) =
    let heap = update (heap_of w) meta (assign chunk id (heap_of w meta)) in
    some (settle_in meta (set_heap heap (record w { instances = instances })), placed id false)
reserved fuel meta chunk id w (instances, false) =
    replaced meta chunk (record w { instances = instances }) (search fuel 0 meta none w.clock)

unfoldable pub place_on : ℕ → ℕ → ℕ → ℕ → Placing → Option (Placing × Placed)
unfolding reserve reserved
place_on fuel meta chunk id w =
    reserved fuel meta chunk id w (reserve (heap_of w meta).chunk_size w.instances id)

-- `none` when the fuel of the search is used up.
unfoldable pub find_placement : ℕ → ℕ → ℕ → Placing → Option (Placing × Placed)
unfolding take_place assigned_to place_on
find_placement fuel meta chunk w =
    let w1 = set_heap (update (heap_of w) meta (with_placer_meta (heap_of w meta))) w in
    elim (placer_meta_of (heap_of w1 meta)).swap_map [
      | x ∷ xs ↦ some (take_place meta chunk false w1)
      | [] ↦ elim (get_elem? (heap_of w1 meta).placement chunk) [
        | none ↦ some (w1, index_panic)
        | some id ↦ let (w2, id') = assigned_to meta id w1 in place_on fuel meta chunk id' w2
      ]
    ]
