-- ===== src/Metastore/Placement/Place.antt =====
-- FindPlacement of proxy/server/metastore/lru_placer.go: room on an instance, and when there is none.
use lambda_objectstore.Base.{
  ℕ, ◌+◌, ◌%◌, List, [], ◌∷◌, ◌++◌, ap₂, subst, if_cases, ◌<◌, ◌≤◌, ◌≡◌, refl, ap, ◌∙◌, Bool, true,
  false, Option, none, some, ◌||◌, arith, ltb, length, get_elem?, drop, ◌⊎◌, inl, inr, Bool-cases,
  Option-cases, ==_refl, get_elem?-set, get_elem?_total,
}
use lambda_objectstore.InstanceMeta.{InstanceMeta, u64_bound, increase_size}
use lambda_objectstore.Metastore.Meta.{Meta, LruPlacerMeta}
use lambda_objectstore.Metastore.Store.{update}
use lambda_objectstore.Metastore.Lru.{
  Side, Clock, placer_meta_of, modify, confirm, objects, pos, add_object, set_pos,
}
use lambda_objectstore.Metastore.Lru.Compact.{InOrder}
use lambda_objectstore.Metastore.Lru.Positions.{objects-set_objects, pos-set_pos}
use lambda_objectstore.Metastore.Placement.{
  Placing, placed, heap_of, set_heap, set_instance, assign, reserve, settle_in, replaced, reserved,
  place_on,
}
use lambda_objectstore.Metastore.Placement.Stuck.{IsOnly, search_stuck}

reserve_room :
    (chunk_size : ℕ) (instances : ℕ → InstanceMeta) (id : ℕ)
    → (instances id).size + chunk_size < (instances id).capacity
    → (instances id).capacity < u64_bound
    → reserve chunk_size instances id ≡ (
      set_instance instances id (record (instances id) { size = (instances id).size + chunk_size }),
      true,
    )
unfolding reserve increase_size
reserve_room chunk_size instances id h w =
    let small : ((instances id).size + chunk_size) % u64_bound ≡ (instances id).size + chunk_size =
      omega arith in
    let added : ((instances id).size + chunk_size % u64_bound) % u64_bound
        ≡ (instances id).size + chunk_size =
      omega arith in
    let fits : ltb ((instances id).size + chunk_size) (instances id).capacity ≡ true =
      ground arith in
    rw (small, added, fits) refl

reserve_full :
    (chunk_size : ℕ) (instances : ℕ → InstanceMeta) (id : ℕ)
    → (instances id).capacity ≤ (instances id).size + chunk_size
    → (instances id).size + chunk_size < u64_bound
    → reserve chunk_size instances id ≡ (instances, false)
unfolding reserve
reserve_full chunk_size instances id h w =
    let small : ((instances id).size + chunk_size) % u64_bound ≡ (instances id).size + chunk_size =
      omega arith in
    let full : ltb ((instances id).size + chunk_size) (instances id).capacity ≡ false =
      ground arith in
    rw (small, full) refl

-- The array holds nothing but the object.
abbrev pub IsAlone : ℕ → Placing → Type 0
IsAlone meta w = IsOnly meta (drop 1 (objects w.clock.placer.primary w.clock.placer))

-- An instance without room for the chunk; the sum does not wrap around.
abbrev pub IsFull : ℕ → ℕ → Placing → Type 0
IsFull meta id w =
    ((w.instances id).capacity ≤ (w.instances id).size + (heap_of w meta).chunk_size)
    × ((w.instances id).size + (heap_of w meta).chunk_size < u64_bound)

-- On a full instance, while the placer holds nothing but the object itself, and from the start of an
-- iteration, FindPlacement, behind its choice of that instance, does not end, whatever the number of
-- rounds of its search.
pub place_on_stuck :
    (fuel meta chunk id : ℕ) (w : Placing)
    → IsFull meta id w
    → InOrder w.clock
    → IsAlone meta w
    → place_on fuel meta chunk id w ≡ none
unfolding place_on reserved replaced
place_on_stuck fuel meta chunk id w (full, narrow) h alone =
    rw
      (
        reserve_full (heap_of w meta).chunk_size w.instances id full narrow,
        search_stuck fuel 0 meta w.clock h alone,
      )
      refl

-- The chunk is placed on the instance and confirmed.
pub record IsPlacedOn (meta chunk id : ℕ) (w : Placing) : Type 0 where
  pub placement_eq : get_elem? (heap_of w meta).placement chunk ≡ some id
  pub confirmed_eq : get_elem? (placer_meta_of (heap_of w meta)).confirmed chunk ≡ some true

-- The object has a position in an array.
abbrev pub is_listed : ℕ → Clock → Bool
is_listed meta c =
    let pm = placer_meta_of (c.heap meta) in
    ltb 0 (pos c.placer.primary pm) || ltb 0 (pos c.placer.secondary pm)

-- An object that has one stays where it is; another is added at the end of the primary array, as
-- visited, and knows its position there.
abbrev pub Lists : Bool → ℕ → Clock → Clock → Type 0
Lists listed meta c c' =
    let xs = objects c.placer.primary c.placer in
    ((listed ≡ true) × (c'.placer ≡ c.placer))
    ⊎ ((listed ≡ false)
        × (objects c.placer.primary c'.placer ≡ xs ++ some meta ∷ [])
        × (c'.placer.primary ≡ c.placer.primary)
        × ((pm : LruPlacerMeta) × ((c'.heap meta).placer_meta ≡ some pm)
            × (pos c.placer.primary pm ≡ length xs)
            × (pm.visited ≡ true)))

settle_in-Lists :
    (meta : ℕ) (w : Placing) (pm : LruPlacerMeta)
    → (heap_of w meta).placer_meta ≡ some pm
    → Lists (is_listed meta w.clock) meta w.clock (settle_in meta w).clock
unfolding settle_in add_object
settle_in-Lists meta w pm e =
    if_cases (λ (w' : Placing). Lists (is_listed meta w.clock) meta w.clock w'.clock)
      (is_listed meta w.clock) (λ f. inl (f, refl))
      (λ f. inr (
        f,
        objects-set_objects w.clock.placer.primary (array ++ some meta ∷ []) w.clock.placer,
        refl,
        (
          record (set_pos w.clock.placer.primary (length array) pm) { visited = true },
          rw (==_refl meta, e) refl,
          pos-set_pos w.clock.placer.primary (length array) pm,
          refl,
        ),
      ))
  where
    array : List (Option ℕ)
    array = objects w.clock.placer.primary w.clock.placer

pos-confirm :
    (chunk : ℕ) (side : Side) (pm : LruPlacerMeta) → pos side (confirm chunk pm) ≡ pos side pm
unfolding confirm
pos-confirm chunk side pm = from (get_elem? pm.confirmed chunk) refl
  where
    from :
        (o : Option Bool)
        → get_elem? pm.confirmed chunk ≡ o
        → pos side (confirm chunk pm) ≡ pos side pm
    from none e = rw (e, confirm) refl
    from (some true) e = rw (e, confirm) refl
    from (some false) e = rw (e, confirm) refl

confirm_lem :
    (chunk : ℕ) (pm : LruPlacerMeta)
    → chunk < length pm.confirmed
    → get_elem? (confirm chunk pm).confirmed chunk ≡ some true
unfolding confirm
confirm_lem chunk pm h = at (get_elem? pm.confirmed chunk) refl
  where
    at :
        (o : Option Bool)
        → get_elem? pm.confirmed chunk ≡ o
        → get_elem? (confirm chunk pm).confirmed chunk ≡ some true
    at none e = let (x, f) = get_elem?_total pm.confirmed chunk h in absurd cc
    at (some true) e = rw (e, confirm) e
    at (some false) e =
        rw (e, confirm) (get_elem?-set pm.confirmed chunk chunk true h ∙ rw (==_refl chunk) refl)

-- A write of the placer meta other than to its confirmed chunks.
modify_kept :
    (f : LruPlacerMeta → LruPlacerMeta) (v : Meta)
    → ((pm : LruPlacerMeta) → (f pm).confirmed ≡ pm.confirmed)
    → ((modify f v).placement ≡ v.placement)
      × ((placer_meta_of (modify f v)).confirmed ≡ (placer_meta_of v).confirmed)
modify_kept f v h = elim (Option-cases v.placer_meta) [
  | inl e ↦ (rw e refl, rw e refl)
  | inr (pm, e) ↦ (rw e refl, rw e (h pm))
]

settle_in_lem :
    (meta chunk id : ℕ) (w : Placing)
    → IsPlacedOn meta chunk id w
    → IsPlacedOn meta chunk id (settle_in meta w) × ((settle_in meta w).instances ≡ w.instances)
unfolding settle_in add_object
settle_in_lem meta chunk id w h =
    let pm = placer_meta_of (heap_of w meta) in
    let side = w.clock.placer.primary in
    let g : LruPlacerMeta → LruPlacerMeta = set_pos side (length (objects side w.clock.placer)) in
    let v : LruPlacerMeta → LruPlacerMeta = λ q. record q { visited = true } in
    elim (Bool-cases
      (ltb 0 (pos w.clock.placer.primary pm) || ltb 0 (pos w.clock.placer.secondary pm))) [
        | inl e ↦ rw e (h, refl)
        | inr e ↦
            let (a, b) = modify_kept g (heap_of w meta) (λ q. refl) in
            let (a', b') = modify_kept v (modify g (heap_of w meta)) (λ q. refl) in
            rw e (
              record {
                placement_eq =
                    rw (==_refl meta) (ap (λ xs. get_elem? xs chunk) (a' ∙ a) ∙ h.placement_eq);
                confirmed_eq =
                    rw (==_refl meta) (ap (λ xs. get_elem? xs chunk) (b' ∙ b) ∙ h.confirmed_eq);
              },
              refl,
            )
      ]

-- On an instance with room for the chunk, FindPlacement, behind its choice of it, places and
-- confirms the chunk there, and the size of the instance, which stays below its capacity, counts
-- the chunk, with any fuel. The
-- chunk is one of the object, and capacities are uint64. An object that is in neither array is
-- added to the primary one.
pub place_on_room :
    (fuel meta chunk id : ℕ) (w : Placing) (pm : LruPlacerMeta)
    → (heap_of w meta).placer_meta ≡ some pm
    → chunk < length pm.confirmed
    → chunk < length (heap_of w meta).placement
    → (w.instances id).size + (heap_of w meta).chunk_size < (w.instances id).capacity
    → (w.instances id).capacity < u64_bound
    → (w' : Placing) × (place_on fuel meta chunk id w ≡ some (w', placed id false))
      × IsPlacedOn meta chunk id w'
      × ((w'.instances id).size ≡ (w.instances id).size + (heap_of w meta).chunk_size)
      × ((w'.instances id).size < (w'.instances id).capacity)
      × Lists (is_listed meta w.clock) meta w.clock w'.clock
unfolding place_on reserved
place_on_room fuel meta chunk id w pm e hc hp room narrow =
    let m = heap_of w meta in
    let ins =
      set_instance w.instances id
        (record (w.instances id) { size = (w.instances id).size + m.chunk_size }) in
    let w1 =
      set_heap (update (heap_of w) meta (assign chunk id m)) (record w { instances = ins }) in
    let on : IsPlacedOn meta chunk id w1 = record {
      placement_eq =
          rw (==_refl meta, e)
            (get_elem?-set m.placement chunk chunk id hp ∙ rw (==_refl chunk) refl);
      confirmed_eq = rw (==_refl meta, e) (confirm_lem chunk pm hc);
    } in
    let (settled, same) = settle_in_lem meta chunk id w1 on in
    let at : (settle_in meta w1).instances id
        ≡ record (w.instances id) { size = (w.instances id).size + m.chunk_size } =
      ap (λ f. f id) same ∙ rw (==_refl id) refl in
    (
      settle_in meta w1,
      rw (reserve_room m.chunk_size w.instances id room narrow) refl,
      settled,
      ap (λ i. i.size) at,
      rw at room,
      subst (λ b. Lists b meta w.clock (settle_in meta w1).clock) (still_listed e)
          (settle_in-Lists meta w1 (confirm chunk pm) (rw (==_refl meta, e) refl)),
    )
  where
    still_listed :
        (heap_of w meta).placer_meta ≡ some pm
        → is_listed meta
            (record w.clock { heap = update (heap_of w) meta (assign chunk id (heap_of w meta)) })
          ≡ is_listed meta w.clock
    still_listed e =
        rw (==_refl meta, e)
          (ap₂ (λ a b. ltb 0 a || ltb 0 b) (pos-confirm chunk w.clock.placer.primary pm)
            (pos-confirm chunk w.clock.placer.secondary pm))
