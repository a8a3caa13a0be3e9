-- ===== src/Metastore/Lru.antt =====
-- The Clock LRU over objects of proxy/server/metastore/lru_placer.go: two arrays of pointers to
-- metas, of which the secondary one is filled with the objects that are left while the cursor
-- goes over the primary one. Index 0 of an array is reserved.
-- A meta in the placer has a placer meta; where it has none the source panics, and here a zero one
-- is read and nothing is written.
pub mod Positions
pub mod Copy
pub mod Scan
pub mod Compact
pub mod Evict
use lambda_objectstore.Base.{
  ℕ, ◌+◌, ◌-◌, List, [], ◌∷◌, ◌++◌, Bool, true, false, Option, none, some, not, ◌&&◌, ◌==◌, ltb,
  leb, if◌then◌else◌, length, get_elem?, set, take, drop,
}
use lambda_objectstore.Metastore.Meta.{Meta, LruPlacerMeta, delete}
use lambda_objectstore.Metastore.Store.{Heap, update}

-- The indices 0 and 1 of the pairs of arrays and positions.
pub data Side : Type 0 where
  side_0 side_1 : Side

-- Of a pair, the part of the side.
abbrev pub choose {ℓ} : {A : Type ℓ} → Side → A → A → A
choose side_0 a b = a
choose side_1 a b = b

abbrev pub pos : Side → LruPlacerMeta → ℕ
pos side pm = choose side pm.pos_0 pm.pos_1

abbrev pub set_pos : Side → ℕ → LruPlacerMeta → LruPlacerMeta
set_pos side i pm = record pm { pos_0 = choose side i pm.pos_0; pos_1 = choose side pm.pos_1 i }

-- newLRUPlacerMeta
abbrev pub new_placer_meta : List Bool → LruPlacerMeta
new_placer_meta confirmed = record {
  pos_0 = 0;
  pos_1 = 0;
  visited = false;
  confirmed = confirmed;
  num_confirmed = 0;
  swap_map = [];
  evicts = none;
  once = none;
}

abbrev pub placer_meta_of : Meta → LruPlacerMeta
placer_meta_of m = elim m.placer_meta [ some pm ↦ pm | none ↦ new_placer_meta [] ]

abbrev pub modify : (LruPlacerMeta → LruPlacerMeta) → Meta → Meta
modify f m = elim m.placer_meta [ some pm ↦ record m { placer_meta = some (f pm) } | none ↦ m ]

-- confirm, for a chunk of the object.
unfoldable pub confirm : ℕ → LruPlacerMeta → LruPlacerMeta
confirm chunk pm = elim (get_elem? pm.confirmed chunk) [
  | some false ↦ record pm {
    confirmed = set pm.confirmed chunk true;
    num_confirmed = pm.num_confirmed + 1;
  }
  | _ ↦ pm
]

abbrev pub all_confirmed : LruPlacerMeta → Bool
all_confirmed pm = pm.num_confirmed == length pm.confirmed

pub record LruPlacer : Type 0 where
  pub objects_0 : List (Option ℕ)
  pub objects_1 : List (Option ℕ)
  pub cursor : ℕ
  pub cursor_bound : ℕ
  pub primary : Side
  pub secondary : Side

-- The placer and the metas that it points to.
pub record Clock : Type 0 where
  pub heap : Heap
  pub placer : LruPlacer

abbrev pub objects : Side → LruPlacer → List (Option ℕ)
objects side p = choose side p.objects_0 p.objects_1

abbrev pub set_objects : Side → List (Option ℕ) → LruPlacer → LruPlacer
set_objects side xs p = record p {
  objects_0 = choose side xs p.objects_0;
  objects_1 = choose side p.objects_1 xs;
}

-- NewLRUPlacer
abbrev pub new_placer : LruPlacer
new_placer = record {
  objects_0 = none ∷ [];
  objects_1 = [];
  cursor = 0;
  cursor_bound = 0;
  primary = side_0;
  secondary = side_1;
}

abbrev pub modify_at : ℕ → (LruPlacerMeta → LruPlacerMeta) → Heap → Heap
modify_at p f heap = update heap p (modify f (heap p))

-- `pos[side] = len(objects[side]); objects[side] = append(objects[side], meta)`
abbrev pub append_object : Side → ℕ → Clock → Clock
append_object side meta c =
    let xs = objects side c.placer in
    record {
      heap = modify_at meta (set_pos side (length xs)) c.heap;
      placer = set_objects side (xs ++ some meta ∷ []) c.placer;
    }

-- The time of the visit is left out.
abbrev pub visit : ℕ → Bool → Clock → Clock
visit meta b c = record c { heap = modify_at meta (λ pm. record pm { visited = b }) c.heap }

unfoldable pub add_object : ℕ → Clock → Clock
add_object meta c = visit meta true (append_object c.placer.primary meta c)

unfoldable pub touch_object : ℕ → Clock → Clock
touch_object meta c = visit meta true c

-- copy(p, src)
abbrev pub copy_into : List ℕ → List ℕ → List ℕ
copy_into [] src = []
copy_into (x ∷ p) [] = x ∷ p
copy_into (x ∷ p) (y ∷ src) = y ∷ copy_into p src

-- copyPlacement: a placement has no room beyond its length.
unfoldable pub copy_placement : List ℕ → List ℕ → List ℕ
copy_placement p src = if ltb (length p) (length src) then src else copy_into p src

-- The slot of `meta` on the side is cleared, and `meta` takes the slot of the candidate.
unfoldable pub replace_on : Side → ℕ → ℕ → Clock → Clock
replace_on side meta candidate c =
    let xs = set (objects side c.placer) (pos side (placer_meta_of (c.heap meta))) none in
    let slot = pos side (placer_meta_of (c.heap candidate)) in
    record {
      heap = modify_at meta (set_pos side slot) c.heap;
      placer = set_objects side (set xs slot (some meta)) c.placer;
    }

-- The candidate is deleted, and `meta` takes over its placement.
unfoldable pub take_over : ℕ → ℕ → Heap → Heap
unfolding delete copy_placement
take_over meta candidate heap =
    let heap' = update heap candidate (delete (heap candidate)) in
    modify_at meta
      (λ pm. record pm {
        swap_map = copy_placement pm.swap_map (heap' candidate).placement;
        evicts = some candidate;
        visited = true;
      })
      heap'

unfoldable pub evict_meta : ℕ → ℕ → Bool → Clock → Clock
unfolding take_over replace_on
evict_meta meta candidate reset_secondary c =
    let c1 = record c { heap = take_over meta candidate c.heap } in
    let c2 = replace_on c.placer.primary meta candidate c1 in
    if reset_secondary then replace_on c.placer.secondary meta candidate c2 else c2

-- What NextAvailableObject makes of an object under the cursor.
pub data Verdict : Type 0 where
  skip second_chance victim better : Verdict

-- The object has a larger chunk than the candidate so far, if any.
abbrev pub is_larger : Heap → ℕ → Option ℕ → Bool
is_larger heap m none = true
is_larger heap m (some candidate) = ltb (heap candidate).chunk_size (heap m).chunk_size

unfoldable pub judge : Heap → ℕ → ℕ → Option ℕ → Verdict
judge heap meta m candidate =
    let pm = placer_meta_of (heap m) in
    if m == meta
    then skip
    else if pm.visited && all_confirmed pm
    then second_chance
    else if not pm.visited && leb (heap meta).chunk_size (heap m).chunk_size
    then victim
    else if not pm.visited && is_larger heap m candidate
    then better
    else skip

abbrev pub advance : Clock → Clock
advance c = record c { placer = record c.placer { cursor = c.placer.cursor + 1 } }

-- The object is added to the secondary array, and the cursor moves on.
abbrev pub keep : ℕ → Clock → Clock
keep m c = advance (append_object c.placer.secondary m c)

-- What follows the verdict; `next` goes on with the next object. The last part of a result tells
-- whether a victim was found and evicted, the middle one the candidate.
unfoldable pub act :
    (Clock → Option ℕ → Clock × Option ℕ × Bool)
    → ℕ
    → ℕ
    → Clock
    → Option ℕ
    → Verdict
    → Clock × Option ℕ × Bool
unfolding evict_meta
act next meta m c candidate skip = next (keep m c) candidate
act next meta m c candidate second_chance = next (keep m (visit m false c)) candidate
act next meta m c candidate victim = (keep meta (evict_meta meta m false c), candidate, true)
act next meta m c candidate better = next (keep m c) (some m)

-- The loop over the objects from the cursor to its bound.
unfoldable pub scan : ℕ → List (Option ℕ) → Clock → Option ℕ → Clock × Option ℕ × Bool
scan meta [] c candidate = (c, candidate, false)
scan meta (none ∷ ms) c candidate = scan meta ms (advance c) candidate
scan meta (some m ∷ ms) c candidate =
    act (λ c' candidate'. scan meta ms c' candidate') meta m c candidate
      (judge c.heap meta m candidate)

-- The start of an iteration: an empty secondary array, and a bound for the cursor.
unfoldable pub start_scan : Clock → Clock
start_scan c =
    let p = c.placer in
    if p.cursor == 0
    then record c {
      placer = record (set_objects p.secondary (none ∷ []) p) {
        cursor = 1;
        cursor_bound = length (objects p.primary p);
      };
    }
    else c

-- The objects that were added during the iteration go to the secondary array.
unfoldable pub keep_new : List (Option ℕ) → Clock → Clock
keep_new [] c = c
keep_new (none ∷ ms) c = keep_new ms c
keep_new (some m ∷ ms) c = keep_new ms (append_object c.placer.secondary m c)

-- The end of an iteration: the arrays change places.
unfoldable pub switch_arrays : Clock → Clock
unfolding keep_new
switch_arrays c =
    let c' = keep_new (drop c.placer.cursor (objects c.placer.primary c.placer)) c in
    record c' {
      placer = record c'.placer {
        cursor = 0;
        primary = c'.placer.secondary;
        secondary = c'.placer.primary;
      };
    }

unfoldable pub finish_scan : Clock × Option ℕ × Bool → Clock × Option ℕ × Bool
unfolding switch_arrays
finish_scan (c, candidate, true) = (c, candidate, true)
finish_scan (c, candidate, false) = (switch_arrays c, candidate, false)

-- The objects from the cursor to its bound.
abbrev pub under_cursor : LruPlacer → List (Option ℕ)
under_cursor p = take (p.cursor_bound - p.cursor) (drop p.cursor (objects p.primary p))

unfoldable pub next_available_object : ℕ → Option ℕ → Clock → Clock × Option ℕ × Bool
next_available_object meta candidate c =
    let c' = start_scan c in finish_scan (scan meta (under_cursor c'.placer) c' candidate)
