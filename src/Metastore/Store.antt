-- ===== src/Metastore/Store.antt =====
-- The versions of objects, proxy/server/metastore/metastore.go. Metas live on a heap, where a
-- pointer is a number; the map of the store holds pointers under the keys of objects and under the
-- keys of their versions. A call reads the clock as `now`. Runs of the loops are on fuel.
pub mod Invariant
pub mod Publish
pub mod Insert
pub mod Outcome
pub mod Get
use lambda_objectstore.Base.{
  ℕ, zero, suc, List, Bool, true, false, Option, none, some, not, ◌&&◌, ◌==◌, if◌then◌else◌,
}
use lambda_objectstore.HashMap.Interface.{Backend, Value}
use lambda_objectstore.HashMap.{HashMap, load, load_or_store, store, compare_and_swap}
use lambda_objectstore.Keys.{sanitized_key_by_version}
use lambda_objectstore.Metastore.Meta.{
  Meta, is_created, validate, close, revise_by, versioning_key, key_by_version, has_history,
}

abbrev pub Heap : Type 0
Heap = ℕ → Meta

-- `heap[p] = m`
abbrev pub update : Heap → ℕ → Meta → Heap
update heap p m q = if p == q then m else heap q

pub record MetaStore (backend : Backend) : Type 0 where
  pub heap : Heap
  pub meta_map : HashMap backend

-- How GetOrInsert ends: the candidate is in the map; a meta of the same request is there; another
-- request is creating the object (ErrConcurrentCreation); a nil entry was dereferenced.
pub data Inserted : Type 0 where
  inserted got conflict : ℕ → Inserted
  nil_panic out_of_fuel : Inserted

pub data Found : Type 0 where
  found : ℕ → Found
  missing nil_panic out_of_fuel : Found

module _ (backend : Backend) where
  -- The map's part of a round: LoadOrStore on the first round, CompareAndSwap on later ones.
  -- The result is the latest meta in the map, and whether the candidate is now there.
  unfoldable pub try_insert :
      HashMap backend → List ℕ → Option ℕ → ℕ → HashMap backend × Value × Bool
  try_insert m key none candidate =
      let (m', v, loaded) = load_or_store backend m key (some candidate) in
      (m', elim v [ none ↦ none | some w ↦ w ], not loaded)
  try_insert m key (some latest) candidate =
      compare_and_swap backend m key (some latest) (some candidate)

  -- `if candidate != insert { candidate.close() }`
  unfoldable pub close_extra : Heap → ℕ → ℕ → Heap
  close_extra heap candidate insert =
      if candidate == insert then heap else update heap candidate (close (heap candidate))

  -- The rest of a round, when the candidate is not in the map: how the loop ends, or `none` to go
  -- on, with the candidate revised to a new version.
  unfoldable pub resolve : ℕ → Heap → ℕ → ℕ → ℕ → Heap × Option Inserted
  resolve now heap latest candidate insert =
      if (heap latest).initiator == (heap candidate).initiator
      then (close_extra heap candidate insert, some (got latest))
      else let (m, valid) = validate now (heap latest) in
        let heap' = update heap latest m in
        if valid && not (is_created m)
        then (close_extra heap' candidate insert, some (conflict latest))
        else (update heap' candidate (revise_by (heap' latest) (heap' candidate)), none)

  -- The end of a round: return, or go on by `next`.
  unfoldable pub conclude :
      (Heap → HashMap backend → ℕ → MetaStore backend × Inserted)
      → HashMap backend
      → ℕ
      → Heap × Option Inserted
      → MetaStore backend × Inserted
  conclude next map p (heap, none) = next heap map p
  conclude next map p (heap, some r) = (record { heap = heap; meta_map = map }, r)

  -- A round, behind the map's part of it. The candidate that wins is stored under the key of its
  -- version, too.
  unfoldable pub round :
      (Heap → HashMap backend → ℕ → MetaStore backend × Inserted)
      → ℕ
      → Heap
      → ℕ
      → ℕ
      → HashMap backend × Value × Bool
      → MetaStore backend × Inserted
  unfolding conclude
  round next now heap candidate insert (map, none, first_chunk) =
      (record { heap = heap; meta_map = map }, Inserted.nil_panic)
  round next now heap candidate insert (map, some p, true) = (
    record { heap = heap; meta_map = store backend map (versioning_key (heap p)) (some p) },
    inserted p,
  )
  round next now heap candidate insert (map, some p, false) =
      conclude next map p (resolve now heap p candidate insert)

  -- GetOrInsert's loop. ReviseBy returns the candidate itself, so that it is `insert` throughout.
  unfoldable pub insert_loop :
      ℕ → ℕ → MetaStore backend → List ℕ → Option ℕ → ℕ → ℕ → MetaStore backend × Inserted
  unfolding round
  insert_loop zero now s key latest candidate insert = (s, Inserted.out_of_fuel)
  insert_loop (suc fuel) now s key latest candidate insert =
      round
        (λ heap map p.
          insert_loop fuel now (record { heap = heap; meta_map = map }) key (some p) candidate
            insert)
        now s.heap candidate insert (try_insert s.meta_map key latest candidate)

  -- With no other request between its steps, GetOrInsert is over after two rounds.
  unfoldable pub get_or_insert : ℕ → MetaStore backend → List ℕ → ℕ → MetaStore backend × Inserted
  unfolding insert_loop
  get_or_insert now s key insert = insert_loop 2 now s key none insert insert

  -- Get on what the map holds under a key; `next` goes on with the key of the previous version.
  unfoldable pub examine :
      (Heap → List ℕ → MetaStore backend × Found)
      → ℕ
      → MetaStore backend
      → Option Value
      → MetaStore backend × Found
  examine next now s none = (s, missing)
  examine next now s (some none) = (s, Found.nil_panic)
  examine next now s (some (some p)) =
      let (m, valid) = validate now (s.heap p) in
      let heap = update s.heap p m in
      if valid && is_created m
      then (record s { heap = heap }, found p)
      else if has_history m
      then next heap (key_by_version m m.last_version)
      else (record s { heap = heap }, missing)

  unfoldable pub get_loop : ℕ → ℕ → MetaStore backend → List ℕ → MetaStore backend × Found
  get_loop zero now s key = (s, Found.out_of_fuel)
  get_loop (suc fuel) now s key =
      examine (λ heap previous. get_loop fuel now (record s { heap = heap }) previous) now s
        (load backend s.meta_map key)

  unfoldable pub get_by_version : MetaStore backend → List ℕ → ℕ → Found
  get_by_version s key ver = elim (load backend s.meta_map (sanitized_key_by_version key ver)) [
    | none ↦ missing
    | some none ↦ Found.nil_panic
    | some (some p) ↦ if is_created (s.heap p) then found p else missing
  ]
