-- ===== src/Metastore/Placer.antt =====
-- The operations of the placer of proxy/server/metastore/lru_placer.go that handlers call: an object
-- is looked up in the store, and its chunks are placed or read. Events before the placing and the
-- dispatch of the request to the instance are left out.
pub mod Read
use lambda_objectstore.Base.{
  ℕ, List, Bool, true, false, Option, none, some, if◌then◌else◌, get_elem?, set,
}
use lambda_objectstore.HashMap.Interface.{Backend}
use lambda_objectstore.InstanceMeta.{InstanceMeta}
use lambda_objectstore.Metastore.Meta.{
  Meta, LruPlacerMeta, fresh, spent, new_meta, close, is_deleted,
}
use lambda_objectstore.Metastore.Store.{
  Heap, update, MetaStore, Inserted, inserted, got, conflict, Found, found, missing, get_or_insert,
  get_loop, get_by_version,
}
use lambda_objectstore.Metastore.Lru.{LruPlacer, Clock, touch_object}
use lambda_objectstore.Metastore.Placement.{Placing, placed, index_panic, find_placement}

-- NewMeta of the placer, for a chunk that the client assigned to the instance `lambda_id`; a
-- slice that comes with the recycled object is set back.
unfoldable pub new_placer_object : Meta → ℕ → ℕ → List ℕ → ℕ → ℕ → ℕ → ℕ → ℕ → ℕ → ℕ → Meta
unfolding new_meta
new_placer_object m now req_id key size d p chunk chunk_size lambda_id slice_size =
    let meta = new_meta m now req_id key size d p chunk_size in
    record meta {
      slice = some (record { size = slice_size; range = none });
      placement = set meta.placement chunk lambda_id;
      last_chunk = chunk;
    }

-- postProcess: the object that the action is called with, if it is called. The action may have
-- been called by another chunk already.
unfoldable pub post_process : LruPlacerMeta → LruPlacerMeta × Option (Option ℕ)
post_process pm = elim pm.once [
  | some fresh ↦ (record pm { once = some spent; evicts = none }, some pm.evicts)
  | _ ↦ (pm, none)
]

-- A chunk that is out of the range of the confirmed ones makes the source panic.
pub data Confirmation : Type 0 where
  confirmed unconfirmed no_chunk : Confirmation

abbrev pub confirmation : ℕ → Meta → Confirmation
confirmation chunk m = elim m.placer_meta [
  | none ↦ unconfirmed
  | some pm ↦ elim (get_elem? pm.confirmed chunk) [
    | none ↦ no_chunk
    | some true ↦ confirmed
    | some false ↦ unconfirmed
  ]
]

-- How Get of the placer ends.
pub data Got : Type 0 where
  got_meta : ℕ → Got
  got_nothing got_panic out_of_fuel : Got

module _ (backend : Backend) where
  -- The placer with its store; the store has the metas.
  pub record PlacerState : Type 0 where
    pub store : MetaStore backend
    pub placer : LruPlacer
    pub instances : ℕ → InstanceMeta
    pub slice_base : ℕ
    pub cap : ℕ

  abbrev pub clock_of : PlacerState → Clock
  clock_of st = record { heap = st.store.heap; placer = st.placer }

  abbrev pub placing_of : PlacerState → Placing
  placing_of st = record {
    clock = clock_of st;
    instances = st.instances;
    slice_base = st.slice_base;
    cap = st.cap;
  }

  abbrev pub set_metas : Heap → PlacerState → PlacerState
  set_metas heap st = record st { store = record st.store { heap = heap } }

  abbrev pub set_placing : Placing → PlacerState → PlacerState
  set_placing w st = record {
    store = record st.store { heap = w.clock.heap };
    placer = w.clock.placer;
    instances = w.instances;
    slice_base = w.slice_base;
    cap = w.cap;
  }

  -- What follows the confirmation of the chunk.
  unfoldable pub touch_confirmed : PlacerState → ℕ → Confirmation → PlacerState × Got
  unfolding touch_object
  touch_confirmed st p confirmed = (set_metas (touch_object p (clock_of st)).heap st, got_meta p)
  touch_confirmed st p unconfirmed = (st, got_nothing)
  touch_confirmed st p no_chunk = (st, got_panic)

  -- What Get and GetByVersion do with what the store found.
  unfoldable pub check_found : ℕ → PlacerState → Found → PlacerState × Got
  unfolding touch_confirmed
  check_found chunk st (found p) =
      if is_deleted (st.store.heap p)
      then (st, got_meta p)
      else touch_confirmed st p (confirmation chunk (st.store.heap p))
  check_found chunk st missing = (st, got_nothing)
  check_found chunk st Found.nil_panic = (st, got_panic)
  check_found chunk st Found.out_of_fuel = (st, out_of_fuel)

  unfoldable pub placer_get : ℕ → ℕ → List ℕ → ℕ → PlacerState → PlacerState × Got
  unfolding get_loop check_found
  placer_get fuel now key chunk st =
      let (s, r) = get_loop backend fuel now st.store key in
      check_found chunk (record st { store = s }) r

  unfoldable pub placer_get_by_version : List ℕ → ℕ → ℕ → PlacerState → PlacerState × Got
  unfolding get_by_version check_found
  placer_get_by_version key ver chunk st =
      check_found chunk st (get_by_version backend st.store key ver)

  -- How InsertAndPlace ends: the meta and its place; ErrConcurrentCreation; a panic; or a search
  -- for a replacement that is longer than its fuel.
  pub data Inserting : Type 0 where
    placed_at : ℕ → ℕ → Bool → Inserting
    conflicting insert_panic unplaced : Inserting

  -- The chunk of the meta is placed.
  unfoldable pub place_chunk : ℕ → ℕ → ℕ → PlacerState → PlacerState × Inserting
  unfolding find_placement
  place_chunk fuel p chunk st = elim (find_placement fuel p chunk (placing_of st)) [
    | none ↦ (st, unplaced)
    | some (w, placed id post) ↦ (set_placing w st, placed_at p id post)
    | some (w, index_panic) ↦ (set_placing w st, insert_panic)
  ]

  abbrev pub close_meta : ℕ → PlacerState → PlacerState
  close_meta p st = set_metas (update st.store.heap p (close (st.store.heap p))) st

  -- The placement that the new meta brings for a chunk is copied to a meta that was there already.
  abbrev pub bring_placement : ℕ → ℕ → ℕ → PlacerState → PlacerState
  bring_placement p insert chunk st =
      let m = st.store.heap p in
      elim (get_elem? (st.store.heap insert).placement chunk) [
        | none ↦ st
        | some id ↦
            set_metas (update st.store.heap p (record m { placement = set m.placement chunk id }))
              st
      ]

  -- What InsertAndPlace does with the result of GetOrInsert.
  unfoldable pub place_inserted : ℕ → ℕ → ℕ → PlacerState → Inserted → PlacerState × Inserting
  unfolding place_chunk close
  place_inserted fuel insert chunk st (inserted p) = place_chunk fuel p chunk st
  place_inserted fuel insert chunk st (got p) = elim (confirmation chunk (st.store.heap p)) [
    | confirmed ↦ place_chunk fuel p chunk (close_meta insert st)
    | unconfirmed ↦ place_chunk fuel p chunk (close_meta insert (bring_placement p insert chunk st))
    | no_chunk ↦ (st, insert_panic)
  ]
  place_inserted fuel insert chunk st (conflict p) = (close_meta insert st, conflicting)
  place_inserted fuel insert chunk st Inserted.nil_panic = (st, insert_panic)
  place_inserted fuel insert chunk st Inserted.out_of_fuel = (st, unplaced)

  unfoldable pub insert_and_place : ℕ → ℕ → List ℕ → ℕ → PlacerState → PlacerState × Inserting
  unfolding get_or_insert place_inserted
  insert_and_place fuel now key insert st =
      let chunk = (st.store.heap insert).last_chunk in
      let (s, r) = get_or_insert backend now st.store key insert in
      place_inserted fuel insert chunk (record st { store = s }) r
