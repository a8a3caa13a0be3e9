-- ===== src/Metastore/Store/Insert.antt =====
-- GetOrInsert of proxy/server/metastore/metastore.go with no other request between its steps: how
-- it ends on each state of the store, and that it keeps the invariant.
use lambda_objectstore.Base.{
  ℕ, ◌+◌, ◌≡◌, refl, sym, ap, ◌≢◌, inl, inr, List, Bool, true, false, none, some, arith, not, ◌&&◌,
  if◌then◌else◌, ==_refl, ==_of_ne, ==_of_eq,
}
use lambda_objectstore.Base.Int.{ℤ, pos, ◌+ℤ◌}
use lambda_objectstore.HashMap.Interface.{Backend, key_eq}
use lambda_objectstore.HashMap.{HashMap, load, store}
use lambda_objectstore.HashMap.Count.{
  load_or_store_absent, load_or_store_present, compare_and_swap_present, load-store,
}
use lambda_objectstore.Keys.{meta_key_by_version}
use lambda_objectstore.Metastore.Meta.{
  Meta, flag_valid, has_flag, is_created, validate, revise_by, versioning_key,
}
use lambda_objectstore.Metastore.Store.{
  Heap, update, MetaStore, inserted, got, conflict, try_insert, resolve, close_extra, get_or_insert,
}
use lambda_objectstore.Metastore.Store.Invariant.{
  SameIdentity, validate-SameIdentity, update-SameIdentity, at_version,
}
use lambda_objectstore.Metastore.Store.Publish.{Published}

-- Another request is creating the object, and its deadline has not passed.
abbrev pub is_creating : ℕ → Meta → Bool
is_creating now m = (validate now m).1 && not (is_created (validate now m).0)

module _ (backend : Backend) (now : ℕ) (s : MetaStore backend) (key : List ℕ) (insert : ℕ) where
  open backend use {set, get-set}

  -- The map when `insert` was stored under `key`, and then under the key of its version.
  abbrev pub publish_map : ℤ → Meta → HashMap backend
  publish_map size m =
      store backend (record { state = set key (some insert) s.meta_map.state; size = size })
        (versioning_key m) (some insert)

  abbrev pub validated_heap : ℕ → Heap
  validated_heap p = update s.heap p (validate now (s.heap p)).0

  abbrev pub revised_heap : ℕ → Heap
  revised_heap p =
      update (validated_heap p) insert (revise_by (validated_heap p p) (validated_heap p insert))

  -- The map's part of a round, on each state of the map.
  abbrev pub entered : ℤ → HashMap backend
  entered size = record { state = set key (some insert) s.meta_map.state; size = size }

  first_absent :
      load backend s.meta_map key ≡ none
      → try_insert backend s.meta_map key none insert
        ≡ (entered (s.meta_map.size +ℤ pos 1), some insert, true)
  unfolding try_insert
  first_absent h = rw (load_or_store_absent backend s.meta_map key (some insert) h)

  pub get_or_insert_absent :
      load backend s.meta_map key ≡ none
      → get_or_insert backend now s key insert ≡ (
        record s { meta_map = publish_map (s.meta_map.size +ℤ pos 1) (s.heap insert) },
        inserted insert,
      )
  unfolding get_or_insert
  get_or_insert_absent h = rw (first_absent h)

  module _ (p : ℕ) (present : load backend s.meta_map key ≡ some (some p)) where
    first_present : try_insert backend s.meta_map key none insert ≡ (s.meta_map, some p, false)
    unfolding try_insert
    first_present = rw (load_or_store_present backend s.meta_map key (some insert) (some p) present)

    next_present :
        try_insert backend s.meta_map key (some p) insert
        ≡ (entered s.meta_map.size, some insert, true)
    unfolding try_insert
    next_present = compare_and_swap_present backend s.meta_map key p insert present

    pub get_or_insert_got :
        (s.heap p).initiator ≡ (s.heap insert).initiator
        → get_or_insert backend now s key insert ≡ (s, got p)
    unfolding get_or_insert
    get_or_insert_got e = rw (first_present, resolved)
      where
        resolved : resolve backend now s.heap p insert insert ≡ (s.heap, some (got p))
        resolved = unfold resolve close_extra in rw (==_of_eq e, ==_refl insert)

    module _ (other : (s.heap p).initiator ≢ (s.heap insert).initiator) where
      pub get_or_insert_conflict :
          is_creating now (s.heap p) ≡ true
          → get_or_insert backend now s key insert
            ≡ (record s { heap = validated_heap p }, conflict p)
      unfolding get_or_insert
      get_or_insert_conflict busy = rw (first_present, resolved)
        where
          resolved :
              resolve backend now s.heap p insert insert ≡ (validated_heap p, some (conflict p))
          resolved = unfold resolve close_extra in rw (==_of_ne other, busy, ==_refl insert)

      pub get_or_insert_revised :
          is_creating now (s.heap p) ≡ false
          → get_or_insert backend now s key insert ≡ (
            record {
              heap = revised_heap p;
              meta_map = publish_map s.meta_map.size (revised_heap p insert);
            },
            inserted insert,
          )
      unfolding get_or_insert
      get_or_insert_revised idle = rw (first_present, resolved, next_present)
        where
          resolved : resolve backend now s.heap p insert insert ≡ (revised_heap p, none)
          resolved = unfold resolve close_extra in rw (==_of_ne other, idle)

  -- What the two stores of a new version leave in the map.
  pub load-publish_map :
      (size : ℤ) (m : Meta) (ver : ℕ) (j : List ℕ)
      → m.key ≡ key
      → m.version ≡ ver
      → load backend (publish_map size m) j ≡ (
          if key_eq (meta_key_by_version key ver) j
          then some (some insert)
          else if key_eq key j
          then some (some insert)
          else load backend s.meta_map j)
  unfolding versioning_key load
  load-publish_map size m ver j k u = rw (
    load-store backend (entered size) (versioning_key m) j (some insert),
    k,
    u,
    get-set j key (some insert) s.meta_map.state,
  )

  -- The meta that a request brings: new, of this key, and not yet in the store.
  pub record IsNew : Type 0 where
    pub key_eq : (s.heap insert).key ≡ key
    pub version_eq : (s.heap insert).version ≡ 1
    pub last_version_eq : (s.heap insert).last_version ≡ 0
    pub valid : has_flag (s.heap insert).flags flag_valid ≡ true
    pub absent : (j : List ℕ) → load backend s.meta_map j ≢ some (some insert)

  pub absent-Published :
      IsNew
      → Published backend s s.heap
          (publish_map (s.meta_map.size +ℤ pos 1) (s.heap insert))
          key
          insert
          1
  absent-Published n = record {
    fresh = n.absent;
    same = λ q _. record { key_eq = refl; version_eq = refl; last_version_eq = refl };
    stored = λ j. load-publish_map _ (s.heap insert) 1 j n.key_eq n.version_eq;
    is_key = n.key_eq;
    is_version = n.version_eq;
    previous = omega (arith, n.last_version_eq);
    recorded = inl n.last_version_eq;
  }

  pub revised_others : (p q : ℕ) → q ≢ insert → revised_heap p q ≡ validated_heap p q
  revised_others p q d = rw (==_of_ne (λ e. d (sym e))) refl

  module _ (p : ℕ) (other : p ≢ insert) (n : IsNew) where
    pub revised_version : (revised_heap p insert).version ≡ (s.heap p).version + 1
    unfolding revise_by
    revised_version =
        rw (==_refl insert, ==_refl p)
          (ground (arith, (validate-SameIdentity now (s.heap p)).version_eq))

    revised_last_version : (revised_heap p insert).last_version ≡ (s.heap p).version
    unfolding revise_by
    revised_last_version =
        rw (==_refl insert, ==_refl p, ==_of_ne other, n.valid)
          (validate-SameIdentity now (s.heap p)).version_eq

    pub revised_insert : revised_heap p insert ≡ record (s.heap insert) {
      version = (s.heap p).version + 1;
      last_version = (s.heap p).version;
    }
    unfolding revise_by
    revised_insert =
        rw (==_refl insert, ==_refl p, ==_of_ne other, n.valid)
          (ap (λ v. record (s.heap insert) { version = v + 1; last_version = v })
            (validate-SameIdentity now (s.heap p)).version_eq)

    pub revised_key : (revised_heap p insert).key ≡ key
    unfolding revise_by
    revised_key = rw (==_refl insert, ==_of_ne other) n.key_eq

    pub revised_same : (q : ℕ) → q ≢ insert → SameIdentity (revised_heap p q) (s.heap q)
    revised_same q d =
        rw (==_of_ne (λ e. d (sym e)))
          (update-SameIdentity s.heap p q _ (validate-SameIdentity now (s.heap p)))

    pub revised-Published :
        (q : ℕ)
        → at_version backend s key (s.heap p).version ≡ some (some q)
        → Published backend s
            (revised_heap p)
            (publish_map s.meta_map.size (revised_heap p insert))
            key
            insert
            ((s.heap p).version + 1)
    revised-Published q entry = record {
      fresh = n.absent;
      same = revised_same;
      stored = λ j. load-publish_map _ (revised_heap p insert) _ j revised_key revised_version;
      is_key = revised_key;
      is_version = revised_version;
      previous = omega (arith, revised_last_version);
      recorded = inr (q, rw revised_last_version entry);
    }
