-- ===== src/HashMap/Count.antt =====
-- The counter of common/util/hashmap/mapcounter.go against the entries of the map below it, and
-- the map that each operation leaves.
use lambda_objectstore.Base.{
  ℕ, ◌≡◌, refl, List, true, false, Option, none, some, arith, if◌then◌else◌, inl, inr, Option-cases,
  ==_refl, ap, sym, ◌∙◌, ◌+◌,
}
use lambda_objectstore.Base.Int.{pos, ◌+ℤ◌}
use lambda_objectstore.HashMap.Interface.{Backend, Value, key_eq, key_eq_refl}
use lambda_objectstore.HashMap.{
  HashMap, load, delete, load_or_store, store, compare_and_swap, swapped_in,
}

module _ (backend : Backend) where
  open backend use {
    State, get, count, set, set_if_absent, remove_cb, upsert, get-set, count-set_present,
    count-set_absent, set_if_absent_absent, set_if_absent_present, remove_cb_value, get-remove_cb,
    count-remove_cb_present, count-remove_cb_absent, upsert_lem,
  }

  abbrev pub IsCounted : HashMap backend → Type 0
  IsCounted m = m.size ≡ pos (count m.state)

  pub load_or_store_absent :
      (m : HashMap backend) (key : List ℕ) (v : Value)
      → load backend m key ≡ none
      → load_or_store backend m key v
        ≡ (record { state = set key v m.state; size = m.size +ℤ pos 1 }, some v, false)
  unfolding load load_or_store
  load_or_store_absent m key v h = rw (set_if_absent_absent key v m.state h)

  pub load_or_store_present :
      (m : HashMap backend) (key : List ℕ) (v w : Value)
      → load backend m key ≡ some w
      → load_or_store backend m key v ≡ (m, some w, true)
  unfolding load load_or_store
  load_or_store_present m key v w h =
      rw (set_if_absent_present key v w m.state h) (ap (λ (r : Option Value). (m, r, true)) h)

  pub store_absent :
      (m : HashMap backend) (key : List ℕ) (v : Value)
      → load backend m key ≡ none
      → store backend m key v ≡ record { state = set key v m.state; size = m.size +ℤ pos 1 }
  unfolding store
  store_absent m key v h = rw (load_or_store_absent m key v h)

  pub store_present :
      (m : HashMap backend) (key : List ℕ) (v w : Value)
      → load backend m key ≡ some w
      → store backend m key v ≡ record m { state = set key v m.state }
  unfolding store
  store_present m key v w h = rw (load_or_store_present m key v w h)

  -- After a store a load finds the value under the key, and what was there under any other.
  pub load-store :
      (m : HashMap backend) (key j : List ℕ) (v : Value)
      → load backend (store backend m key v) j ≡ (if key_eq key j then some v else load backend m j)
  unfolding load
  load-store m key j v = elim (Option-cases (get key m.state)) [
    | inl e ↦ rw (store_absent m key v e) (get-set j key v m.state)
    | inr (w, e) ↦ rw (store_present m key v w e) (get-set j key v m.state)
  ]

  pub store-IsCounted :
      (m : HashMap backend) (key : List ℕ) (v : Value)
      → IsCounted m
      → IsCounted (store backend m key v)
  unfolding load
  store-IsCounted m key v h = elim (Option-cases (get key m.state)) [
    | inl e ↦ rw (store_absent m key v e) (ground (arith, count-set_absent key v m.state e))
    | inr (w, e) ↦
        rw (store_present m key v w e) (ground (arith, count-set_present key v w m.state e))
  ]

  pub load_or_store-IsCounted :
      (m : HashMap backend) (key : List ℕ) (v : Value)
      → IsCounted m
      → IsCounted (load_or_store backend m key v).0
  unfolding load
  load_or_store-IsCounted m key v h = elim (Option-cases (get key m.state)) [
    | inl e ↦ rw (load_or_store_absent m key v e) (ground (arith, count-set_absent key v m.state e))
    | inr (w, e) ↦ rw (load_or_store_present m key v w e) h
  ]

  pub delete-IsCounted :
      (m : HashMap backend) (key : List ℕ) → IsCounted m → IsCounted (delete backend m key)
  unfolding delete
  delete-IsCounted m key h = elim (Option-cases (get key m.state)) [
    | inl e ↦
        rw (remove_cb_value key m.state ∙ e, delete)
          (ground (arith, count-remove_cb_absent key m.state e))
    | inr (w, e) ↦
        rw (remove_cb_value key m.state ∙ e, delete)
          (ground (arith, count-remove_cb_present key w m.state e))
  ]

  -- A swap on a present entry that holds the old value puts the new one in its place.
  pub compare_and_swap_present :
      (m : HashMap backend) (key : List ℕ) (p new : ℕ)
      → load backend m key ≡ some (some p)
      → compare_and_swap backend m key (some p) (some new)
        ≡ (record m { state = set key (some new) m.state }, some new, true)
  unfolding load compare_and_swap
  compare_and_swap_present m key p new h =
      rw (upsert_lem key (swapped_in (some p) (some new)) m.state, h, ==_refl p)

  pub compare_and_swap-IsCounted :
      (m : HashMap backend) (key : List ℕ) (old new v : Value)
      → load backend m key ≡ some v
      → IsCounted m
      → IsCounted (compare_and_swap backend m key old new).0
  unfolding load compare_and_swap
  compare_and_swap-IsCounted m key old new v e h =
      rw (upsert_lem key (swapped_in old new) m.state)
        (h ∙ ap pos (sym (count-set_present key _ v m.state e)))

  -- On a key that is missing, a swap for a pointer fails, and yet it leaves an entry, nil, under
  -- the key, which the counter does not count.
  compare_and_swap_missing :
      (m : HashMap backend) (key : List ℕ) (old : ℕ) (new : Value)
      → load backend m key ≡ none
      → let (m', v, swapped) = compare_and_swap backend m key (some old) new in
        (swapped ≡ false)
        × (load backend m' key ≡ some none)
        × (m'.size ≡ m.size)
        × (count m'.state ≡ count m.state + 1)
  unfolding load compare_and_swap
  compare_and_swap_missing m key old new e =
      rw (upsert_lem key (swapped_in (some old) new) m.state, e)
        (
          refl,
          ground (arith, get-set key key none m.state, key_eq_refl key),
          refl,
          count-set_absent key none m.state e,
        )

  -- What a run does to the map; a swap is on a key that is there.
  pub data Step (m : HashMap backend) : HashMap backend → Type 0 where
    stores : (key : List ℕ) (v : Value) → Step m (store backend m key v)
    loads_or_stores : (key : List ℕ) (v : Value) → Step m (load_or_store backend m key v).0
    deletes : (key : List ℕ) → Step m (delete backend m key)
    swaps :
        (key : List ℕ) (old new v : Value)
        → load backend m key ≡ some v
        → Step m (compare_and_swap backend m key old new).0

  pub data Reach (m : HashMap backend) : HashMap backend → Type 0 where
    here : Reach m m
    next : {n o : HashMap backend} → Reach m n → Step n o → Reach m o

  pub Step-IsCounted : {m n : HashMap backend} → Step m n → IsCounted m → IsCounted n
  Step-IsCounted {m} (stores key v) h = store-IsCounted m key v h
  Step-IsCounted {m} (loads_or_stores key v) h = load_or_store-IsCounted m key v h
  Step-IsCounted {m} (deletes key) h = delete-IsCounted m key h
  Step-IsCounted {m} (swaps key old new v e) h = compare_and_swap-IsCounted m key old new v e h

  -- After any sequence of stores, conditional stores, deletions and swaps on present keys, Len()
  -- is the number of entries of the map below.
  pub Reach-IsCounted : {m n : HashMap backend} → IsCounted m → Reach m n → IsCounted n
  Reach-IsCounted h here = h
  Reach-IsCounted h (next r s) = Step-IsCounted s (Reach-IsCounted h r)
