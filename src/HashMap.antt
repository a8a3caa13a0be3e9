-- ===== src/HashMap.antt =====
-- The hash map with string keys of common/util/hashmap (hashmap.go, mapcounter.go): a counter
-- over a concurrent map of a third party, which is the parameter `backend`.
-- A value is an interface that holds a pointer, or nil (`none`).
pub mod Interface
pub mod Assoc
pub mod Count
use lambda_objectstore.Base.{ℕ, List, Bool, true, false, Option, none, some, if◌then◌else◌}
use lambda_objectstore.Base.Int.{ℤ, pos, negsuc, ◌+ℤ◌}
use Interface.{Backend, Value, value_eq}

-- MapCounter over cMapWrapper.
pub record HashMap (backend : Backend) : Type 0 where
  pub state : backend.State
  pub size : ℤ

-- What the callback of Upsert leaves in the map: the new value, where the old one was expected.
-- A missing entry is handed to the callback as nil.
abbrev pub swapped_in : Value → Value → Option Value → Value
swapped_in old new none = if value_eq none old then new else none
swapped_in old new (some v) = if value_eq v old then new else v

abbrev pub matches : Value → Option Value → Bool
matches old none = value_eq none old
matches old (some v) = value_eq v old

module _ (backend : Backend) where
  open backend use {State, get, set, set_if_absent, remove_cb, upsert}

  unfoldable pub load : HashMap backend → List ℕ → Option Value
  load m key = get key m.state

  -- The callback of RemoveCb answers true: the entry is removed in any case.
  unfoldable pub load_and_delete : HashMap backend → List ℕ → HashMap backend × Option Value
  load_and_delete m key =
      let (state, removed) = remove_cb key m.state in
      elim removed [
        | none ↦ (record m { state = state }, none)
        | some v ↦ (record { state = state; size = m.size +ℤ negsuc 0 }, some v)
      ]

  unfoldable pub delete : HashMap backend → List ℕ → HashMap backend
  unfolding load_and_delete
  delete m key = (load_and_delete m key).0

  -- The second part of the result tells whether the value was there before.
  unfoldable pub load_or_store :
      HashMap backend → List ℕ → Value → HashMap backend × Option Value × Bool
  unfolding load
  load_or_store m key value =
      let (state, absent) = set_if_absent key value m.state in
      if absent
      then (record { state = state; size = m.size +ℤ pos 1 }, some value, false)
      else (record m { state = state }, get key state, true)

  unfoldable pub store : HashMap backend → List ℕ → Value → HashMap backend
  unfolding load_or_store
  store m key value =
      let (m', loaded_value, loaded) = load_or_store m key value in
      if loaded then record m' { state = set key value m'.state } else m'

  -- The first part of the result is the value that the map holds afterwards.
  unfoldable pub compare_and_swap :
      HashMap backend → List ℕ → Value → Value → HashMap backend × Value × Bool
  compare_and_swap m key old new =
      let entry = get key m.state in
      (
        record m { state = upsert key (swapped_in old new) m.state },
        swapped_in old new entry,
        matches old entry,
      )

  abbrev pub len : HashMap backend → ℤ
  len m = m.size
