-- ===== src/HashMap/Interface.antt =====
-- What common/util/hashmap relies on of the concurrent map (github.com/orcaman/concurrent-map),
-- as its documentation states it, and an implementation as an association list.
use lambda_objectstore.Base.{
  ℕ, ◌+◌, ◌≡◌, refl, List, [], ◌∷◌, Bool, true, false, Option, none, some, arith, ◌&&◌, ◌==◌,
  if◌then◌else◌,
}

-- An interface value: a pointer, or nil.
abbrev pub Value : Type 0
Value = Option ℕ

abbrev pub value_eq : Value → Value → Bool
value_eq none none = true
value_eq (some a) (some b) = a == b
value_eq _ _ = false

-- Equality of keys, which are texts.
unfoldable pub key_eq : List ℕ → List ℕ → Bool
key_eq [] [] = true
key_eq (c ∷ k) (d ∷ l) = (c == d) && key_eq k l
key_eq _ _ = false

pub key_eq_refl : (k : List ℕ) → key_eq k k ≡ true
unfolding key_eq
key_eq_refl [] = refl
key_eq_refl (c ∷ k) = ground (arith, key_eq_refl k)

pub eq_of_key_eq : (k l : List ℕ) → key_eq k l ≡ true → k ≡ l
unfolding key_eq
eq_of_key_eq [] [] h = refl
eq_of_key_eq (c ∷ k) (d ∷ l) h = ground (arith, eq_of_key_eq k l)
eq_of_key_eq [] (d ∷ l) h = cc
eq_of_key_eq (c ∷ k) [] h = cc

-- The size is counted by Count; an entry is a value, nil included.
pub record Backend : Type 1 where
  pub State : Type 0
  pub empty : State
  pub get : List ℕ → State → Option Value
  pub count : State → ℕ
  pub set : List ℕ → Value → State → State
  -- Stores unless there is an entry, and tells whether it did.
  pub set_if_absent : List ℕ → Value → State → State × Bool
  -- Removes the entry and hands it to the callback.
  pub remove_cb : List ℕ → State → State × Option Value
  -- Stores what the function makes of the entry, if any.
  pub upsert : List ℕ → (Option Value → Value) → State → State
  pub get-empty : (k : List ℕ) → get k empty ≡ none
  pub count-empty : count empty ≡ 0
  pub get-set :
      (j k : List ℕ) (v : Value) (s : State)
      → get j (set k v s) ≡ (if key_eq k j then some v else get j s)
  pub count-set_present :
      (k : List ℕ) (v w : Value) (s : State) → get k s ≡ some w → count (set k v s) ≡ count s
  pub count-set_absent :
      (k : List ℕ) (v : Value) (s : State) → get k s ≡ none → count (set k v s) ≡ count s + 1
  pub set_if_absent_absent :
      (k : List ℕ) (v : Value) (s : State)
      → get k s ≡ none
      → set_if_absent k v s ≡ (set k v s, true)
  pub set_if_absent_present :
      (k : List ℕ) (v w : Value) (s : State) → get k s ≡ some w → set_if_absent k v s ≡ (s, false)
  pub remove_cb_value : (k : List ℕ) (s : State) → (remove_cb k s).1 ≡ get k s
  pub get-remove_cb :
      (j k : List ℕ) (s : State) → get j (remove_cb k s).0 ≡ (if key_eq k j then none else get j s)
  pub count-remove_cb_present :
      (k : List ℕ) (w : Value) (s : State)
      → get k s ≡ some w
      → count (remove_cb k s).0 + 1 ≡ count s
  pub count-remove_cb_absent :
      (k : List ℕ) (s : State) → get k s ≡ none → count (remove_cb k s).0 ≡ count s
  pub upsert_lem :
      (k : List ℕ) (f : Option Value → Value) (s : State) → upsert k f s ≡ set k (f (get k s)) s
