-- ===== src/HashMap/Assoc.antt =====
-- An association list meets what common/util/hashmap relies on.
use lambda_objectstore.Base.{
  ℕ, ◌+◌, ◌≡◌, refl, ap, List, [], ◌∷◌, Bool, true, false, Option, none, some, arith, if◌then◌else◌,
  inl, inr, Bool-cases,
}
use lambda_objectstore.HashMap.Interface.{Value, Backend, key_eq, key_eq_refl, eq_of_key_eq}

-- A removed entry is `none` and stays in its place.
abbrev pub Entries : Type 0
Entries = List (List ℕ × Option Value)

pub get : List ℕ → Entries → Option Value
get k [] = none
get k ((j, v) ∷ s) = let rest = get k s in if key_eq j k then v else rest

abbrev pub is_there : Option Value → ℕ
is_there none = 0
is_there (some v) = 1

pub count : Entries → ℕ
count [] = 0
count ((j, v) ∷ s) = is_there v + count s

pub put : List ℕ → Option Value → Entries → Entries
put k v [] = (k, v) ∷ []
put k v ((j, w) ∷ s) = let rest = put k v s in if key_eq j k then (j, v) ∷ s else (j, w) ∷ rest

pub set_if_absent : List ℕ → Value → Entries → Entries × Bool
set_if_absent k v s = elim (get k s) [ none ↦ (put k (some v) s, true) | some w ↦ (s, false) ]

key_eq_trans_true : (i j k : List ℕ) → key_eq i j ≡ true → key_eq j k ≡ key_eq i k
key_eq_trans_true i j k h = ap (λ x. key_eq x k) (sym' (eq_of_key_eq i j h))
  where
    sym' : {x y : List ℕ} → x ≡ y → y ≡ x
    sym' p = cc

pub get-put :
    (j k : List ℕ) (v : Option Value) (s : Entries)
    → get j (put k v s) ≡ (if key_eq k j then v else get j s)
unfolding get put
get-put j k v [] = refl
get-put j k v ((i, w) ∷ s) = elim (Bool-cases (key_eq i k)) [
  | inl same ↦ ground (arith, same, key_eq_trans_true i k j same)
  | inr other ↦ elim (Bool-cases (key_eq i j)) [
    | inl here ↦ elim (Bool-cases (key_eq k j)) [
      | inl hit ↦
          let e : i ≡ k = cc (eq_of_key_eq i j here, eq_of_key_eq k j hit) in
          absurd (ground (arith, key_eq_refl k, ap (λ x. key_eq x k) e))
      | inr miss ↦ ground (arith, get-put j k v s)
    ]
    | inr there ↦ ground (arith, get-put j k v s)
  ]
]

count-put :
    (k : List ℕ) (v : Option Value) (s : Entries)
    → count (put k v s) + is_there (get k s) ≡ count s + is_there v
unfolding get put count
count-put k v [] = omega arith
count-put k v ((i, w) ∷ s) = elim (Bool-cases (key_eq i k)) [
  | inl e ↦ rw e (omega arith)
  | inr e ↦ rw e (omega (arith, count-put k v s))
]

pub count_present :
    (k : List ℕ) (v w : Value) (s : Entries) → get k s ≡ some w → count (put k (some v) s) ≡ count s
count_present k v w s h = omega (arith, count-put k (some v) s, ap is_there h)

pub count_absent :
    (k : List ℕ) (v : Value) (s : Entries) → get k s ≡ none → count (put k (some v) s) ≡ count s + 1
count_absent k v s h = omega (arith, count-put k (some v) s, ap is_there h)

pub count_removed :
    (k : List ℕ) (w : Value) (s : Entries) → get k s ≡ some w → count (put k none s) + 1 ≡ count s
count_removed k w s h = omega (arith, count-put k none s, ap is_there h)

pub count_kept : (k : List ℕ) (s : Entries) → get k s ≡ none → count (put k none s) ≡ count s
count_kept k s h = omega (arith, count-put k none s, ap is_there h)

pub set_if_absent_absent :
    (k : List ℕ) (v : Value) (s : Entries)
    → get k s ≡ none
    → set_if_absent k v s ≡ (put k (some v) s, true)
unfolding set_if_absent
set_if_absent_absent k v s h = rw (h, set_if_absent)

pub set_if_absent_present :
    (k : List ℕ) (v w : Value) (s : Entries) → get k s ≡ some w → set_if_absent k v s ≡ (s, false)
unfolding set_if_absent
set_if_absent_present k v w s h = rw (h, set_if_absent)

unfoldable pub assoc_backend : Backend
unfolding get put count set_if_absent
assoc_backend = record {
  State = Entries;
  empty = [];
  get = get;
  count = count;
  set = λ k v. put k (some v);
  set_if_absent = set_if_absent;
  remove_cb = λ k s. (put k none s, get k s);
  upsert = λ k f s. put k (some (f (get k s))) s;
  get-empty = λ k. refl;
  count-empty = refl;
  get-set = λ j k v s. get-put j k (some v) s;
  count-set_present = λ k v w s h. count_present k v w s h;
  count-set_absent = λ k v s h. count_absent k v s h;
  set_if_absent_absent = set_if_absent_absent;
  set_if_absent_present = set_if_absent_present;
  remove_cb_value = λ k s. refl;
  get-remove_cb = λ j k s. get-put j k none s;
  count-remove_cb_present = λ k w s h. count_removed k w s h;
  count-remove_cb_absent = λ k s h. count_kept k s h;
  upsert_lem = λ k f s. refl;
}
