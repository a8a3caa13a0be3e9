-- ===== src/Metastore/Lru/Positions.antt =====
-- Positions of the objects of proxy/server/metastore/lru_placer.go: an object in an array knows its
-- index there, and so stands there once.
use lambda_objectstore.Base.{
  ℕ, ◌<◌, ◌≡◌, refl, sym, subst, ◌∙◌, ◌≢◌, List, [], ◌∷◌, ◌++◌, Bool, Option, some, arith, ◌==◌,
  length, get_elem?, inl, inr, Bool-cases, ==_refl, ==_of_ne, get_elem?_bounds,
  get_elem?-append_left, get_elem?-append_last, length-append,
}
use lambda_objectstore.Metastore.Meta.{LruPlacerMeta}
use lambda_objectstore.Metastore.Store.{Heap}
use lambda_objectstore.Metastore.Lru.{
  Side, side_0, side_1, pos, set_pos, modify_at, LruPlacer, objects, set_objects,
}

-- The meta is in the placer, and its position on the side is `i`.
abbrev pub HasPos : Side → Heap → ℕ → ℕ → Type 0
HasPos side heap m i = (pm : LruPlacerMeta) × ((heap m).placer_meta ≡ some pm) × (pos side pm ≡ i)

pub HasPos-unique :
    (side : Side) (heap : Heap) (m i j : ℕ) → HasPos side heap m i → HasPos side heap m j → i ≡ j
HasPos-unique side heap m i j (pm, a, b) (pm', a', b') = cc

-- Every object in the array, from index 1 on, has its index for its position.
abbrev pub IsPlaced : Side → Heap → List (Option ℕ) → Type 0
IsPlaced side heap xs = (i m : ℕ) → 0 < i → get_elem? xs i ≡ some (some m) → HasPos side heap m i

-- So no object stands there twice.
pub IsPlaced-unique :
    (side : Side) (heap : Heap) (xs : List (Option ℕ)) (i j m : ℕ)
    → IsPlaced side heap xs
    → 0 < i
    → 0 < j
    → get_elem? xs i ≡ some (some m)
    → get_elem? xs j ≡ some (some m)
    → i ≡ j
IsPlaced-unique side heap xs i j m h pi pj ei ej =
    let (pm, a, b) = h i m pi ei in let (pm', a', b') = h j m pj ej in cc

pub HasPos-other :
    (side : Side) (f : LruPlacerMeta → LruPlacerMeta) (heap : Heap) (p m i : ℕ)
    → p ≢ m
    → HasPos side heap m i
    → HasPos side (modify_at p f heap) m i
HasPos-other side f heap p m i d (pm, a, b) = (pm, rw (==_of_ne d) a, b)

pub HasPos-modify :
    (side : Side) (f : LruPlacerMeta → LruPlacerMeta) (heap : Heap) (m i j : ℕ)
    → ((pm : LruPlacerMeta) → pos side pm ≡ i → pos side (f pm) ≡ j)
    → HasPos side heap m i
    → HasPos side (modify_at m f heap) m j
HasPos-modify side f heap m i j h (pm, a, b) = (f pm, rw (==_refl m) (ground (arith, a)), h pm b)

pub pos-set_pos : (side : Side) (n : ℕ) (pm : LruPlacerMeta) → pos side (set_pos side n pm) ≡ n
pos-set_pos side_0 n pm = refl
pos-set_pos side_1 n pm = refl

pos-set_pos_ne :
    (side other : Side) (n : ℕ) (pm : LruPlacerMeta)
    → side ≢ other
    → pos other (set_pos side n pm) ≡ pos other pm
pos-set_pos_ne side_0 side_0 n pm d = absurd (d refl)
pos-set_pos_ne side_0 side_1 n pm d = refl
pos-set_pos_ne side_1 side_0 n pm d = refl
pos-set_pos_ne side_1 side_1 n pm d = absurd (d refl)

-- A write of the position on one side.
pub HasPos-set_pos :
    (side : Side) (heap : Heap) (m i n : ℕ)
    → HasPos side heap m i
    → HasPos side (modify_at m (set_pos side n) heap) m n
HasPos-set_pos side heap m i n h =
    HasPos-modify side (set_pos side n) heap m i n (λ pm _. pos-set_pos side n pm) h

-- The position on a side survives a write of a position on the other side.
pub HasPos-set_pos_ne :
    (side other : Side) (heap : Heap) (p m i n : ℕ)
    → side ≢ other
    → HasPos other heap m i
    → HasPos other (modify_at p (set_pos side n) heap) m i
HasPos-set_pos_ne side other heap p m i n d h = elim (Bool-cases (p == m)) [
  | inl e ↦
      let same : m ≡ p = ground arith in
      subst (λ q. HasPos other (modify_at p (set_pos side n) heap) q i) (sym same)
        (HasPos-modify other (set_pos side n) heap p i i
          (λ pm b. pos-set_pos_ne side other n pm d ∙ b)
          (subst (λ q. HasPos other heap q i) same h))
  | inr e ↦ HasPos-other other (set_pos side n) heap p m i (λ f. ground arith) h
]

-- The positions survive a visit.
pub HasPos-visited :
    (side : Side) (heap : Heap) (p m i : ℕ) (b : Bool)
    → HasPos side heap m i
    → HasPos side (modify_at p (λ pm. record pm { visited = b }) heap) m i
HasPos-visited side heap p m i b h = elim (Bool-cases (p == m)) [
  | inl e ↦
      let same : m ≡ p = ground arith in
      let f : LruPlacerMeta → LruPlacerMeta = λ pm. record pm { visited = b } in
      subst (λ q. HasPos side (modify_at p f heap) q i) (sym same)
        (HasPos-modify side f heap p i i (λ pm q. pos_visited side pm ∙ q)
          (subst (λ q. HasPos side heap q i) same h))
  | inr e ↦ HasPos-other side _ heap p m i (λ f. ground arith) h
]
  where
    pos_visited :
        (side : Side) (pm : LruPlacerMeta) → pos side (record pm { visited = b }) ≡ pos side pm
    pos_visited side_0 pm = refl
    pos_visited side_1 pm = refl

pub objects-set_objects :
    (side : Side) (xs : List (Option ℕ)) (p : LruPlacer) → objects side (set_objects side xs p) ≡ xs
objects-set_objects side_0 xs p = refl
objects-set_objects side_1 xs p = refl

pub objects-set_objects_ne :
    (side other : Side) (xs : List (Option ℕ)) (p : LruPlacer)
    → side ≢ other
    → objects other (set_objects side xs p) ≡ objects other p
objects-set_objects_ne side_0 side_0 xs p d = absurd (d refl)
objects-set_objects_ne side_0 side_1 xs p d = refl
objects-set_objects_ne side_1 side_0 xs p d = refl
objects-set_objects_ne side_1 side_1 xs p d = absurd (d refl)

-- An object appended to an array in order, where it does not stand yet, knows its position.
pub append-IsPlaced :
    (side : Side) (heap : Heap) (xs : List (Option ℕ)) (m i : ℕ)
    → HasPos side heap m i
    → ((j q : ℕ) → 0 < j → get_elem? xs j ≡ some (some q) → m ≢ q)
    → IsPlaced side heap xs
    → IsPlaced side (modify_at m (set_pos side (length xs)) heap) (xs ++ some m ∷ [])
append-IsPlaced side heap xs m i here absent h j q low at = elim (Bool-cases (j == length xs)) [
  | inl e ↦
      let last : j ≡ length xs = ground arith in
      let is : q ≡ m = ground (arith, get_elem?-append_last xs (some m), rw last at at) in
      rw (is, last) (HasPos-set_pos side heap m i (length xs) here)
  | inr e ↦
      let inside : j < length xs =
        ground (arith, get_elem?_bounds _ j at, length-append xs (some m ∷ [])) in
      let old : get_elem? xs j ≡ some (some q) =
        sym (get_elem?-append_left xs (some m ∷ []) j inside) ∙ at in
      HasPos-other side _ heap m q j (absent j q low old) (h j q low old)
]
