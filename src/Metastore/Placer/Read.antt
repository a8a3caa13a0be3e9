-- ===== src/Metastore/Placer/Read.antt =====
-- Get of the placer of proxy/server/metastore/lru_placer.go, and what the Clock LRU makes of it.
use lambda_objectstore.Base.{
  ℕ, ◌≡◌, ◌≢◌, ◌⊎◌, inl, inr, refl, sym, ap, ◌∙◌, List, true, Option, some, Bool-cases,
  Option-cases, subst, ==_refl, ==_of_ne,
}
use lambda_objectstore.HashMap.Interface.{Backend}
use lambda_objectstore.Metastore.Meta.{Meta, LruPlacerMeta, is_deleted}
use lambda_objectstore.Metastore.Store.{Heap, Found, found, missing, get_loop}
use lambda_objectstore.Metastore.Lru.{
  Clock, placer_meta_of, all_confirmed, judge, second_chance, touch_object, modify,
}
use lambda_objectstore.Metastore.Placer.{
  PlacerState, got_meta, Confirmation, confirmed, unconfirmed, no_chunk, confirmation,
  touch_confirmed, check_found, placer_get,
}

-- The clock does not take the object for a victim when it comes to it, whatever object needs room.
abbrev pub IsSpared : Heap → ℕ → Type 0
IsSpared heap p =
    (meta : ℕ) (candidate : Option ℕ) → p ≢ meta → judge heap meta p candidate ≡ second_chance

touched-IsSpared :
    (c : Clock) (p : ℕ) (pm : LruPlacerMeta)
    → (c.heap p).placer_meta ≡ some pm
    → all_confirmed pm ≡ true
    → IsSpared (touch_object p c).heap p
unfolding touch_object judge
touched-IsSpared c p pm e whole meta candidate d = rw (==_refl p, e, ==_of_ne d, whole) refl

-- A meta that was handed out for a chunk.
abbrev pub IsReadable : ℕ → Heap → ℕ → Type 0
IsReadable chunk heap p =
    (is_deleted (heap p) ≡ true)
    ⊎ ((confirmation chunk (heap p) ≡ confirmed)
        × (all_confirmed (placer_meta_of (heap p)) ≡ true → IsSpared heap p))

-- Confirmation and completeness do not depend on the visit.
visited_kept :
    (chunk : ℕ) (m : Meta)
    → (confirmation chunk (modify (λ pm. record pm { visited = true }) m) ≡ confirmation chunk m)
      × (all_confirmed (placer_meta_of (modify (λ pm. record pm { visited = true }) m))
          ≡ all_confirmed (placer_meta_of m))
visited_kept chunk m = elim (Option-cases m.placer_meta) [
  | inl e ↦ (rw e refl, rw e refl)
  | inr (pm, e) ↦ (rw e refl, rw e refl)
]

confirmed_meta :
    (chunk : ℕ) (m : Meta)
    → confirmation chunk m ≡ confirmed
    → (pm : LruPlacerMeta) × (m.placer_meta ≡ some pm)
confirmed_meta chunk m e = elim (Option-cases m.placer_meta) [
  | inl f ↦ absurd (unequal (rw f at e))
  | inr h ↦ h
]
  where
    unequal : unconfirmed ≡ confirmed → ⊥
    unequal e = cc

touched-IsReadable :
    (chunk : ℕ) (c : Clock) (p : ℕ)
    → confirmation chunk (c.heap p) ≡ confirmed
    → IsReadable chunk (touch_object p c).heap p
touched-IsReadable chunk c p e =
    let (pm, f) = confirmed_meta chunk (c.heap p) e in
    let (same, complete) = visited_kept chunk (c.heap p) in
    let at : (touch_object p c).heap p ≡ modify (λ q. record q { visited = true }) (c.heap p) =
      touched in
    inr (
      ap (confirmation chunk) at ∙ same ∙ e,
      λ h. touched-IsSpared c p pm f (
          sym (ap (λ o. all_confirmed (placer_meta_of (record (c.heap p) { placer_meta = o }))) f)
          ∙ sym complete
          ∙ sym (ap (λ v. all_confirmed (placer_meta_of v)) at)
          ∙ h),
    )
  where
    touched : (touch_object p c).heap p ≡ modify (λ q. record q { visited = true }) (c.heap p)
    touched = unfold touch_object in rw (==_refl p) refl

module _ (backend : Backend) where
  got_same : {p q : ℕ} → got_meta p ≡ got_meta q → p ≡ q
  got_same e = cc

  touch-IsReadable :
      (chunk : ℕ) (st : PlacerState backend) (q p : ℕ) (v : Confirmation)
      → confirmation chunk (st.store.heap q) ≡ v
      → (touch_confirmed backend st q v).1 ≡ got_meta p
      → IsReadable chunk (touch_confirmed backend st q v).0.store.heap p
  unfolding touch_confirmed
  touch-IsReadable chunk st q p confirmed e f =
      subst
        (IsReadable chunk
          (touch_object q (record { heap = st.store.heap; placer = st.placer })).heap)
        (got_same f)
        (touched-IsReadable chunk (record { heap = st.store.heap; placer = st.placer }) q e)
  touch-IsReadable chunk st q p unconfirmed e f = absurd cc
  touch-IsReadable chunk st q p no_chunk e f = absurd cc

  check-IsReadable :
      (chunk : ℕ) (st : PlacerState backend) (r : Found) (p : ℕ)
      → (check_found backend chunk st r).1 ≡ got_meta p
      → IsReadable chunk (check_found backend chunk st r).0.store.heap p
  unfolding check_found
  check-IsReadable chunk st (found q) p = elim (Bool-cases (is_deleted (st.store.heap q))) [
    | inl d ↦ deleted d
    | inr d ↦ rw d (touch-IsReadable chunk st q p (confirmation chunk (st.store.heap q)) refl)
  ]
    where
      deleted :
          is_deleted (st.store.heap q) ≡ true
          → (check_found backend chunk st (found q)).1 ≡ got_meta p
          → IsReadable chunk (check_found backend chunk st (found q)).0.store.heap p
      deleted d =
          rw (d, check_found) (λ f. subst (IsReadable chunk st.store.heap) (got_same f) (inl d))
  check-IsReadable chunk st missing p = λ f. absurd cc
  check-IsReadable chunk st Found.nil_panic p = λ f. absurd cc
  check-IsReadable chunk st Found.out_of_fuel p = λ f. absurd cc

  -- When Get of the placer hands out a meta for a chunk, the object is deleted, or the chunk is
  -- confirmed, and if all its chunks are, the Clock LRU passes over the object the next time it
  -- comes to it, whatever object needs room then.
  pub placer_get-IsReadable :
      (fuel now : ℕ) (key : List ℕ) (chunk p : ℕ) (st : PlacerState backend)
      → (placer_get backend fuel now key chunk st).1 ≡ got_meta p
      → IsReadable chunk (placer_get backend fuel now key chunk st).0.store.heap p
  unfolding placer_get
  placer_get-IsReadable fuel now key chunk p st e =
      let x = get_loop backend fuel now st.store key in
      check-IsReadable chunk (record st { store = x.0 }) x.1 p e
