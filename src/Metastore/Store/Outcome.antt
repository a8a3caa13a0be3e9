-- ===== src/Metastore/Store/Outcome.antt =====
-- GetOrInsert of proxy/server/metastore/metastore.go as a whole: its three outcomes, and the
-- invariant of the store.
use lambda_objectstore.Base.{
  ℕ, ◌+◌, ◌≡◌, refl, ap₂, ◌≢◌, ◌⊎◌, inl, inr, List, true, false, none, some, arith, Bool-cases,
  Option-cases, ◌==◌,
}
use lambda_objectstore.HashMap.Interface.{Backend}
use lambda_objectstore.HashMap.{load}
use lambda_objectstore.Keys.Laws.{IsSanitized}
use lambda_objectstore.Metastore.Store.{MetaStore, Inserted, inserted, got, conflict, get_or_insert}
use lambda_objectstore.Metastore.Store.Invariant.{
  validate-SameIdentity, update-SameIdentity, at_version, IsVersioned, reheap-IsVersioned,
}
use lambda_objectstore.Metastore.Store.Publish.{Published, published-IsVersioned}
use lambda_objectstore.Metastore.Store.Insert.{
  is_creating, validated_heap, revised_others, get_or_insert_absent, get_or_insert_got,
  get_or_insert_conflict, get_or_insert_revised, IsNew, absent-Published, revised-Published,
  revised_insert,
}

-- What GetOrInsert makes of the store `s`, as the store `s'` and the result `r`.
pub data Outcome (backend : Backend) (now : ℕ) (s : MetaStore backend) (key : List ℕ) (insert : ℕ)
    : MetaStore backend × Inserted → Type 0 where
  -- The latest version was brought by the same request.
  same_request :
      (p : ℕ)
      → load backend s.meta_map key ≡ some (some p)
      → (s.heap p).initiator ≡ (s.heap insert).initiator
      → Outcome backend now s key insert (s, got p)
  -- Another request is creating the latest version.
  busy :
      (p : ℕ)
      → load backend s.meta_map key ≡ some (some p)
      → (s.heap p).initiator ≢ (s.heap insert).initiator
      → is_creating now (s.heap p) ≡ true
      → Outcome backend now s key insert
          (record s { heap = validated_heap backend now s key insert p }, conflict p)
  -- The meta is the next version, after the version `previous` or, with 0, none.
  next_version :
      (previous : ℕ) (s' : MetaStore backend)
      → ((load backend s.meta_map key ≡ none) × (previous ≡ 0) × ((q : ℕ) → s'.heap q ≡ s.heap q))
        ⊎ ((p : ℕ) × (load backend s.meta_map key ≡ some (some p))
            × ((s.heap p).initiator ≢ (s.heap insert).initiator)
            × (is_creating now (s.heap p) ≡ false)
            × (previous ≡ (s.heap p).version)
            × ((q : ℕ) → q ≢ insert → s'.heap q ≡ validated_heap backend now s key insert p q))
      → s'.heap insert ≡ record (s.heap insert) { version = previous + 1; last_version = previous }
      → Published backend s s'.heap s'.meta_map key insert (previous + 1)
      → Outcome backend now s key insert (s', inserted insert)

module _ (backend : Backend) (now : ℕ) (s : MetaStore backend) (key : List ℕ) (insert : ℕ)
    (c : IsSanitized key) (v : IsVersioned backend s) (n : IsNew backend now s key insert) where
  present-Outcome :
      (p : ℕ)
      → load backend s.meta_map key ≡ some (some p)
      → at_version backend s key (s.heap p).version ≡ some (some p)
      → Outcome backend now s key insert (get_or_insert backend now s key insert)
  present-Outcome p present entry =
      elim (Bool-cases ((s.heap p).initiator == (s.heap insert).initiator)) [
        | inl e ↦
            let same : (s.heap p).initiator ≡ (s.heap insert).initiator = ground arith in
            rw (get_or_insert_got backend now s key insert p present same)
              (same_request p present same)
        | inr e ↦
            let other : (s.heap p).initiator ≢ (s.heap insert).initiator = λ f. ground arith in
            let apart : p ≢ insert = λ f. n.absent key (rw f at present) in
            elim (Bool-cases (is_creating now (s.heap p))) [
              | inl b ↦
                  rw (get_or_insert_conflict backend now s key insert p present other b)
                    (busy p present other b)
              | inr b ↦ rw (get_or_insert_revised backend now s key insert p present other b) (
                  next_version (s.heap p).version _
                    (inr (
                      p,
                      present,
                      other,
                      b,
                      refl,
                      λ q d. revised_others backend now s key insert p q d,
                    ))
                    (revised_insert backend now s key insert p apart n)
                    (revised-Published backend now s key insert p apart n p entry))
            ]
      ]

  -- GetOrInsert on a store in order, with a new meta of a key without "@", ends in one of three
  -- ways, and never dereferences nil nor runs out of its two rounds: the meta of the same request
  -- is returned; or a conflict, just when another request is creating the latest version and its
  -- deadline has not passed; or the new meta becomes the version after the latest one, refers back
  -- to it, is otherwise as the request brought it, and is found under the key and the key of its
  -- version, while no other key and no other meta changes, but that the latest version is
  -- invalidated where its creation has expired.
  pub get_or_insert-Outcome :
      Outcome backend now s key insert (get_or_insert backend now s key insert)
  get_or_insert-Outcome = elim (Option-cases (load backend s.meta_map key)) [
    | inl e ↦ rw (get_or_insert_absent backend now s key insert e) (
        next_version 0 _ (inl (e, refl, λ q. refl))
          (ap₂ (λ v l. record (s.heap insert) { version = v; last_version = l }) n.version_eq
            n.last_version_eq)
          (absent-Published backend now s key insert n))
    | inr (x, e) ↦
        let (p, is, entry) = v.latest key x c e in present-Outcome p (ground (arith, e, is)) entry
  ]

Outcome-IsVersioned :
    (backend : Backend) (now : ℕ) (s : MetaStore backend) (key : List ℕ) (insert : ℕ)
    {r : MetaStore backend × Inserted}
    → IsSanitized key
    → IsVersioned backend s
    → Outcome backend now s key insert r
    → IsVersioned backend r.0
Outcome-IsVersioned backend now s key insert c v (same_request p _ _) = v
Outcome-IsVersioned backend now s key insert c v (busy p _ _ _) =
    reheap-IsVersioned backend s (validated_heap backend now s key insert p)
      (λ q. update-SameIdentity s.heap p q _ (validate-SameIdentity now (s.heap p))) v
Outcome-IsVersioned backend now s key insert c v (next_version previous s' _ _ p) =
    published-IsVersioned backend s s'.heap s'.meta_map key insert (previous + 1) c v p

-- GetOrInsert keeps the store in order: the entry of a key is its latest version, every version
-- that an entry names is there with its key, and the versions before it, down to the first, are
-- recorded without a gap.
pub get_or_insert-IsVersioned :
    (backend : Backend) (now : ℕ) (s : MetaStore backend) (key : List ℕ) (insert : ℕ)
    → IsSanitized key
    → IsVersioned backend s
    → IsNew backend now s key insert
    → IsVersioned backend (get_or_insert backend now s key insert).0
get_or_insert-IsVersioned backend now s key insert c v n =
    Outcome-IsVersioned backend now s key insert c v
      (get_or_insert-Outcome backend now s key insert c v n)
