-- ===== src/Metastore/Store/Publish.antt =====
-- The store of proxy/server/metastore/metastore.go after a version is published: a meta stored
-- under its object's key and under the key of its version.
use lambda_objectstore.Base.{
  ℕ, ◌+◌, ◌≡◌, sym, subst, ◌∙◌, ◌≢◌, ◌⊎◌, inl, inr, List, true, false, some, arith, if◌then◌else◌,
  Bool-cases,
}
use lambda_objectstore.HashMap.Interface.{Backend, Value, key_eq, key_eq_refl, eq_of_key_eq}
use lambda_objectstore.HashMap.{HashMap, load}
use lambda_objectstore.Keys.{meta_key_by_version}
use lambda_objectstore.Keys.Laws.{
  IsSanitized, meta_key_by_version-injective, meta_key_by_version-ne_sanitized,
}
use lambda_objectstore.Metastore.Store.{Heap, MetaStore}
use lambda_objectstore.Metastore.Store.Invariant.{SameIdentity, at_version, IsEntry, IsVersioned}

pub key_eq_of_ne : (k l : List ℕ) → k ≢ l → key_eq k l ≡ false
key_eq_of_ne k l h = elim (Bool-cases (key_eq k l)) [
  | inl e ↦ absurd (h (eq_of_key_eq k l e))
  | inr e ↦ e
]

-- The meta `insert` of version `ver` of `key` is published, in the heap `heap` and the map `map`.
pub record Published (backend : Backend) (s : MetaStore backend) (heap : Heap)
    (map : HashMap backend) (key : List ℕ) (insert ver : ℕ) : Type 0 where
  pub fresh : (j : List ℕ) → load backend s.meta_map j ≢ some (some insert)
  pub same : (q : ℕ) → q ≢ insert → SameIdentity (heap q) (s.heap q)
  pub stored :
      (j : List ℕ)
      → load backend map j ≡ (
          if key_eq (meta_key_by_version key ver) j
          then some (some insert)
          else if key_eq key j
          then some (some insert)
          else load backend s.meta_map j)
  pub is_key : (heap insert).key ≡ key
  pub is_version : (heap insert).version ≡ ver
  pub previous : (heap insert).last_version + 1 ≡ ver
  pub recorded :
      ((heap insert).last_version ≡ 0)
      ⊎ ((q : ℕ) × (at_version backend s key (heap insert).last_version ≡ some (some q)))

module _ (backend : Backend) (s : MetaStore backend) (heap : Heap) (map : HashMap backend)
    (key : List ℕ) (insert ver : ℕ) (c : IsSanitized key) (v : IsVersioned backend s)
    (p : Published backend s heap map key insert ver) where
  abbrev published : MetaStore backend
  published = record { heap = heap; meta_map = map }

  at_version-published :
      (key' : List ℕ) (ver' : ℕ)
      → at_version backend published key' ver' ≡ (
          if key_eq (meta_key_by_version key ver) (meta_key_by_version key' ver')
          then some (some insert)
          else at_version backend s key' ver')
  at_version-published key' ver' = rw (
    p.stored (meta_key_by_version key' ver'),
    key_eq_of_ne key (meta_key_by_version key' ver')
        (λ e. meta_key_by_version-ne_sanitized key' key ver' c (sym e)),
  )

  recorded_published :
      (key' : List ℕ) (w q : ℕ)
      → at_version backend s key' w ≡ some (some q)
      → (r : ℕ) × (at_version backend published key' w ≡ some (some r))
  recorded_published key' w q h =
      elim (Bool-cases (key_eq (meta_key_by_version key ver) (meta_key_by_version key' w))) [
        | inl e ↦ (insert, rw (at_version-published key' w, e))
        | inr e ↦ (q, rw (at_version-published key' w, e) h)
      ]

  new-IsEntry : (key' : List ℕ) → key ≡ key' → IsEntry backend published key' ver insert
  new-IsEntry key' k = record {
    key_eq = p.is_key ∙ k;
    version_eq = p.is_version;
    previous = p.previous;
    recorded = elim p.recorded [
      | inl zero ↦ inl zero
      | inr (q, f) ↦
          let w = (heap insert).last_version in
          inr (
            recorded_published key' w q (subst (λ j. at_version backend s j w ≡ some (some q)) k f))
    ];
  }

  old-IsEntry :
      (key' : List ℕ) (w q : ℕ)
      → q ≢ insert
      → IsEntry backend s key' w q
      → IsEntry backend published key' w q
  old-IsEntry key' w q other entry =
      let kept = p.same q other in
      record {
        key_eq = kept.key_eq ∙ entry.key_eq;
        version_eq = kept.version_eq ∙ entry.version_eq;
        previous = omega (arith, kept.last_version_eq, entry.previous);
        recorded = rw kept.last_version_eq (elim entry.recorded [
          | inl zero ↦ inl zero
          | inr (r, f) ↦ inr (recorded_published key' _ r f)
        ]);
      }

  IsEntry-published :
      (key' : List ℕ) (w : ℕ) (x : Value)
      → IsSanitized key'
      → at_version backend published key' w ≡ some x
      → (q : ℕ) × (x ≡ some q) × IsEntry backend published key' w q
  IsEntry-published key' w x c' h =
      elim (Bool-cases (key_eq (meta_key_by_version key ver) (meta_key_by_version key' w))) [
        | inl e ↦
            let (k, u) = meta_key_by_version-injective key key' ver w c c' (eq_of_key_eq _ _ e) in
            (
              insert,
              ground (arith, at_version-published key' w, e),
              subst (λ n. IsEntry backend published key' n insert) u (new-IsEntry key' k),
            )
        | inr e ↦
            let old : at_version backend s key' w ≡ some x =
              ground (arith, at_version-published key' w, e) in
            let (q, is, entry) = v.versions key' w x c' old in
            (q, is, old-IsEntry key' w q (λ same. p.fresh (meta_key_by_version key' w) (cc)) entry)
      ]

  latest_published :
      (key' : List ℕ) (x : Value)
      → IsSanitized key'
      → load backend map key' ≡ some x
      → (q : ℕ) × (x ≡ some q)
        × (at_version backend published key' (heap q).version ≡ some (some q))
  latest_published key' x c' h =
      let at =
        rw
          (key_eq_of_ne (meta_key_by_version key ver) key'
            (meta_key_by_version-ne_sanitized key key' ver c'))
          at (p.stored key') in
      elim (Bool-cases (key_eq key key')) [
        | inl e ↦
            let k = eq_of_key_eq key key' e in
            (
              insert,
              ground (arith, at, e),
              rw (
                at_version-published key' (heap insert).version,
                p.is_version,
                ← k,
                key_eq_refl (meta_key_by_version key ver),
              ),
            )
        | inr e ↦
            let old : load backend s.meta_map key' ≡ some x = ground (arith, at, e) in
            let (q, is, entry) = v.latest key' x c' old in
            let other : q ≢ insert = λ same. p.fresh key' (cc) in
            let kept = p.same q other in
            let apart =
              key_eq_of_ne (meta_key_by_version key ver)
                (meta_key_by_version key' (s.heap q).version)
                (λ f. absurd (
                  false_of key' e
                    (meta_key_by_version-injective key key' ver (s.heap q).version c c' f).0)) in
            (q, is, rw (kept.version_eq, at_version-published key' (s.heap q).version, apart) entry)
      ]
    where
      false_of : (k : List ℕ) → key_eq key k ≡ false → key ≡ k → ⊥
      false_of k e f =
          ground (arith, e, key_eq_refl key, subst (λ l. key_eq key l ≡ true) f (key_eq_refl key))

  pub published-IsVersioned : IsVersioned backend (record { heap = heap; meta_map = map })
  published-IsVersioned = record { latest = latest_published; versions = IsEntry-published }
