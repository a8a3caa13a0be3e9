-- ===== src/Metastore/Store/Invariant.antt =====
-- What holds of the store of proxy/server/metastore/metastore.go between calls, under the keys
-- that hold no "@", and that a published version keeps it.
use lambda_objectstore.Base.{
  ℕ, ◌+◌, ◌≡◌, refl, subst, ◌∙◌, ◌⊎◌, inl, inr, List, Option, some, arith, ◌==◌, Bool-cases,
}
use lambda_objectstore.HashMap.Interface.{Backend, Value}
use lambda_objectstore.HashMap.{load}
use lambda_objectstore.Keys.{meta_key_by_version}
use lambda_objectstore.Keys.Laws.{IsSanitized}
use lambda_objectstore.Metastore.Meta.{Meta, validate, confirm_created}
use lambda_objectstore.Metastore.Store.{Heap, update, MetaStore}

-- What the store reads of a meta to find its versions.
pub record SameIdentity (m n : Meta) : Type 0 where
  pub key_eq : m.key ≡ n.key
  pub version_eq : m.version ≡ n.version
  pub last_version_eq : m.last_version ≡ n.last_version

pub validate-SameIdentity : (now : ℕ) (m : Meta) → SameIdentity (validate now m).0 m
unfolding validate
validate-SameIdentity now m = ground arith

pub confirm_created-SameIdentity : (m : Meta) → SameIdentity (confirm_created m) m
unfolding confirm_created
confirm_created-SameIdentity m = ground arith

pub update-SameIdentity :
    (heap : Heap) (p q : ℕ) (m : Meta)
    → SameIdentity m (heap p)
    → SameIdentity (update heap p m q) (heap q)
update-SameIdentity heap p q m h = elim (Bool-cases (p == q)) [
  | inl e ↦ let same : p ≡ q = ground arith in rw e (subst (λ r. SameIdentity m (heap r)) same h)
  | inr e ↦ rw e (record { key_eq = refl; version_eq = refl; last_version_eq = refl })
]

module _ (backend : Backend) where
  abbrev pub at_version : MetaStore backend → List ℕ → ℕ → Option Value
  at_version s key ver = load backend s.meta_map (meta_key_by_version key ver)

  -- The entry is the meta of this key and version, and the version before it has an entry too.
  pub record IsEntry (s : MetaStore backend) (key : List ℕ) (ver p : ℕ) : Type 0 where
    pub key_eq : (s.heap p).key ≡ key
    pub version_eq : (s.heap p).version ≡ ver
    pub previous : (s.heap p).last_version + 1 ≡ ver
    pub recorded :
        ((s.heap p).last_version ≡ 0)
        ⊎ ((q : ℕ) × (at_version s key (s.heap p).last_version ≡ some (some q)))

  pub record IsVersioned (s : MetaStore backend) : Type 0 where
    -- The entry of a key is its latest version, which has an entry of its own.
    pub latest :
        (key : List ℕ) (v : Value)
        → IsSanitized key
        → load backend s.meta_map key ≡ some v
        → (p : ℕ) × (v ≡ some p) × (at_version s key (s.heap p).version ≡ some (some p))
    pub versions :
        (key : List ℕ) (ver : ℕ) (v : Value)
        → IsSanitized key
        → at_version s key ver ≡ some v
        → (p : ℕ) × (v ≡ some p) × IsEntry s key ver p

  -- A heap that keeps the identities of the metas keeps the invariant.
  pub reheap-IsVersioned :
      (s : MetaStore backend) (heap : Heap)
      → ((q : ℕ) → SameIdentity (heap q) (s.heap q))
      → IsVersioned s
      → IsVersioned (record s { heap = heap })
  reheap-IsVersioned s heap same v = record {
    latest = λ key w c e.
        let (p, here, entry) = v.latest key w c e in (p, here, rw ((same p).version_eq) entry);
    versions = λ key ver w c e.
        let (p, here, entry) = v.versions key ver w c e in
        (
          p,
          here,
          record {
            key_eq = (same p).key_eq ∙ entry.key_eq;
            version_eq = (same p).version_eq ∙ entry.version_eq;
            previous = omega (arith, (same p).last_version_eq, entry.previous);
            recorded = rw ((same p).last_version_eq) entry.recorded;
          },
        );
  }
