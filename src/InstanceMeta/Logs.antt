-- ===== src/InstanceMeta/Logs.antt =====
-- The exchange of log metadata of proxy/lambdastore/meta.go.
use lambda_objectstore.Base.{
  ℕ, ◌≤◌, ◌<◌, ◌≡◌, refl, List, [], ◌∷◌, arith, ltb, leb, ◌==◌, if◌then◌else◌, inl, inr, Bool-cases,
}
use lambda_objectstore.InstanceMeta.{
  InstanceMeta, ProtocolMeta, ShortMeta, Adoption, adopted, outdated, reclaimed, from_protocol_meta,
  reconcile, to_protocol_meta,
}

-- What an instance may send, after a recovery or while it serves.
pub data Report : Type 0 where
  full : ProtocolMeta → Report
  short : ShortMeta → Report

abbrev pub report_term : Report → ℕ
report_term (full meta) = meta.term
report_term (short meta) = meta.term

unfoldable pub receive : Report → InstanceMeta → InstanceMeta
unfolding from_protocol_meta reconcile
receive (full meta) m = (from_protocol_meta meta m).0
receive (short meta) m = reconcile meta m

unfoldable pub receive_all : List Report → InstanceMeta → InstanceMeta
unfolding receive
receive_all [] m = m
receive_all (r ∷ rs) m = receive_all rs (receive r m)

abbrev pub max : ℕ → ℕ → ℕ
max a b = if leb a b then b else a

-- The latest term among reports and a first one.
abbrev pub latest_term : ℕ → List Report → ℕ
latest_term term [] = term
latest_term term (r ∷ rs) = latest_term (max term (report_term r)) rs

receive_term : (r : Report) (m : InstanceMeta) → (receive r m).term ≡ max m.term (report_term r)
unfolding receive from_protocol_meta reconcile
receive_term (full meta) m = ground arith
receive_term (short meta) m = ground arith

receive_sizes :
    (r : Report) (m : InstanceMeta)
    → ((receive r m).size ≡ m.size) × ((receive r m).num_chunks ≡ m.num_chunks)
unfolding receive from_protocol_meta reconcile
receive_sizes (full meta) m = (ground arith, ground arith)
receive_sizes (short meta) m = (ground arith, ground arith)

-- Reports of an instance, full or short and in any order, leave the proxy at the latest of their
-- terms and its own, so that the term never goes back, and do not touch the sizes.
pub receive_all_term :
    (rs : List Report) (m : InstanceMeta)
    → ((receive_all rs m).term ≡ latest_term m.term rs)
      × ((receive_all rs m).size ≡ m.size)
      × ((receive_all rs m).num_chunks ≡ m.num_chunks)
unfolding receive_all
receive_all_term [] m = (refl, refl, refl)
receive_all_term (r ∷ rs) m =
    let (e, s, n) = receive_all_term rs (receive r m) in
    let (s1, n1) = receive_sizes r m in (rw (receive_term r m) at e, cc, cc)

-- An instance that is given the metadata of another by a protocol meta agrees with it on the log,
-- exactly when its own term is not later; else it keeps its own, and takes the other for a reclaimed
-- one where that is at its first term.
pub from_protocol_meta-to_protocol_meta :
    (id : ℕ) (m other : InstanceMeta)
    → let r : InstanceMeta × Adoption = from_protocol_meta (to_protocol_meta id other) m in
      (m.term ≤ other.term
        → (r.1 ≡ adopted) × (to_protocol_meta id r.0 ≡ to_protocol_meta id other))
      × (other.term < m.term
          → (r.0 ≡ m) × (r.1 ≡ (if other.term == 1 then reclaimed else outdated)))
unfolding from_protocol_meta to_protocol_meta
from_protocol_meta-to_protocol_meta id m other = elim (Bool-cases (ltb other.term m.term)) [
  | inl e ↦ (λ le. absurd (ground arith), λ lt. rw e (refl, refl))
  | inr e ↦ (λ le. rw e (refl, refl), λ lt. absurd (ground arith))
]
