-- ===== src/InstanceMeta.antt =====
-- What the proxy knows of an instance, proxy/lambdastore/meta.go: the sizes, as uint64, and the
-- log that the instance and the proxy agree on, exchanged as common/types/types.go has it.
-- A rank, a float that is only copied, is a number; hashes are numbers.
pub mod Sizes
pub mod Logs
use lambda_objectstore.Base.{ℕ, ◌+◌, ◌-◌, ◌%◌, Bool, ltb, leb, ◌==◌, if◌then◌else◌}
use lambda_objectstore.Base.Int.{ℤ, pos, negsuc, ◌+ℤ◌}

-- 2 ^ 64 and 2 ^ 32
abbrev pub u64_bound : ℕ
u64_bound = 18446744073709551616

abbrev pub u32_bound : ℕ
u32_bound = 4294967296

-- uint64 of an int64.
abbrev pub u64_of : ℤ → ℕ
u64_of (pos n) = n % u64_bound
u64_of (negsuc n) = u64_bound - 1 - n % u64_bound

-- proxy/config/config.go
abbrev pub instance_overhead : ℕ
instance_overhead = 100000000

pub record InstanceMeta : Type 0 where
  pub term : ℕ
  pub updates : ℕ
  pub diff_rank : ℕ
  pub hash : ℕ
  pub snapshot_term : ℕ
  pub snapshot_updates : ℕ
  pub snapshot_size : ℕ
  pub stale : Bool
  pub capacity : ℕ
  pub effective : ℕ
  pub size : ℕ
  pub mem : ℕ
  pub size_modified : ℕ
  pub num_chunks : ℕ

unfoldable pub reset_capacity : ℕ → ℕ → InstanceMeta → InstanceMeta
reset_capacity capacity effective m =
    if effective == 0
    then record m {
      capacity = capacity;
      effective = (capacity + (u64_bound - instance_overhead)) % u64_bound;
    }
    else record m { capacity = capacity; effective = effective }

-- Each of the two returns the new size.
unfoldable pub increase_size : ℤ → InstanceMeta → InstanceMeta × ℕ
increase_size inc m =
    let size = (m.size + u64_of inc) % u64_bound in (record m { size = size }, size)

-- `^uint64(dec-1)` flips all bits.
unfoldable pub decrease_size : ℤ → InstanceMeta → InstanceMeta × ℕ
decrease_size dec m =
    let size = (m.size + (u64_bound - 1 - u64_of (dec +ℤ negsuc 0))) % u64_bound in
    (record m { size = size }, size)

-- The counter of chunks is an int32, kept as a number below 2 ^ 32.
unfoldable pub add_chunk : ℤ → InstanceMeta → InstanceMeta × ℕ × ℕ
unfolding increase_size
add_chunk sz m =
    let num = (m.num_chunks + 1) % u32_bound in
    let (m', size) = increase_size sz (record m { num_chunks = num }) in (m', num, size)

unfoldable pub remove_chunk : ℤ → InstanceMeta → InstanceMeta × ℕ × ℕ
unfolding decrease_size
remove_chunk sz m =
    let (m', size) = decrease_size sz m in
    let num = (m'.num_chunks + (u32_bound - 1)) % u32_bound in
    (record m' { num_chunks = num }, num, size)

-- types.Meta, without the tips, and types.ShortMeta.
pub record ProtocolMeta : Type 0 where
  pub id : ℕ
  pub term : ℕ
  pub updates : ℕ
  pub diff_rank : ℕ
  pub hash : ℕ
  pub snapshot_term : ℕ
  pub snapshot_updates : ℕ
  pub snapshot_size : ℕ

pub record ShortMeta : Type 0 where
  pub id : ℕ
  pub term : ℕ
  pub updates : ℕ
  pub diff_rank : ℕ
  pub hash : ℕ

-- The results of FromProtocolMeta: true, false and ErrInstanceReclaimed.
pub data Adoption : Type 0 where
  adopted outdated reclaimed : Adoption

unfoldable pub from_protocol_meta : ProtocolMeta → InstanceMeta → InstanceMeta × Adoption
from_protocol_meta meta m =
    if ltb meta.term m.term then (m, (if meta.term == 1 then reclaimed else outdated)) else (
      record m {
        term = meta.term;
        updates = meta.updates;
        diff_rank = meta.diff_rank;
        hash = meta.hash;
        snapshot_term = meta.snapshot_term;
        snapshot_updates = meta.snapshot_updates;
        snapshot_size = meta.snapshot_size;
      },
      adopted,
    )

unfoldable pub reconcile : ShortMeta → InstanceMeta → InstanceMeta
reconcile meta m = if leb meta.term m.term then m else record m {
  term = meta.term;
  updates = meta.updates;
  diff_rank = meta.diff_rank;
  hash = meta.hash;
}

unfoldable pub to_protocol_meta : ℕ → InstanceMeta → ProtocolMeta
to_protocol_meta id m = record {
  id = id;
  term = m.term;
  updates = m.updates;
  diff_rank = m.diff_rank;
  hash = m.hash;
  snapshot_term = m.snapshot_term;
  snapshot_updates = m.snapshot_updates;
  snapshot_size = m.snapshot_size;
}
