-- ===== src/Metastore/Meta.antt =====
-- An object's metadata and the operations on it, proxy/server/metastore/meta.go. Texts that are
-- only compared, such as request ids, are numbers; a time is a number of seconds; a placement is
-- a list of instance ids, and its capacity beyond the list is part of the pooled record.
use lambda_objectstore.Base.{
  ℕ, ◌+◌, ◌/◌, ◌%◌, List, Bool, true, false, Option, none, ◌&&◌, ◌==◌, ltb, if◌then◌else◌,
  replicate,
}
use lambda_objectstore.Base.Int.{pos}
use lambda_objectstore.WaitGroup.{WaitGroup, add, done}
use lambda_objectstore.Keys.{sanitize_key, meta_key_by_version, chunk_key}

-- lru_placer.go: the state of a sync.Once, when there is one.
pub data Once : Type 0 where
  fresh spent : Once

-- lru_placer.go, LRUPlacerMeta. The time of the visit is only written there, and left out.
-- `pos_0` and `pos_1` are the positions on the two arrays; `evicts` is a pointer to a meta.
pub record LruPlacerMeta : Type 0 where
  pub pos_0 : ℕ
  pub pos_1 : ℕ
  pub visited : Bool
  pub confirmed : List Bool
  pub num_confirmed : ℕ
  pub swap_map : List ℕ
  pub evicts : Option ℕ
  pub once : Option Once

-- proxy/server/cluster/static_cluster.go, Slice: `range` is the base and the capacity, once known.
pub record Slice : Type 0 where
  pub size : ℕ
  pub range : Option (ℕ × ℕ)

pub record Meta : Type 0 where
  pub key : List ℕ
  pub size : ℕ
  pub d_chunks : ℕ
  pub p_chunks : ℕ
  pub placement : List ℕ
  pub chunk_size : ℕ
  pub version : ℕ
  pub version_ts : ℕ
  pub last_version : ℕ
  pub initiator : ℕ
  pub flags : ℕ
  pub slice : Option Slice
  pub deadline : ℕ
  pub placer_meta : Option LruPlacerMeta
  pub last_chunk : ℕ
  pub confirmed : WaitGroup

abbrev pub flag_valid : ℕ
flag_valid = 0x01

abbrev pub flag_created : ℕ
flag_created = 0x02

abbrev pub flag_deleted : ℕ
flag_deleted = 0x04

-- `flags & flag > 0` and `flags |= flag`, for a flag that is a power of two.
abbrev pub has_flag : ℕ → ℕ → Bool
has_flag flags flag = flags / flag % 2 == 1

abbrev pub set_flag : ℕ → ℕ → ℕ
set_flag flags flag = if has_flag flags flag then flags else flags + flag

-- initPlacement: a recycled placement that is large enough is cut and cleared, which makes the
-- same values as a new one.
unfoldable pub init_placement : List ℕ → ℕ → List ℕ
init_placement p sz = replicate sz 0

abbrev pub num_chunks : Meta → ℕ
num_chunks m = m.d_chunks + m.p_chunks

-- NewMeta, on an object `m` from the pool: the slice, the last chunk and the wait group are the
-- recycled object's.
unfoldable pub new_meta : Meta → ℕ → ℕ → List ℕ → ℕ → ℕ → ℕ → ℕ → Meta
unfolding sanitize_key init_placement add
new_meta m now req_id key size d p chunk_size = record m {
  key = sanitize_key key;
  size = size;
  d_chunks = d;
  p_chunks = p;
  placement = init_placement m.placement (d + p);
  chunk_size = chunk_size;
  version = 1;
  version_ts = now;
  last_version = 0;
  initiator = req_id;
  flags = flag_valid;
  deadline = 0;
  placer_meta = none;
  confirmed = add (pos 1) m.confirmed;
}

-- ReviseBy: `m.ReviseBy(newMeta)` writes to the new meta and returns it.
unfoldable pub revise_by : Meta → Meta → Meta
revise_by m meta =
    let last_version = if has_flag meta.flags flag_valid then m.version else m.last_version in
    record meta { version = m.version + 1; last_version = last_version }

unfoldable pub versioning_key : Meta → List ℕ
unfolding meta_key_by_version
versioning_key m = meta_key_by_version m.key m.version

unfoldable pub key_by_version : Meta → ℕ → List ℕ
unfolding meta_key_by_version
key_by_version m ver = meta_key_by_version m.key ver

unfoldable pub meta_chunk_key : Meta → ℕ → List ℕ
unfolding chunk_key
meta_chunk_key m chunk_id = chunk_key chunk_id m.key m.version

unfoldable pub has_history : Meta → Bool
has_history m = ltb 0 m.last_version

abbrev pub is_valid : Meta → Bool
is_valid m = has_flag m.flags flag_valid

abbrev pub is_created : Meta → Bool
is_created m = has_flag m.flags flag_created

abbrev pub is_deleted : Meta → Bool
is_deleted m = has_flag m.flags flag_deleted

unfoldable pub invalidate : Meta → Meta
unfolding done
invalidate m =
    if m.flags == flag_valid then record m { flags = 0; confirmed = done m.confirmed } else m

unfoldable pub validate : ℕ → Meta → Meta × Bool
unfolding invalidate
validate now m =
    if is_created m
    then (m, true)
    else if is_valid m && ltb m.deadline now
    then (invalidate m, false)
    else (m, is_valid m)

unfoldable pub confirm_created : Meta → Meta
unfolding done
confirm_created m =
    if m.flags == flag_valid
    then record m { flags = flag_created + flag_valid; confirmed = done m.confirmed }
    else m

unfoldable pub delete : Meta → Meta
delete m = record m { flags = set_flag m.flags flag_deleted }

-- `timeout` is a time.Duration, a number of nanoseconds.
unfoldable pub set_timeout : ℕ → Meta → Meta
set_timeout timeout m = record m { deadline = m.version_ts + timeout }

-- close, without the return to the pool.
unfoldable pub close : Meta → Meta
unfolding invalidate
close m = invalidate m

-- Whether Wait() returns.
abbrev pub wait_returns : Meta → Bool
wait_returns m = elim m.confirmed.counter [ pos n ↦ n == 0 | _ ↦ false ]
