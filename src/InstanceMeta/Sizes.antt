-- ===== src/InstanceMeta/Sizes.antt =====
-- The size of an instance over calls of AddChunk and RemoveChunk, proxy/lambdastore/meta.go.
use lambda_objectstore.Base.{ℕ, zero, suc, ◌+◌, ◌-◌, ◌%◌, ◌<◌, ◌≡◌, refl, List, [], ◌∷◌, arith}
use lambda_objectstore.Base.Int.{pos, negsuc, ◌+ℤ◌}
use lambda_objectstore.InstanceMeta.{
  u64_bound, u32_bound, u64_of, InstanceMeta, increase_size, decrease_size, add_chunk, remove_chunk,
}

pub data ChunkCall : Type 0 where
  adds removes : ℕ → ChunkCall

unfoldable pub run_chunk_call : ChunkCall → InstanceMeta → InstanceMeta
unfolding add_chunk remove_chunk
run_chunk_call (adds sz) m = (add_chunk (pos sz) m).0
run_chunk_call (removes sz) m = (remove_chunk (pos sz) m).0

unfoldable pub run_chunk_calls : List ChunkCall → InstanceMeta → InstanceMeta
unfolding run_chunk_call
run_chunk_calls [] m = m
run_chunk_calls (k ∷ ks) m = run_chunk_calls ks (run_chunk_call k m)

-- The bytes and the chunks that the calls add and remove.
abbrev pub bytes_added : List ChunkCall → ℕ
bytes_added [] = 0
bytes_added (adds sz ∷ ks) = sz + bytes_added ks
bytes_added (removes sz ∷ ks) = bytes_added ks

abbrev pub bytes_removed : List ChunkCall → ℕ
bytes_removed [] = 0
bytes_removed (adds sz ∷ ks) = bytes_removed ks
bytes_removed (removes sz ∷ ks) = sz + bytes_removed ks

abbrev pub chunks_added : List ChunkCall → ℕ
chunks_added [] = 0
chunks_added (adds sz ∷ ks) = 1 + chunks_added ks
chunks_added (removes sz ∷ ks) = chunks_added ks

abbrev pub chunks_removed : List ChunkCall → ℕ
chunks_removed [] = 0
chunks_removed (adds sz ∷ ks) = chunks_removed ks
chunks_removed (removes sz ∷ ks) = 1 + chunks_removed ks

-- The counters are below their bounds, and tell what was there before, what was added and what was
-- removed, as far as the width of the counters goes.
pub record IsAccounted (m : InstanceMeta) (ks : List ChunkCall) (m' : InstanceMeta) : Type 0 where
  pub size_bound : m'.size < u64_bound
  pub num_bound : m'.num_chunks < u32_bound
  pub size_eq : (m'.size + bytes_removed ks) % u64_bound ≡ (m.size + bytes_added ks) % u64_bound
  pub num_eq :
      (m'.num_chunks + chunks_removed ks) % u32_bound ≡ (m.num_chunks + chunks_added ks) % u32_bound

add_size : (sz : ℕ) (m : InstanceMeta) → (add_chunk (pos sz) m).0.size ≡ (m.size + sz) % u64_bound
unfolding add_chunk increase_size
add_size sz m = omega arith

u64_of_pred : (sz : ℕ) → u64_of (pos sz +ℤ negsuc 0) ≡ (sz + (u64_bound - 1)) % u64_bound
u64_of_pred zero = refl
u64_of_pred (suc n) = ground arith

remove_size :
    (sz : ℕ) (m : InstanceMeta)
    → ((remove_chunk (pos sz) m).0.size + sz) % u64_bound ≡ m.size % u64_bound
unfolding remove_chunk decrease_size
remove_size sz m = omega (arith, u64_of_pred sz)

call_bounds :
    (k : ChunkCall) (m : InstanceMeta)
    → ((run_chunk_call k m).size < u64_bound) × ((run_chunk_call k m).num_chunks < u32_bound)
unfolding run_chunk_call add_chunk remove_chunk increase_size decrease_size
call_bounds (adds sz) m = (omega arith, omega arith)
call_bounds (removes sz) m = (omega arith, omega arith)

call_nums :
    (k : ChunkCall) (m : InstanceMeta)
    → ((run_chunk_call k m).num_chunks + chunks_removed (k ∷ [])) % u32_bound
      ≡ (m.num_chunks + chunks_added (k ∷ [])) % u32_bound
unfolding run_chunk_call add_chunk remove_chunk increase_size decrease_size
call_nums (adds sz) m = omega arith
call_nums (removes sz) m = omega arith

call_sizes :
    (k : ChunkCall) (m : InstanceMeta)
    → ((run_chunk_call k m).size + bytes_removed (k ∷ [])) % u64_bound
      ≡ (m.size + bytes_added (k ∷ [])) % u64_bound
unfolding run_chunk_call
call_sizes (adds sz) m = omega (arith, add_size sz m)
call_sizes (removes sz) m = omega (arith, remove_size sz m)

-- After calls of AddChunk and RemoveChunk in any order, the size of the instance and its number of
-- chunks are what they were, plus what was added, less what was removed, modulo the widths of the
-- counters: also where a removal takes effect before the addition of its chunk.
pub run_chunk_calls-IsAccounted :
    (ks : List ChunkCall) (m : InstanceMeta)
    → m.size < u64_bound
    → m.num_chunks < u32_bound
    → IsAccounted m ks (run_chunk_calls ks m)
unfolding run_chunk_calls
run_chunk_calls-IsAccounted [] m hs hn = record {
  size_bound = hs;
  num_bound = hn;
  size_eq = refl;
  num_eq = refl;
}
run_chunk_calls-IsAccounted (k ∷ ks) m hs hn =
    let (bs, bn) = call_bounds k m in
    cons-IsAccounted k ks m (run_chunk_call k m) _ (call_sizes k m) (call_nums k m)
      (run_chunk_calls-IsAccounted ks (run_chunk_call k m) bs bn)
  where
    cons-IsAccounted :
        (k : ChunkCall) (ks : List ChunkCall) (m m1 m2 : InstanceMeta)
        → (m1.size + bytes_removed (k ∷ [])) % u64_bound
          ≡ (m.size + bytes_added (k ∷ [])) % u64_bound
        → (m1.num_chunks + chunks_removed (k ∷ [])) % u32_bound
          ≡ (m.num_chunks + chunks_added (k ∷ [])) % u32_bound
        → IsAccounted m1 ks m2
        → IsAccounted m (k ∷ ks) m2
    cons-IsAccounted (adds sz) ks m m1 m2 es en h = record {
      size_bound = h.size_bound;
      num_bound = h.num_bound;
      size_eq = omega (arith, es, h.size_eq);
      num_eq = omega (arith, en, h.num_eq);
    }
    cons-IsAccounted (removes sz) ks m m1 m2 es en h = record {
      size_bound = h.size_bound;
      num_bound = h.num_bound;
      size_eq = omega (arith, es, h.size_eq);
      num_eq = omega (arith, en, h.num_eq);
    }
