-- ===== src/Tests/Instances.antt =====
-- The metadata of instances at concrete inputs.
use lambda_objectstore.Base.{ℕ, ◌<◌, ◌≤◌, ◌≡◌, [], ◌∷◌, false, arith}
use lambda_objectstore.InstanceMeta.{
  InstanceMeta, ShortMeta, adopted, reclaimed, from_protocol_meta, to_protocol_meta,
}
use lambda_objectstore.InstanceMeta.Sizes.{
  adds, removes, run_chunk_calls, IsAccounted, run_chunk_calls-IsAccounted,
}
use lambda_objectstore.InstanceMeta.Logs.{
  full, short, receive_all, receive_all_term, from_protocol_meta-to_protocol_meta,
}

-- An instance of this capacity and size, at term 3.
abbrev pub instance_of : ℕ → ℕ → InstanceMeta
instance_of capacity size = record {
  term = 3;
  updates = 7;
  diff_rank = 0;
  hash = 11;
  snapshot_term = 1;
  snapshot_updates = 2;
  snapshot_size = 5;
  stale = false;
  capacity = capacity;
  effective = capacity;
  size = size;
  mem = 0;
  size_modified = 0;
  num_chunks = 0;
}

run_chunk_calls-IsAccounted_example :
    IsAccounted
      (instance_of 100 20)
      (removes 15 ∷ adds 15 ∷ adds 4 ∷ [])
      (run_chunk_calls (removes 15 ∷ adds 15 ∷ adds 4 ∷ []) (instance_of 100 20))
run_chunk_calls-IsAccounted_example =
    run_chunk_calls-IsAccounted (removes 15 ∷ adds 15 ∷ adds 4 ∷ []) (instance_of 100 20)
      (omega arith) (omega arith)

abbrev report_of : ℕ → ShortMeta
report_of term = record { id = 1; term = term; updates = 9; diff_rank = 0; hash = 12 }

receive_all_term_example :
    ((receive_all
        (short (report_of 5) ∷ full (to_protocol_meta 1 (instance_of 100 20)) ∷ [])
        (instance_of 100 20)).term
      ≡ 5)
    × ((receive_all
          (short (report_of 5) ∷ full (to_protocol_meta 1 (instance_of 100 20)) ∷ [])
          (instance_of 100 20)).size
        ≡ 20)
    × ((receive_all
          (short (report_of 5) ∷ full (to_protocol_meta 1 (instance_of 100 20)) ∷ [])
          (instance_of 100 20)).num_chunks
        ≡ 0)
unfolding to_protocol_meta
receive_all_term_example =
    receive_all_term (short (report_of 5) ∷ full (to_protocol_meta 1 (instance_of 100 20)) ∷ [])
      (instance_of 100 20)

abbrev restarted : InstanceMeta
restarted = record (instance_of 100 20) { term = 1 }

from_protocol_meta-to_protocol_meta_example :
    (3 ≤ 1
      → ((from_protocol_meta (to_protocol_meta 1 restarted) (instance_of 100 20)).1 ≡ adopted)
        × (to_protocol_meta 1
              (from_protocol_meta (to_protocol_meta 1 restarted) (instance_of 100 20)).0
            ≡ to_protocol_meta 1 restarted))
    × (1 < 3
        → ((from_protocol_meta (to_protocol_meta 1 restarted) (instance_of 100 20)).0
            ≡ instance_of 100 20)
          × ((from_protocol_meta (to_protocol_meta 1 restarted) (instance_of 100 20)).1
              ≡ reclaimed))
from_protocol_meta-to_protocol_meta_example =
    from_protocol_meta-to_protocol_meta 1 (instance_of 100 20) restarted
