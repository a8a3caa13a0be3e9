-- ===== src/Tests/Backups.antt =====
-- Backups at concrete inputs: three are required of four candidates.
use lambda_objectstore.Base.{
  take, ℕ, ◌+◌, ◌<◌, ◌≤◌, ◌≡◌, ◌⊎◌, refl, [], ◌∷◌, true, false, none, some, arith, ◌==◌,
  if◌then◌else◌, length,
}
use lambda_objectstore.Backups.{
  Backups, Answer, ok, closed, refused, entry, start, get_by_hash, located, nowhere, add_to_backups,
  promote_candidate, reset_locator,
}
use lambda_objectstore.Backups.Reserve.{
  answered, find_alternate, finish_search, try_alternates, answered_first, reserve_at, reserve_loop,
  finish_reserve, reserve,
}
use lambda_objectstore.Backups.Iterate.{iterate, collect, collect-iterate}
use lambda_objectstore.Backups.Serve.{start_reserved, get_by_hash-located}

-- Instance 1 is closed, 3 is busy, and the others count the calls.
abbrev answers : ℕ → ℕ → ℕ × Answer
answers ins calls =
    if ins == 1 then (calls, closed) else if ins == 3 then (calls, refused) else (calls + 1, ok)

abbrev unreserved : Backups
unreserved = record {
  slots = none ∷ none ∷ none ∷ [];
  len = 0;
  candidates = some 1 ∷ some 2 ∷ some 3 ∷ some 4 ∷ [];
  required = 3;
  availables = 0;
  locator = record { enable = false; backups = 0 };
}

reserved_fine : (reserve answers 9 (some (9 ∷ 3 ∷ 6 ∷ [])) 0 unreserved).panicked ≡ false
unfolding reserve reserve_loop reserve_at answered_first try_alternates find_alternate answered
    finish_search finish_reserve add_to_backups promote_candidate reset_locator
reserved_fine = refl

-- The closed candidate is replaced by the alternate, and the busy one by the fallback.
test_slots :
    (reserve answers 9 (some (9 ∷ 3 ∷ 6 ∷ [])) 0 unreserved).backups.slots
    ≡ some 4 ∷ some 2 ∷ some 6 ∷ []
unfolding reserve reserve_loop reserve_at answered_first try_alternates find_alternate answered
    finish_search finish_reserve add_to_backups promote_candidate reset_locator
test_slots = refl

start_reserved_example :
    length (start (reserve answers 9 (some (9 ∷ 3 ∷ 6 ∷ [])) 0 unreserved).backups).0
    ≡ (start (reserve answers 9 (some (9 ∷ 3 ∷ 6 ∷ [])) 0 unreserved).backups).1
start_reserved_example =
    start_reserved answers 9 (some (9 ∷ 3 ∷ 6 ∷ [])) 0 unreserved (omega arith) (omega arith)
      (omega arith) reserved_fine

abbrev in_use : Backups
in_use = record unreserved {
  slots = some 4 ∷ none ∷ some 5 ∷ [];
  len = 3;
  locator = record { enable = true; backups = 3 };
}

get_by_hash-located_example :
    ((get_by_hash 8 in_use ≡ nowhere) × ((true ≡ false) ⊎ (3 ≤ 2) ⊎ (entry in_use.slots 2 ≡ none)))
    ⊎ ((ins : ℕ) × (get_by_hash 8 in_use ≡ located ins)
        × (2 < 3)
        × (entry in_use.slots 2 ≡ some ins))
get_by_hash-located_example = get_by_hash-located 8 in_use (omega arith) (omega arith)

collect-iterate_example :
    collect (length (take in_use.len in_use.slots) + 1) (iterate in_use)
    ≡ (0, some 4) ∷ (1, some 5) ∷ []
collect-iterate_example = collect-iterate in_use
