-- ===== src/Tests/Links.antt =====
-- Links at concrete inputs: two buckets, of which the first has one link left.
use lambda_objectstore.Base.{ℕ, ◌≡◌, ◌⊎◌, ◌==◌, refl, true, false, none, some, [], ◌∷◌, ◌%◌}
use lambda_objectstore.Base.Int.{pos}
use lambda_objectstore.Links.{
  AvailableLinks, found, is_limited, add_available, find_loop, reset_available, receive_top,
  recycle_top_bucket, recycle_top_locked,
}
use lambda_objectstore.Links.Queue.{IsAdded, Takes, contents, add_available_queues, find_loop-Takes}
use lambda_objectstore.Links.Workers.{Pool, AvailableLink, finding, found_link, closing}
use lambda_objectstore.Links.Workers.Requests.{
  Kept, going, resetting, run_calls, run_call, request_closes_once,
}
use lambda_objectstore.Links.Workers.Counted.{IsCounted, run_call-Counted}
use lambda_objectstore.Links.Manager.{
  LinkManager, set_control, take_control, reset_locked, close_links,
}
use lambda_objectstore.Links.Manager.Control.{Adds, set_control_settles}
use lambda_objectstore.Links.Manager.Dropped.{find_link, reset_locked_drops}

abbrev two_buckets : AvailableLinks
two_buckets = record {
  front = (19 ∷ []) ∷ [];
  bottom = 20 ∷ 21 ∷ [];
  spare = [];
  total = pos 3;
  limit = pos 3;
}

-- The chain after the last link of the top bucket was taken.
abbrev top_taken : AvailableLinks
top_taken = record two_buckets { front = [] ∷ []; total = pos 2 }

test_find :
    find_loop 2 top_taken
    ≡ found 20 (record top_taken { front = []; bottom = 21 ∷ []; spare = [] ∷ [] })
unfolding find_loop receive_top recycle_top_bucket recycle_top_locked
test_find = refl

-- Links that wait behind an empty top bucket survive a reset.
test_reset : contents (reset_available top_taken) ≡ 20 ∷ 21 ∷ []
unfolding reset_available
test_reset = refl

add_available_queues_example :
    ((is_limited false top_taken ≡ true)
      × (add_available false 22 top_taken ≡ some (false, top_taken)))
    ⊎ ((is_limited false top_taken ≡ false)
        × ((m : AvailableLinks) × (add_available false 22 top_taken ≡ some (true, m))
            × IsAdded 22 top_taken m))
add_available_queues_example = add_available_queues false 22 top_taken tt

find_loop-Takes_example : Takes top_taken (find_loop 2 top_taken)
find_loop-Takes_example = find_loop-Takes top_taken tt

-- One request looks for a link.
abbrev looking : AvailableLink
looking = record { in_list = true; link = none; err = none; closed = false; place = finding }

abbrev one_request : Pool
one_request = record { links = two_buckets; requests = looking ∷ [] }

request_closes_once_example :
    Kept
      (run_calls (going found_link 0 ∷ resetting ∷ going closing 0 ∷ []) one_request).requests
      0
      looking
request_closes_once_example =
    request_closes_once (going found_link 0 ∷ resetting ∷ going closing 0 ∷ []) one_request 0
      looking refl (refl, refl, refl)

run_call-Counted_example : IsCounted (run_call (going found_link 0) one_request)
run_call-Counted_example =
    run_call-Counted (going found_link 0) one_request tt (tt, refl, ((refl, refl, refl), tt))

-- Connection n is one of worker n % 2: the manager's control link is of worker 1, and links of both
-- workers are pending.
abbrev worker_of : ℕ → ℕ
worker_of link = link % 2

abbrev manager : LinkManager
manager = record {
  seq = 3;
  ctrl_link = some 5;
  last_valid_ctrl = some 5;
  pool = one_request;
  data_links = (1, 7) ∷ (2, 9) ∷ (3, 8) ∷ [];
  pendings = 10 ∷ 11 ∷ 12 ∷ [];
  ids = λ link. 0;
  effects = [];
}

set_control_settles_example :
    Adds worker_of 6
      (10 ∷ 11 ∷ 12 ∷ [])
      (take_control worker_of 6 manager)
      (set_control worker_of 6 manager)
set_control_settles_example = set_control_settles worker_of 6 manager tt

survivor : find_link 3 (reset_locked worker_of (some 5) manager).data_links ≡ some 8
unfolding reset_locked close_links
survivor = refl

reset_locked_drops_example :
    (find_link 3 manager.data_links ≡ some 8) × ((worker_of 8 == worker_of 5) ≡ false)
reset_locked_drops_example = reset_locked_drops worker_of 5 manager 3 8 survivor
