-- ===== src/Tests/Window.antt =====
-- A window at concrete inputs: it started at 5, and nothing was sent.
use lambda_objectstore.Base.{◌≡◌, refl, false, none, some, [], ◌∷◌, arith, replicate}
use lambda_objectstore.WaitGroup.{done, add, is_waiting}
use lambda_objectstore.Window.{
  not_sent, Window, new_window, new_req_bucket, match_request, find_request_meta, seek, live,
  end_of,
}
use lambda_objectstore.Window.Add.{
  Added, added, add_request, fresh_meta, fill, seek_for_set, extend,
}
use lambda_objectstore.Window.Add.Found.{IsOpen, IsFound, add_request-IsFound}
use lambda_objectstore.Window.Ack.{Acked, acknowledged, ack_request, advance_loop, advance, release}
use lambda_objectstore.Window.Ack.Ends.{Ends}
use lambda_objectstore.Window.Recycle.{gc, recycle_all, recycle_top, reset_bucket, move_active}
use lambda_objectstore.Window.Recycle.Collect.{gc-IsOpen}

abbrev started : Window
started = record {
  seq = 5;
  acked = 5;
  size = 1;
  behind = [];
  active = record { first = 1000005; acks = 0; filled = 0; requests = replicate 20 none };
  ahead = [];
  closed = false;
}

started-IsOpen : IsOpen started
started-IsOpen = (refl, omega arith, omega arith, (refl, tt, tt), omega arith)

test_start : record (new_window 5) { size = 1 } ≡ started
unfolding new_window new_req_bucket
test_start = refl

add_request-IsFound_example : IsFound 77 started (add_request fresh_meta 77 9 started)
add_request-IsFound_example = add_request-IsFound fresh_meta 77 9 started started-IsOpen refl

abbrev window_of : Added → Window
window_of (added m waits w) = w
window_of _ = started

-- Two requests are added, of which the second waits.
abbrev one_added : Window
one_added = window_of (add_request fresh_meta 77 9 started)

abbrev two_added : Window
two_added = window_of (add_request fresh_meta 78 9 one_added)

test_second : match_request 2000005 two_added ≡ (some not_sent, none)
unfolding add_request seek_for_set extend fill match_request find_request_meta seek is_waiting add
test_second = refl

abbrev window_after : Acked → Window
window_after (acknowledged r a c) = a.window
window_after _ = started

-- The acknowledgement of the first releases it.
test_released :
    match_request 2000005 (window_after (ack_request 3 1000005 two_added)) ≡ (none, some 78)
unfolding add_request seek_for_set extend fill match_request find_request_meta seek ack_request
    advance_loop advance release is_waiting add done
test_released = refl

-- Twenty requests were answered, and the next one is in the second bucket.
abbrev second_bucket : Window
second_bucket = record started {
  seq = 21000005;
  acked = 20000005;
  behind = (record { first = 1000005; acks = 20; filled = 20; requests = replicate 20 none }) ∷ [];
  active = record { first = 21000005; acks = 0; filled = 1; requests = replicate 20 none };
}

second_bucket-IsOpen : IsOpen second_bucket
second_bucket-IsOpen = (refl, omega arith, omega arith, (refl, tt, tt), omega arith)

test_collected : end_of 0 (live (gc 20000005 second_bucket).1) ≡ 61000005
unfolding gc recycle_all recycle_top reset_bucket move_active
test_collected = refl

gc-IsOpen_example : IsOpen (gc 20000005 second_bucket).1
gc-IsOpen_example = gc-IsOpen 20000005 second_bucket second_bucket-IsOpen (omega arith) (refl, tt)
