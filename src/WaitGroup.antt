-- ===== src/WaitGroup.antt =====
-- The wait group of common/sync/waitgroup.go, which counts what is waited for beside the counter
-- of the standard library's wait group and can be done more often than it is added to.
use lambda_objectstore.Base.{
  ℕ, ◌+◌, ◌-◌, ◌*◌, ◌%◌, ◌≤◌, ◌<◌, ◌≡◌, refl, List, [], ◌∷◌, length, Bool, arith, ltb,
  if◌then◌else◌,
}
use lambda_objectstore.Base.Int.{ℤ, pos, negsuc, pos_part, neg_part, ◌+ℤ◌, ltb_ℤ, leb_ℤ}

-- `counter` is the embedded sync.WaitGroup's: what Wait() waits for to be 0.
pub record WaitGroup : Type 0 where
  pub waiting : ℤ
  pub counter : ℤ

abbrev pub new_wait_group : WaitGroup
new_wait_group = record { waiting = pos 0; counter = pos 0 }

abbrev pub i32_bound : ℕ
i32_bound = 2147483648

-- An int32, which wraps around
abbrev pub wrap_i32 : ℤ → ℤ
wrap_i32 (pos n) =
    let m = n % (2 * i32_bound) in if ltb m i32_bound then pos m else negsuc (2 * i32_bound - 1 - m)
wrap_i32 (negsuc n) =
    let m = n % (2 * i32_bound) in if ltb m i32_bound then negsuc m else pos (2 * i32_bound - 1 - m)

-- Add(delta)
unfoldable pub add : ℤ → WaitGroup → WaitGroup
add delta wg =
    let waiting = wrap_i32 (wg.waiting +ℤ delta) in
    if ltb_ℤ (pos 0) delta
    then (if ltb_ℤ (pos 0) waiting
        then record { waiting = waiting; counter = wg.counter +ℤ delta }
        else record wg { waiting = waiting })
    else if ltb_ℤ delta (pos 0)
    then (if leb_ℤ (pos 0) waiting
        then record { waiting = waiting; counter = wg.counter +ℤ delta }
        else record wg { waiting = waiting })
    else wg

unfoldable pub done : WaitGroup → WaitGroup
unfolding add
done wg = add (negsuc 0) wg

unfoldable pub is_waiting : WaitGroup → Bool
is_waiting wg = ltb_ℤ (pos 0) wg.waiting

unfoldable pub reset : WaitGroup → WaitGroup
reset wg = if ltb_ℤ wg.waiting (pos 0) then record wg { waiting = pos 0 } else wg

-- The calls that the program makes.
pub data Call : Type 0 where
  add_one done_one reset_all : Call

unfoldable pub run_call : Call → WaitGroup → WaitGroup
unfolding add done reset
run_call add_one wg = add (pos 1) wg
run_call done_one wg = done wg
run_call reset_all wg = reset wg

unfoldable pub run_calls : List Call → WaitGroup → WaitGroup
unfolding run_call
run_calls [] wg = wg
run_calls (c ∷ cs) wg = run_calls cs (run_call c wg)

-- The inner counter is the outer one, or 0 if that is negative.
abbrev pub IsInStep : WaitGroup → Type 0
IsInStep wg = wg.counter ≡ pos (pos_part wg.waiting)

abbrev size : ℤ → ℕ
size (pos n) = n
size (negsuc n) = n + 1

run_call-IsInStep :
    (c : Call) (wg : WaitGroup)
    → size wg.waiting + 1 < i32_bound
    → IsInStep wg
    → IsInStep (run_call c wg) × (size (run_call c wg).waiting ≤ size wg.waiting + 1)
unfolding run_call
run_call-IsInStep add_one wg small h = ground arith
run_call-IsInStep done_one wg small h = ground arith
run_call-IsInStep reset_all wg small h = ground arith

-- While the calls and the count waited for, or missing, together stay below 2 ^ 31, the group can
-- be added to by one, done and reset in any order: its inner counter is the number waited for, or 0
-- where more was done than added. So it never turns negative, which the standard library answers
-- by a panic.
pub run_calls-IsInStep :
    (cs : List Call) (wg : WaitGroup)
    → pos_part wg.waiting + neg_part wg.waiting + length cs < i32_bound
    → IsInStep wg
    → IsInStep (run_calls cs wg)
unfolding run_calls
run_calls-IsInStep cs wg small h = from cs wg (omega (arith, same wg.waiting)) h
  where
    same : (w : ℤ) → size w ≡ pos_part w + neg_part w
    same (pos n) = omega arith
    same (negsuc n) = omega arith

    from :
        (cs : List Call) (wg : WaitGroup)
        → size wg.waiting + length cs < i32_bound
        → IsInStep wg
        → IsInStep (run_calls cs wg)
    from [] wg small h = h
    from (c ∷ cs) wg small h =
        let (kept, less) = run_call-IsInStep c wg (omega arith) h in
        from cs (run_call c wg) (omega arith) kept

-- At the limit the count wraps around, and the group panics: 2 ^ 31 + 1 calls of Done and no more.
done_too_often :
    done (record { waiting = negsuc (i32_bound - 1); counter = pos 0 })
    ≡ record { waiting = pos (i32_bound - 1); counter = negsuc 0 }
unfolding done add
done_too_often = refl

-- Added by more than one, a group that was done too often waits for more than was added.
add_two_after_done : add (pos 2) (done new_wait_group) ≡ record { waiting = pos 1; counter = pos 2 }
unfolding add done
add_two_after_done = refl
