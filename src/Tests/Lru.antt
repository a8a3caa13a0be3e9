-- ===== src/Tests/Lru.antt =====
-- The Clock LRU placer at concrete inputs: a primary array with two objects and an empty slot.
use lambda_objectstore.Base.{
  ℕ, zero, suc, ◌≡◌, refl, ◌≢◌, subst, [], ◌∷◌, Bool, true, false, none, some, arith, ◌+◌, ◌<◌,
  get_elem?, inr,
}
use lambda_objectstore.Metastore.Meta.{Meta}
use lambda_objectstore.Metastore.Store.{Heap, update}
use lambda_objectstore.Metastore.Lru.{
  side_0, side_1, new_placer_meta, Clock, objects, start_scan, scan, judge, act, victim, keep,
  finish_scan, switch_arrays, keep_new, next_available_object,
}
use lambda_objectstore.Metastore.Lru.Positions.{HasPos, IsPlaced}
use lambda_objectstore.Metastore.Lru.Compact.{
  InOrder, Switched, UnderWay, next_available_object-Compacts,
}
use lambda_objectstore.Tests.Store.{blank}

-- An object of this placement with one chunk, confirmed, at this index.
abbrev pub member : ℕ → Bool → ℕ → Meta
member i visited instance_id = record blank {
  placement = instance_id ∷ [];
  chunk_size = 10;
  placer_meta =
      some
        (record (new_placer_meta (true ∷ [])) { pos_0 = i; visited = visited; num_confirmed = 1 });
}

-- An object that was visited, with a position in both arrays.
abbrev copied_member : ℕ → ℕ → Meta
copied_member i j = record blank {
  placement = 7 ∷ [];
  chunk_size = 10;
  placer_meta = some (record (new_placer_meta (true ∷ [])) {
    pos_0 = i;
    pos_1 = j;
    visited = true;
    num_confirmed = 1;
  });
}

-- Objects 1 and 2 stand in the array; 2 was visited if so said.
abbrev heap_with : Bool → Heap
heap_with visited =
    update (update (λ _. record (member 0 false 9) { chunk_size = 5 }) 1 (member 1 true 7)) 2
      (member 3 visited 8)

abbrev pub clock_with : Bool → Clock
clock_with visited = record {
  heap = heap_with visited;
  placer = record {
    objects_0 = none ∷ some 1 ∷ none ∷ some 2 ∷ [];
    objects_1 = [];
    cursor = 0;
    cursor_bound = 0;
    primary = side_0;
    secondary = side_1;
  };
}

pub sides_ne : side_1 ≢ side_0
sides_ne e = cc

clock_with-IsPlaced :
    (b : Bool) → IsPlaced side_0 (clock_with b).heap (objects side_0 (clock_with b).placer)
clock_with-IsPlaced b zero m low at = absurd (omega (arith, low))
clock_with-IsPlaced b (suc zero) m low at =
    let e : 1 ≡ m = cc in subst (λ n. HasPos side_0 (heap_with b) n 1) e (_, refl, refl)
clock_with-IsPlaced b (suc (suc zero)) m low at = absurd cc
clock_with-IsPlaced b (suc (suc (suc zero))) m low at =
    let e : 2 ≡ m = cc in subst (λ n. HasPos side_0 (heap_with b) n 3) e (_, refl, refl)
clock_with-IsPlaced b (suc (suc (suc (suc i)))) m low at = absurd cc

pub clock_with-InOrder : (b : Bool) → InOrder (clock_with b)
clock_with-InOrder b = record {
  apart = sides_ne;
  placed = clock_with-IsPlaced b;
  reserved = omega arith;
  idle = refl;
}

-- Within an iteration: object 1 was copied, and object 3 was added behind the bound.
abbrev under_way : Clock
under_way = record {
  heap =
      update
        (update (update (λ _. record (member 0 false 9) { chunk_size = 5 }) 1 (copied_member 1 1)) 2
          (member 2 true 8))
        3 (member 3 true 6);
  placer = record {
    objects_0 = none ∷ some 1 ∷ some 2 ∷ some 3 ∷ [];
    objects_1 = none ∷ some 1 ∷ [];
    cursor = 2;
    cursor_bound = 3;
    primary = side_0;
    secondary = side_1;
  };
}

under_way-UnderWay : UnderWay under_way
under_way-UnderWay = record {
  within = omega arith;
  bounded = omega arith;
  copying = record { apart = sides_ne; ahead = ahead; placed = placed; behind = behind };
}
  where
    ahead :
        (j m : ℕ)
        → get_elem? (some 2 ∷ some 3 ∷ []) j ≡ some (some m)
        → HasPos side_0 under_way.heap m (2 + j)
    ahead zero m at =
        let e : 2 ≡ m = cc in subst (λ n. HasPos side_0 under_way.heap n 2) e (_, refl, refl)
    ahead (suc zero) m at =
        let e : 3 ≡ m = cc in subst (λ n. HasPos side_0 under_way.heap n 3) e (_, refl, refl)
    ahead (suc (suc j)) m at = absurd cc

    placed : IsPlaced side_1 under_way.heap (none ∷ some 1 ∷ [])
    placed zero m low at = absurd (omega (arith, low))
    placed (suc zero) m low at =
        let e : 1 ≡ m = cc in subst (λ n. HasPos side_1 under_way.heap n 1) e (_, refl, refl)
    placed (suc (suc i)) m low at = absurd cc

    behind :
        (i m : ℕ)
        → 0 < i
        → get_elem? (none ∷ some 1 ∷ []) i ≡ some (some m)
        → (q : ℕ) × HasPos side_0 under_way.heap m q × (q < 2)
    behind zero m low at = absurd (omega (arith, low))
    behind (suc zero) m low at =
        let e : 1 ≡ m = cc in
        (1, subst (λ n. HasPos side_0 under_way.heap n 1) e (_, refl, refl), omega arith)
    behind (suc (suc i)) m low at = absurd cc

none_found : (next_available_object 4 none under_way).2 ≡ false
unfolding next_available_object start_scan scan judge act finish_scan switch_arrays keep_new
none_found = refl

next_available_object-Compacts_example :
    Switched under_way
      (none ∷ some 1 ∷ some 2 ∷ some 3 ∷ [])
      (next_available_object 4 none under_way).0
next_available_object-Compacts_example =
    next_available_object-Compacts 4 none under_way (inr (omega arith, under_way-UnderWay))
      none_found

judge_victim : judge (keep 1 (clock_with false)).heap 1 2 none ≡ victim
unfolding judge
judge_victim = refl
