-- ===== src/Tests/Placement.antt =====
-- The placement of a chunk at concrete inputs.
use lambda_objectstore.Base.{
  ◌≢◌, ℕ, zero, suc, ◌<◌, ◌≡◌, refl, [], ◌∷◌, true, false, none, some, arith,
}
use lambda_objectstore.Metastore.Lru.{side_0}
use lambda_objectstore.Metastore.Lru.Compact.{InOrder}
use lambda_objectstore.Metastore.Lru.Positions.{IsPlaced}
use lambda_objectstore.Metastore.Placement.{Placing, placed, place_on, get_index, heap_of}
use lambda_objectstore.Metastore.Placement.Place.{IsPlacedOn, Lists, place_on_stuck, place_on_room}
use lambda_objectstore.Metastore.Placement.Slices.{get_index-distinct}
use lambda_objectstore.Tests.Lru.{clock_with, member, sides_ne}
use lambda_objectstore.Tests.Instances.{instance_of}

-- Two objects in the placer; instances have this capacity, and 95 bytes each.
abbrev placing_with : ℕ → Placing
placing_with capacity = record {
  clock = clock_with true;
  instances = λ id. instance_of capacity 95;
  slice_base = 0;
  cap = 4;
}

-- Object 3 is in neither array.
place_on_room_example :
    (w' : Placing) × (place_on 2 3 0 7 (placing_with 200) ≡ some (w', placed 7 false))
    × IsPlacedOn 3 0 7 w'
    × ((w'.instances 7).size ≡ 100)
    × ((w'.instances 7).size < (w'.instances 7).capacity)
    × Lists false 3 (clock_with true) w'.clock
place_on_room_example =
    place_on_room 2 3 0 7 (placing_with 200) _ refl (omega arith) (omega arith) (omega arith)
      (omega arith)

-- The first object of the placer, whose chunk goes to a full instance.
abbrev lonely : Placing
lonely = record (placing_with 100) {
  clock = record {
    heap = λ p. member 1 true 7;
    placer = record (clock_with true).placer { objects_0 = none ∷ some 1 ∷ [] };
  };
}

lonely-IsPlaced : IsPlaced side_0 (heap_of lonely) (none ∷ some 1 ∷ [])
lonely-IsPlaced zero m low at = absurd (omega (arith, low))
lonely-IsPlaced (suc zero) m low at = (_, refl, refl)
lonely-IsPlaced (suc (suc i)) m low at = absurd cc

lonely-InOrder : InOrder lonely.clock
lonely-InOrder = record {
  apart = sides_ne;
  placed = lonely-IsPlaced;
  reserved = omega arith;
  idle = refl;
}

place_on_stuck_example : place_on 1000 1 0 7 lonely ≡ none
place_on_stuck_example =
    place_on_stuck 1000 1 0 7 lonely (omega arith, omega arith) lonely-InOrder (refl, tt)

get_index-distinct_example :
    (get_index (record { size = 3; range = none }) 1 (placing_with 100)).2
    ≢ (get_index
        (get_index (record { size = 3; range = none }) 1 (placing_with 100)).1
        2
        (get_index (record { size = 3; range = none }) 1 (placing_with 100)).0).2
get_index-distinct_example =
    get_index-distinct (record { size = 3; range = none }) 1 2 (placing_with 100) (omega arith)
      (omega arith) (λ e. omega (arith, e))
