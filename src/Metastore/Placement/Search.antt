-- ===== src/Metastore/Placement/Search.antt =====
-- The search for a replacement of proxy/server/metastore/lru_placer.go: when it ends, and when not.
use lambda_objectstore.Base.{
  ℕ, ◌-◌, ◌<◌, ◌≡◌, sym, ap, ◌∙◌, ◌≢◌, List, ◌∷◌, Bool, true, false, Option, none, some, arith,
  length, get_elem?, take, drop, ◌⊎◌, take_tail,
}
use lambda_objectstore.Metastore.Lru.{
  Clock, objects, scan, finish_scan, under_cursor, next_available_object, evict_meta, keep,
}
use lambda_objectstore.Metastore.Lru.Compact.{
  InOrder, Switched, started, start_scan-started, objects-started,
}
use lambda_objectstore.Metastore.Placement.Visits.{is_complete, is_visited}
use lambda_objectstore.Metastore.Placement.Offers.{Keeps}

-- The object stands in the primary array.
abbrev pub Holds : Clock → ℕ → Type 0
Holds c m = (i : ℕ) × (0 < i) × (get_elem? (objects c.placer.primary c.placer) i ≡ some (some m))

-- An iteration that starts is a scan of the whole array.
pub from_start :
    (meta : ℕ) (candidate : Option ℕ) (c : Clock)
    → c.placer.cursor ≡ 0
    → c.placer.secondary ≢ c.placer.primary
    → next_available_object meta candidate c
      ≡ finish_scan (scan meta (drop 1 (objects c.placer.primary c.placer)) (started c) candidate)
unfolding next_available_object
from_start meta candidate c idle apart =
    let whole : under_cursor (started c).placer ≡ drop 1 (objects c.placer.primary c.placer) =
      ap (λ xs. take (length (objects c.placer.primary c.placer) - 1) (drop 1 xs))
        (objects-started c apart)
      ∙ take_tail (objects c.placer.primary c.placer) in
    ap (λ b. finish_scan (scan meta (under_cursor b.placer) b candidate))
      (start_scan-started c idle)
    ∙ ap (λ xs. finish_scan (scan meta xs (started c) candidate)) whole

-- What an iteration without a victim says of an object in the array.
record Offers (c : Clock) (candidate : Option ℕ) (m : ℕ) (r : Clock × Option ℕ × Bool)
    : Type 0 where
  keeps : Keeps candidate r.1
  unvisited : is_visited (c.heap m) ≡ false → r.1 ≢ none
  complete : is_complete (c.heap m) ≡ true → (r.1 ≢ none) ⊎ (is_visited (r.0.heap m) ≡ false)

pub Switched-InOrder :
    (c c' : Clock) (xs : List (Option ℕ)) → InOrder c → Switched c (none ∷ xs) c' → InOrder c'
Switched-InOrder c c' xs h s = record {
  apart = λ e. h.apart (sym s.primary_eq ∙ sym e ∙ s.secondary_eq);
  placed = s.placed;
  reserved = rw s.objects_eq (omega arith);
  idle = s.cursor_eq;
}

-- The clock after an eviction for `meta` of another object: of the candidate, or, by the scan, of a
-- victim, in whose stead `meta` is kept.
abbrev pub Evicts : ℕ → Clock → Type 0
Evicts meta c' =
    (b : Clock) × (q : ℕ) × (q ≢ meta)
    × ((c' ≡ evict_meta meta q false b) ⊎ (c' ≡ keep meta (evict_meta meta q false b)))

-- A scan with a victim evicts it; another never offers the object itself.
abbrev EvictsOrOffers : ℕ → Clock × Option ℕ × Bool → Type 0
EvictsOrOffers meta (c, candidate, true) = Evicts meta c
EvictsOrOffers meta (c, candidate, false) = candidate ≢ some meta
