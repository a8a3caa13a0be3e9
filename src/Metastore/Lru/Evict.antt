-- ===== src/Metastore/Lru/Evict.antt =====
-- evictMeta of proxy/server/metastore/lru_placer.go: an object takes over the slot and the placement
-- of a victim, which is deleted.
use lambda_objectstore.Base.{
  ℕ, ◌≡◌, refl, ap, ◌∙◌, ◌≢◌, List, [], ◌∷◌, ◌++◌, true, false, Option, none, some, set, ==_refl,
}
use lambda_objectstore.Metastore.Meta.{Meta, LruPlacerMeta, is_deleted}
use lambda_objectstore.Metastore.Store.{Heap}
use lambda_objectstore.Metastore.Lru.{
  Clock, objects, copy_placement, replace_on, evict_meta, judge, keep, victim, skip, scan, act,
}
use mathlib.Core.List.{append_assoc}
use lambda_objectstore.Metastore.Lru.Positions.{
  IsPlaced, objects-set_objects, objects-set_objects_ne,
}

-- What the object knows after it took over a placement.
abbrev took : List ℕ → ℕ → LruPlacerMeta → LruPlacerMeta
took placement m pm = record pm {
  swap_map = copy_placement pm.swap_map placement;
  evicts = some m;
  visited = true;
}

-- What an eviction of `m`, at index `i`, for `meta` leads to; `j` is the index of `meta` before.
pub record Evicted (meta m i j : ℕ) (c c' : Clock) : Type 0 where
  pub primary_eq : c'.placer.primary ≡ c.placer.primary
  pub deleted : is_deleted (c'.heap m) ≡ true
  pub takes :
      (pm : LruPlacerMeta) × ((c'.heap meta).placer_meta ≡ some pm)
      × (pm.evicts ≡ some m)
      × (pm.visited ≡ true)
      × (pm.swap_map ≡ (c.heap m).placement)
  pub slot :
      objects c'.placer.primary c'.placer
      ≡ set (set (objects c.placer.primary c.placer) j none) i (some meta)
  pub placed : IsPlaced c'.placer.primary c'.heap (objects c'.placer.primary c'.placer)

evict_meta-secondary :
    (meta m : ℕ) (c : Clock)
    → c.placer.primary ≢ c.placer.secondary
    → objects c.placer.secondary (evict_meta meta m false c).placer
      ≡ objects c.placer.secondary c.placer
unfolding evict_meta replace_on
evict_meta-secondary meta m c d =
    objects-set_objects_ne c.placer.primary c.placer.secondary _ c.placer d

pub judge_self :
    (heap : Heap) (meta : ℕ) (candidate : Option ℕ) → judge heap meta meta candidate ≡ skip
unfolding judge
judge_self heap meta candidate = rw (==_refl meta) refl

-- When the cursor goes over `meta` itself before it comes to a victim for it, `meta` ends twice in
-- the secondary array: it is copied there, and added again in the place of the victim.
scan_doubles :
    (meta m : ℕ) (ms : List (Option ℕ)) (c : Clock) (candidate : Option ℕ)
    → c.placer.primary ≢ c.placer.secondary
    → judge (keep meta c).heap meta m candidate ≡ victim
    → objects c.placer.secondary (scan meta (some meta ∷ some m ∷ ms) c candidate).0.placer
      ≡ objects c.placer.secondary c.placer ++ some meta ∷ some meta ∷ []
unfolding scan act
scan_doubles meta m ms c candidate d found = rw (judge_self c.heap meta candidate) rw found (
    objects-set_objects c.placer.secondary _ (evict_meta meta m false (keep meta c)).placer
    ∙ ap (λ xs. xs ++ some meta ∷ [])
        (evict_meta-secondary meta m (keep meta c) d
          ∙ objects-set_objects c.placer.secondary _ c.placer)
    ∙ append_assoc (objects c.placer.secondary c.placer) (some meta ∷ []) (some meta ∷ []))
