-- ===== src/Metastore/Placement/Visits.antt =====
-- Visits and confirmed chunks of the objects of proxy/server/metastore/lru_placer.go over a scan.
use lambda_objectstore.Base.{
  ℕ, ◌≡◌, refl, ◌∙◌, Bool, false, arith, ◌==◌, inl, inr, Bool-cases, Option-cases, ==_refl,
}
use lambda_objectstore.Metastore.Meta.{Meta, LruPlacerMeta}
use lambda_objectstore.Metastore.Store.{Heap}
use lambda_objectstore.Metastore.Lru.{
  modify, modify_at, placer_meta_of, Clock, visit, keep, all_confirmed,
}

-- The object can be evicted, once it is not visited any more.
abbrev pub is_complete : Meta → Bool
is_complete m = all_confirmed (placer_meta_of m)

abbrev pub is_visited : Meta → Bool
is_visited m = (placer_meta_of m).visited

-- Between heaps: nothing but positions and visits changes, and visits are only taken back.
pub record Forgets (heap heap' : Heap) : Type 0 where
  pub complete_eq : (m : ℕ) → is_complete (heap' m) ≡ is_complete (heap m)
  pub visits : (m : ℕ) → is_visited (heap m) ≡ false → is_visited (heap' m) ≡ false

pub Forgets-refl : (heap : Heap) → Forgets heap heap
Forgets-refl heap = record { complete_eq = λ m. refl; visits = λ m e. e }

pub Forgets-trans : (a b c : Heap) → Forgets a b → Forgets b c → Forgets a c
Forgets-trans a b c h k = record {
  complete_eq = λ m. k.complete_eq m ∙ h.complete_eq m;
  visits = λ m e. k.visits m (h.visits m e);
}

-- One meta is written by a function that changes no more than that.
pub Forgets-modify :
    (f : LruPlacerMeta → LruPlacerMeta) (p : ℕ) (heap : Heap)
    → ((pm : LruPlacerMeta) → all_confirmed (f pm) ≡ all_confirmed pm)
    → ((pm : LruPlacerMeta) → pm.visited ≡ false → (f pm).visited ≡ false)
    → Forgets heap (modify_at p f heap)
Forgets-modify f p heap hc hv = record {
  complete_eq = λ m. elim (Bool-cases (p == m)) [
    | inl e ↦ let same : p ≡ m = ground arith in rw (same, ==_refl m) (complete_at (heap m))
    | inr e ↦ rw e refl
  ];
  visits = λ m v. elim (Bool-cases (p == m)) [
    | inl e ↦ let same : p ≡ m = ground arith in rw (same, ==_refl m) (visits_at (heap m) v)
    | inr e ↦ rw e v
  ];
}
  where
    complete_at : (v : Meta) → is_complete (modify f v) ≡ is_complete v
    complete_at v = elim (Option-cases v.placer_meta) [
      | inl e ↦ rw e refl
      | inr (pm, e) ↦ rw e (hc pm)
    ]

    visits_at : (v : Meta) → is_visited v ≡ false → is_visited (modify f v) ≡ false
    visits_at v = elim (Option-cases v.placer_meta) [
      | inl e ↦ rw e (λ x. x)
      | inr (pm, e) ↦ rw e (hv pm)
    ]

pub keep-Forgets : (m : ℕ) (c : Clock) → Forgets c.heap (keep m c).heap
keep-Forgets m c = Forgets-modify _ m c.heap (λ pm. refl) (λ pm e. e)

pub unvisit-Forgets : (m : ℕ) (c : Clock) → Forgets c.heap (visit m false c).heap
unvisit-Forgets m c = Forgets-modify _ m c.heap (λ pm. refl) (λ pm e. refl)

pub visit-false : (m : ℕ) (c : Clock) → is_visited ((visit m false c).heap m) ≡ false
visit-false m c = rw (==_refl m) (unvisited (c.heap m))
  where
    unvisited : (v : Meta) → is_visited (modify (λ pm. record pm { visited = false }) v) ≡ false
    unvisited v = elim (Option-cases v.placer_meta) [ inl e ↦ rw e refl | inr (pm, e) ↦ rw e refl ]
