-- ===== src/Metastore/Placement/Stuck.antt =====
-- The search for a replacement of proxy/server/metastore/lru_placer.go where there is none.
use lambda_objectstore.Base.{
  ℕ, zero, suc, ◌+◌, ◌≡◌, refl, sym, subst, ◌∙◌, List, [], ◌∷◌, Bool, true, false, Option, none,
  some, drop,
}
use lambda_objectstore.Metastore.Lru.{
  Clock, objects, advance, keep, act, scan, finish_scan, next_available_object,
}
use lambda_objectstore.Metastore.Lru.Copy.{compact}
use lambda_objectstore.Metastore.Lru.Compact.{InOrder, started, next_available_object-Switched}
use lambda_objectstore.Metastore.Lru.Evict.{judge_self}
use lambda_objectstore.Metastore.Placement.{settle, search}
use lambda_objectstore.Metastore.Placement.Search.{from_start, Switched-InOrder}

-- Nothing but empty slots and the object itself.
abbrev pub IsOnly : ℕ → List (Option ℕ) → Type 0
IsOnly meta [] = Unit
IsOnly meta (none ∷ xs) = IsOnly meta xs
IsOnly meta (some m ∷ xs) = (m ≡ meta) × IsOnly meta xs

compact-IsOnly : (meta : ℕ) (xs : List (Option ℕ)) → IsOnly meta xs → IsOnly meta (compact xs)
compact-IsOnly meta [] h = h
compact-IsOnly meta (none ∷ xs) h = compact-IsOnly meta xs h
compact-IsOnly meta (some m ∷ xs) (e, h) = (e, compact-IsOnly meta xs h)

scan_only :
    (meta : ℕ) (xs : List (Option ℕ)) (c : Clock)
    → IsOnly meta xs
    → ((scan meta xs c none).2 ≡ false) × ((scan meta xs c none).1 ≡ none)
unfolding scan act
scan_only meta [] c h = (refl, refl)
scan_only meta (none ∷ xs) c h = scan_only meta xs (advance c) h
scan_only meta (some m ∷ xs) c (e, h) =
    rw (e, judge_self c.heap meta none) (scan_only meta xs (keep meta c) h)

finish_quiet :
    (r : Clock × Option ℕ × Bool)
    → (r.2 ≡ false) × (r.1 ≡ none)
    → ((finish_scan r).2 ≡ false) × ((finish_scan r).1 ≡ none)
unfolding finish_scan
finish_quiet (c, candidate, true) h = absurd cc
finish_quiet (c, candidate, false) (e, f) = (refl, f)

settle-none :
    (next : Clock → Option ℕ → Option Clock) (scanned meta : ℕ) (r : Clock × Option ℕ × Bool)
    → (r.2 ≡ false) × (r.1 ≡ none)
    → settle next scanned meta r ≡ next r.0 none
unfolding settle
settle-none next scanned meta (c, candidate, true) h = absurd cc
settle-none next scanned meta (c, none, false) h = refl
settle-none next scanned meta (c, some m, false) (e, f) = absurd cc

-- Where the array holds nothing but the object that needs room, however long the search for a
-- replacement goes on, it does not end.
pub search_stuck :
    (fuel scanned meta : ℕ) (c : Clock)
    → InOrder c
    → IsOnly meta (drop 1 (objects c.placer.primary c.placer))
    → search fuel scanned meta none c ≡ none
unfolding search
search_stuck zero scanned meta c h only = refl
search_stuck (suc fuel) scanned meta c h only =
    let r = next_available_object meta none c in
    let start = from_start meta none c h.idle h.apart in
    let quiet = finish_quiet _ (scan_only meta _ (started c) only) in
    let none_found : (r.2 ≡ false) × (r.1 ≡ none) = rw start quiet in
    let s = next_available_object-Switched meta none c h none_found.0 in
    settle-none _ scanned meta r none_found
    ∙ search_stuck fuel (scanned + 1) meta r.0 (Switched-InOrder c r.0 _ h s) (
        subst (λ xs. IsOnly meta (drop 1 xs)) (sym s.objects_eq)
          (compact-IsOnly meta (drop 1 (objects c.placer.primary c.placer)) only))
