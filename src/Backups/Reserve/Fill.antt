-- ===== src/Backups/Reserve/Fill.antt =====
-- What Reserve of proxy/lambdastore/backups.go does at one place.
use lambda_objectstore.Base.{
  ℕ, ◌<◌, ◌≡◌, refl, sym, ap, subst, Bool, true, false, Option, none, some, arith, if◌then◌else◌,
  length, get_elem?, set, inl, inr, Bool-cases,
}
use lambda_objectstore.Backups.{Answer, ok, closed, refused, entry}
use lambda_objectstore.Backups.Reserve.{
  Reserving, find_alternate, finish_search, try_alternates, answered_first, reserve_at,
}
use lambda_objectstore.Backups.Reserve.Search.{
  Same, Filled, Same-Filled, Filled-Same, promote-Filled, Sought, finish_lem, find_alternate-Sought,
}

module _ {S : Type 0} (reserve_backing : ℕ → S → S × Answer) where
  if_lem : (b c : Bool) (x y : Reserving S) → b ≡ c → (if b then x else y) ≡ (if c then x else y)
  if_lem b c x y e = ap (λ d. if d then x else y) e

  -- The place `i` is filled with an instance or none.
  abbrev pub Fills : ℕ → Reserving S → Reserving S → Type 0
  Fills i r r' =
      r'.panicked ≡ false
      → (o : Option ℕ) × Filled i o r r' × (0 < r'.alters) × (r'.closed_count ≡ 0)

  try_alternates-Fills :
      (i : ℕ) (r : Reserving S) → 0 < r.alters → Fills i r (try_alternates reserve_backing i r)
  unfolding try_alternates
  try_alternates-Fills i r low =
      searched (find_alternate reserve_backing (length r.backups.candidates) i r)
        (find_alternate-Sought reserve_backing (length r.backups.candidates) i r low (omega arith))
    where
      searched :
          (x : Reserving S × Bool)
          → Sought i r x
          → Fills i r (if x.0.panicked then x.0 else finish_search i x.0)
      searched (r', found) h = elim (Bool-cases r'.panicked) [
        | inl f ↦
            subst (Fills i r) (sym (if_lem r'.panicked true r' (finish_search i r') f))
              (λ fine. absurd cc)
        | inr f ↦
            let (chosen, emptiness) = h f in
            let (kept, emptied, reset) = finish_lem i r' in
            subst (Fills i r) (sym (if_lem r'.panicked false r' (finish_search i r') f))
              (elim (Bool-cases found) [
                | inl g ↦
                    let (c, filled, inside) = chosen g in
                    let (same, low') = kept inside in
                    (λ fine. (some c, Filled-Same i (some c) r r' _ filled same, low', reset))
                | inr g ↦
                    let (same, past, low1) = emptiness g in
                    let (filled, low') = emptied past low1 in
                    (λ fine. (none, Same-Filled i none r r' _ same filled, low', reset))
              ])
      ]

  Same-Fills : (i : ℕ) (r r1 r' : Reserving S) → Same r r1 → Fills i r1 r' → Fills i r r'
  Same-Fills i r r1 r' h k fine =
      let (o, filled, low, reset) = k fine in (o, Same-Filled i o r r1 r' h filled, low, reset)

  pub reserve_at-Fills :
      (i : ℕ) (r : Reserving S)
      → 0 < r.alters
      → r.closed_count ≡ 0
      → Fills i r (reserve_at reserve_backing i r)
  unfolding reserve_at
  reserve_at-Fills i r low none_closed = asked (get_elem? r.backups.candidates i) refl
    where
      first :
          (c : ℕ) (x : S × Answer)
          → entry r.backups.candidates i ≡ some c
          → Fills i r (answered_first reserve_backing i r x)
      first c (s, ok) e =
          unfold answered_first in
          let filled = promote-Filled i i c (record r { instances = s }) e in
          λ fine. (
            some c,
            record {
              slots_eq = filled.slots_eq;
              availables_eq = filled.availables_eq;
              len_eq = filled.len_eq;
              failures_eq = filled.failures_eq;
            },
            low,
            none_closed,
          )
      first c (s, closed) e =
          unfold answered_first in
          let r1 = record r {
            instances = s;
            backups = record r.backups { candidates = set r.backups.candidates i none };
          } in
          Same-Fills i r r1 (try_alternates reserve_backing i r1)
            (record { slots_eq = refl; availables_eq = refl; len_eq = refl; failures_eq = refl })
            (try_alternates-Fills i r1 low)
      first c (s, refused) e =
          unfold answered_first in
          let r1 = record r { instances = s } in
          Same-Fills i r r1 (try_alternates reserve_backing i r1)
            (record { slots_eq = refl; availables_eq = refl; len_eq = refl; failures_eq = refl })
            (try_alternates-Fills i r1 low)

      asked :
          (o : Option (Option ℕ))
          → get_elem? r.backups.candidates i ≡ o
          → Fills i r (reserve_at reserve_backing i r)
      asked none e = rw (e, reserve_at) (λ fine. absurd cc)
      asked (some none) e = rw (e, reserve_at) (try_alternates-Fills i r low)
      asked (some (some c)) e =
          rw (e, reserve_at) (first c (reserve_backing c r.instances) (rw (e, entry) refl))
