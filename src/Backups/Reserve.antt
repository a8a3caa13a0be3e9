-- ===== src/Backups/Reserve.antt =====
-- Reserve of proxy/lambdastore/backups.go.
pub mod Search
pub mod Fill
pub mod Refill
pub mod Count
use lambda_objectstore.Base.{
  ℕ, zero, suc, List, [], ◌∷◌, Option, ◌+◌, ◌-◌, Bool, true, false, none, some, ◌==◌, ltb,
  if◌then◌else◌, length, get_elem?, set, take,
}
use lambda_objectstore.Backups.{
  Backups, Answer, ok, closed, refused, entry, is_some, exchange, add_to_backups, promote_candidate,
  reset_locator,
}

-- The variables of the loop over the backups. `panicked` is set where the source panics: a nil candidate is
-- asked, or there are fewer candidates than backups.
pub record Reserving (S : Type 0) : Type 0 where
  pub instances : S
  pub backups : Backups
  pub changes : ℕ
  pub alters : ℕ
  pub failures : ℕ
  pub closed_count : ℕ
  pub panicked : Bool

module _ {S : Type 0} where
  -- A candidate is promoted to the place `i`.
  abbrev pub promote : ℕ → ℕ → Reserving S → Reserving S
  promote i src r =
      let (b, change) = promote_candidate i src r.backups in
      record r { backups = b; changes = r.changes + change; failures = 0 }

  -- The demoted candidate, where it is nil, goes to the tail, which is cut off later.
  abbrev pub drop_demoted : Reserving S → Reserving S
  drop_demoted r =
      let cs = r.backups.candidates in
      if is_some (entry cs r.alters) then r else record r {
        backups = record r.backups {
          candidates = exchange (length cs - r.closed_count - 1) r.alters cs;
        };
        closed_count = r.closed_count + 1;
        alters = r.alters - 1;
      }

  -- A closed candidate is put at the tail as nil, and the last one takes its index.
  abbrev pub drop_closed : Reserving S → Reserving S
  drop_closed r =
      let cs = r.backups.candidates in
      let last = length cs - r.closed_count - 1 in
      record r {
        backups = record r.backups { candidates = set (set cs last none) r.alters (entry cs last) };
        closed_count = r.closed_count + 1;
      }

  -- The end of the search at the place `i`: the closed candidates are cut off, and without an
  -- alternate left, the place stays empty.
  unfoldable pub finish_search : ℕ → Reserving S → Reserving S
  unfolding add_to_backups
  finish_search i r =
      let cs = take (length r.backups.candidates - r.closed_count) r.backups.candidates in
      let b = record r.backups { candidates = cs } in
      if ltb r.alters (length cs)
      then record r { backups = b; closed_count = 0; alters = r.alters + 1 }
      else (let (b', change) = add_to_backups i none b in
          record r {
            backups = b';
            closed_count = 0;
            changes = r.changes + change;
            failures = r.failures + 1;
          })

  -- What follows the answer of an alternate; `next` goes on with the search. The flag tells
  -- whether one was found.
  unfoldable pub answered :
      (Reserving S → Reserving S × Bool) → ℕ → Reserving S → S × Answer → Reserving S × Bool
  unfolding promote_candidate
  answered next i r (s, ok) = (drop_demoted (promote i r.alters (record r { instances = s })), true)
  answered next i r (s, closed) = next (drop_closed (record r { instances = s }))
  answered next i r (s, refused) = next (record r { instances = s; alters = r.alters + 1 })

  -- The locator is told the number of backups before the empty ones at the end are cut off.
  abbrev pub shrink : Reserving S → Reserving S
  shrink r = record r {
    backups = record r.backups {
      locator = reset_locator r.backups.len r.backups.locator;
      len = r.backups.len - r.failures;
    };
  }

  unfoldable pub finish_reserve : Reserving S → Reserving S
  unfolding reset_locator
  finish_reserve r = if r.panicked then r else shrink r

  abbrev pub start_reserving : S → Backups → Reserving S
  start_reserving s b =
      let len = if ltb b.len b.required then b.required else b.len in
      record {
        instances = s;
        backups = record b { len = len; availables = 0 };
        changes = 0;
        alters = len;
        failures = 0;
        closed_count = 0;
        panicked = false;
      }

  -- What follows the answer of an instance that the fallback offers; `next` tries the others.
  unfoldable pub fallback_answered :
      (List ℕ → Reserving S → Reserving S × List ℕ × Bool)
      → ℕ
      → ℕ
      → List ℕ
      → Reserving S
      → S × Answer
      → Reserving S × List ℕ × Bool
  unfolding add_to_backups
  fallback_answered next i c others r (s, ok) =
      let cs = set r.backups.candidates i (some c) in
      let (b, change) = add_to_backups i (some c) (record r.backups { candidates = cs }) in
      (record r { instances = s; backups = b; failures = 0 }, others, true)
  fallback_answered next i c others r (s, closed) = next others (record r { instances = s })
  fallback_answered next i c others r (s, refused) = next others (record r { instances = s })

  unfoldable pub tried : Reserving S × List ℕ × Bool → Reserving S × List ℕ
  tried (r, others, true) = (r, others)
  tried (r, others, false) = (record r { failures = r.failures + 1 }, others)

module _ {S : Type 0} (reserve_backing : ℕ → S → S × Answer) where
  -- The search for an alternate; each round drops one or goes on to the next.
  unfoldable pub find_alternate : ℕ → ℕ → Reserving S → Reserving S × Bool
  find_alternate zero i r = (r, false)
  find_alternate (suc fuel) i r =
      if ltb r.alters (length r.backups.candidates - r.closed_count)
      then elim (entry r.backups.candidates r.alters) [
        | none ↦ (record r { panicked = true }, false)
        | some c ↦ answered (λ r'. find_alternate fuel i r') i r (reserve_backing c r.instances)
      ]
      else (r, false)

  unfoldable pub try_alternates : ℕ → Reserving S → Reserving S
  unfolding find_alternate finish_search
  try_alternates i r =
      let r' = (find_alternate (length r.backups.candidates) i r).0 in
      if r'.panicked then r' else finish_search i r'

  -- What follows the answer of the candidate that belongs to the place `i`.
  unfoldable pub answered_first : ℕ → Reserving S → S × Answer → Reserving S
  unfolding promote_candidate try_alternates
  answered_first i r (s, ok) = promote i i (record r { instances = s })
  answered_first i r (s, closed) = try_alternates i (record r {
    instances = s;
    backups = record r.backups { candidates = set r.backups.candidates i none };
  })
  answered_first i r (s, refused) = try_alternates i (record r { instances = s })

  unfoldable pub reserve_at : ℕ → Reserving S → Reserving S
  unfolding answered_first
  reserve_at i r = elim (get_elem? r.backups.candidates i) [
    | none ↦ record r { panicked = true }
    | some none ↦ try_alternates i r
    | some (some c) ↦ answered_first i r (reserve_backing c r.instances)
  ]

  -- The loop over the backups, `n` of which are left.
  unfoldable pub reserve_loop : ℕ → ℕ → Reserving S → Reserving S
  unfolding reserve_at
  reserve_loop zero i r = r
  reserve_loop (suc n) i r =
      let r' = reserve_at i r in
      let rest = reserve_loop n (i + 1) r' in if r'.panicked then r' else rest

  -- A limited number of instances of the fallback is tried, the instance itself left out.
  unfoldable pub try_fallback : ℕ → ℕ → ℕ → List ℕ → Reserving S → Reserving S × List ℕ × Bool
  unfolding fallback_answered
  try_fallback zero own i others r = (r, others, false)
  try_fallback (suc n) own i [] r = (r, [], false)
  try_fallback (suc n) own i (c ∷ others) r =
      let next = (λ (cs : List ℕ) (r' : Reserving S). try_fallback n own i cs r') in
      if c == own
      then next others r
      else fallback_answered next i c others r (reserve_backing c r.instances)

  unfoldable pub refill_at : ℕ → ℕ → List ℕ → Reserving S → Reserving S × List ℕ
  unfolding try_fallback tried
  refill_at own i others r = elim (entry r.backups.slots i) [
    | some c ↦ (record r { failures = 0 }, others)
    | none ↦ tried (try_fallback r.backups.required own i others r)
  ]

  -- The second loop over the backups, `n` of which are left.
  unfoldable pub refill : ℕ → ℕ → ℕ → Reserving S × List ℕ → Reserving S
  unfolding refill_at
  refill zero own i (r, others) = r
  refill (suc n) own i (r, others) = refill n own (i + 1) (refill_at own i others r)

  unfoldable pub with_fallback : ℕ → Option (List ℕ) → Reserving S → Reserving S
  unfolding refill
  with_fallback own none r = r
  with_fallback own (some others) r =
      if r.panicked then r else refill r.backups.len own 0 (record r { failures = 0 }, others)

  -- `own` is the instance, and `fallback` what an iterator over further instances gives.
  unfoldable pub reserve : ℕ → Option (List ℕ) → S → Backups → Reserving S
  unfolding reserve_loop with_fallback finish_reserve
  reserve own fallback s b =
      if b.required == 0
      then record (start_reserving s b) { backups = b }
      else finish_reserve (
          with_fallback own fallback
            (reserve_loop (start_reserving s b).backups.len 0 (start_reserving s b)))
