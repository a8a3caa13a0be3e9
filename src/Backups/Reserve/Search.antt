-- ===== src/Backups/Reserve/Search.antt =====
-- The search for an alternate in Reserve of proxy/lambdastore/backups.go.
use lambda_objectstore.Base.{
  ℕ, zero, suc, ◌+◌, ◌-◌, ◌<◌, ◌≤◌, ◌≡◌, refl, ap, ◌∙◌, Bool, true, false, Option, none, some,
  arith, ◌==◌, ltb, if◌then◌else◌, length, set, take, inl, inr, Bool-cases, Option-cases,
  length-set, length-take,
}
use lambda_objectstore.Backups.{
  Answer, ok, closed, refused, entry, is_some, add_to_backups, promote_candidate,
}
use lambda_objectstore.Backups.Reserve.{
  Reserving, promote, drop_demoted, drop_closed, answered, find_alternate, finish_search,
}

abbrev pub one_if : Option ℕ → ℕ
one_if o = if is_some o then 1 else 0

module _ {S : Type 0} where
  -- Neither the backups nor the failures have changed.
  pub record Same (r r' : Reserving S) : Type 0 where
    pub slots_eq : r'.backups.slots ≡ r.backups.slots
    pub availables_eq : r'.backups.availables ≡ r.backups.availables
    pub len_eq : r'.backups.len ≡ r.backups.len
    pub failures_eq : r'.failures ≡ r.failures

  -- The place `i` is filled with `o`.
  pub record Filled (i : ℕ) (o : Option ℕ) (r r' : Reserving S) : Type 0 where
    pub slots_eq : r'.backups.slots ≡ set r.backups.slots i o
    pub availables_eq : r'.backups.availables ≡ r.backups.availables + one_if o
    pub len_eq : r'.backups.len ≡ r.backups.len
    pub failures_eq : r'.failures ≡ (if is_some o then 0 else r.failures + 1)

  pub Same-Filled :
      (i : ℕ) (o : Option ℕ) (r r' r'' : Reserving S)
      → Same r r'
      → Filled i o r' r''
      → Filled i o r r''
  Same-Filled i o r r' r'' h k = record {
    slots_eq = k.slots_eq ∙ ap (λ xs. set xs i o) h.slots_eq;
    availables_eq = k.availables_eq ∙ ap (λ n. n + one_if o) h.availables_eq;
    len_eq = k.len_eq ∙ h.len_eq;
    failures_eq = k.failures_eq ∙ ap (λ n. if is_some o then 0 else n + 1) h.failures_eq;
  }

  pub promote-Filled :
      (i src c : ℕ) (r : Reserving S)
      → entry r.backups.candidates src ≡ some c
      → Filled i (some c) r (promote i src r)
  unfolding promote_candidate add_to_backups
  promote-Filled i src c r e = elim (Bool-cases (i == src)) [
    | inl f ↦ record {
      slots_eq = rw (f, e) refl;
      availables_eq = rw (f, e) refl;
      len_eq = rw f refl;
      failures_eq = refl;
    }
    | inr f ↦ record {
      slots_eq = rw (f, e) refl;
      availables_eq = rw (f, e) refl;
      len_eq = rw f refl;
      failures_eq = refl;
    }
  ]

  promote_kept :
      (i src : ℕ) (r : Reserving S)
      → (length (promote i src r).backups.candidates ≡ length r.backups.candidates)
        × ((promote i src r).panicked ≡ r.panicked)
  unfolding promote_candidate add_to_backups
  promote_kept i src r = elim (Bool-cases (i == src)) [
    | inl f ↦ (rw f refl, refl)
    | inr f ↦ (rw f (length-set _ _ _ ∙ length-set r.backups.candidates i _), refl)
  ]

  drop_demoted_lem :
      (r : Reserving S)
      → 0 < r.alters
      → r.alters < length r.backups.candidates - r.closed_count
      → Same r (drop_demoted r)
        × ((drop_demoted r).alters
            < length (drop_demoted r).backups.candidates - (drop_demoted r).closed_count)
        × ((drop_demoted r).panicked ≡ r.panicked)
  drop_demoted_lem r low inside =
      elim (Bool-cases (is_some (entry r.backups.candidates r.alters))) [
        | inl f ↦ rw f (
          record { slots_eq = refl; availables_eq = refl; len_eq = refl; failures_eq = refl },
          inside,
          refl,
        )
        | inr f ↦ rw f (
          record { slots_eq = refl; availables_eq = refl; len_eq = refl; failures_eq = refl },
          (let last = length r.backups.candidates - r.closed_count - 1 in
              omega (
                arith,
                length-set (set r.backups.candidates last (entry r.backups.candidates r.alters))
                    r.alters (entry r.backups.candidates last),
                length-set r.backups.candidates last (entry r.backups.candidates r.alters),
              )),
          refl,
        )
      ]

  pub Same-refl : (r : Reserving S) → Same r r
  Same-refl r = record { slots_eq = refl; availables_eq = refl; len_eq = refl; failures_eq = refl }

  abbrev pub left : Reserving S → ℕ
  left r = length r.backups.candidates - r.closed_count

  -- What a search for an alternate leads to.
  abbrev pub Sought : ℕ → Reserving S → Reserving S × Bool → Type 0
  Sought i r x =
      x.0.panicked ≡ false
      → (x.1 ≡ true → (c : ℕ) × Filled i (some c) r x.0 × (x.0.alters < left x.0))
        × (x.1 ≡ false → Same r x.0 × (left x.0 ≤ x.0.alters) × (0 < x.0.alters))

  -- The backups are the same, so that what is sought for one state is for the other.
  Same-Sought :
      (i : ℕ) (r r1 : Reserving S) (x : Reserving S × Bool)
      → Same r r1
      → Sought i r1 x
      → Sought i r x
  Same-Sought i r r1 x h k fine =
      let (a, b) = k fine in
      (
        λ e. let (c, filled, inside) = a e in (c, Same-Filled i (some c) r r1 x.0 h filled, inside),
        λ e. let (same, past, low) = b e in (Same-trans r r1 x.0 h same, past, low),
      )
    where
      Same-trans : (r r' r'' : Reserving S) → Same r r' → Same r' r'' → Same r r''
      Same-trans r r' r'' h k = record {
        slots_eq = k.slots_eq ∙ h.slots_eq;
        availables_eq = k.availables_eq ∙ h.availables_eq;
        len_eq = k.len_eq ∙ h.len_eq;
        failures_eq = k.failures_eq ∙ h.failures_eq;
      }

  pub Filled-Same :
      (i : ℕ) (o : Option ℕ) (r r' r'' : Reserving S)
      → Filled i o r r'
      → Same r' r''
      → Filled i o r r''
  Filled-Same i o r r' r'' h k = record {
    slots_eq = k.slots_eq ∙ h.slots_eq;
    availables_eq = k.availables_eq ∙ h.availables_eq;
    len_eq = k.len_eq ∙ h.len_eq;
    failures_eq = k.failures_eq ∙ h.failures_eq;
  }

  answered-Sought :
      (next : Reserving S → Reserving S × Bool) (fuel i c : ℕ) (r : Reserving S) (x : S × Answer)
      → ((r1 : Reserving S) → 0 < r1.alters → left r1 - r1.alters ≤ fuel → Sought i r1 (next r1))
      → 0 < r.alters
      → r.alters < left r
      → left r - r.alters ≤ suc fuel
      → entry r.backups.candidates r.alters ≡ some c
      → Sought i r (answered next i r x)
  unfolding answered
  answered-Sought next fuel i c r (s, ok) ih low inside enough e =
      let r0 = record r { instances = s } in
      let r1 = promote i r.alters r0 in
      let (kept, quiet) = promote_kept i r.alters r0 in
      let (same, there, quiet') = drop_demoted_lem r1 low (omega (arith, kept)) in
      let filled = promote-Filled i r.alters c r0 e in
      λ fine. (
        λ _. (
          c,
          Filled-Same i (some c) r r1 _
              (record {
                slots_eq = filled.slots_eq;
                availables_eq = filled.availables_eq;
                len_eq = filled.len_eq;
                failures_eq = filled.failures_eq;
              })
              same,
          there,
        ),
        λ f. cc,
      )
  answered-Sought next fuel i c r (s, closed) ih low inside enough e =
      let last = left r - 1 in
      let r1 = drop_closed (record r { instances = s }) in
      Same-Sought i r r1 (next r1)
        (record { slots_eq = refl; availables_eq = refl; len_eq = refl; failures_eq = refl })
        (ih r1 low (
          omega (
            arith,
            length-set (set r.backups.candidates last none) r.alters
                (entry r.backups.candidates last),
            length-set r.backups.candidates last none,
          )))
  answered-Sought next fuel i c r (s, refused) ih low inside enough e =
      let r1 = record r { instances = s; alters = r.alters + 1 } in
      Same-Sought i r r1 (next r1)
        (record { slots_eq = refl; availables_eq = refl; len_eq = refl; failures_eq = refl })
        (ih r1 (omega arith) (omega arith))

  pub finish_lem :
      (i : ℕ) (r : Reserving S)
      → (r.alters < left r → Same r (finish_search i r) × (0 < (finish_search i r).alters))
        × (left r ≤ r.alters
            → 0 < r.alters
            → Filled i none r (finish_search i r) × (0 < (finish_search i r).alters))
        × ((finish_search i r).closed_count ≡ 0)
  unfolding finish_search add_to_backups
  finish_lem i r =
      let cut = length-take (left r) r.backups.candidates (omega arith) in
      elim (Bool-cases (ltb r.alters (length (take (left r) r.backups.candidates)))) [
        | inl f ↦ rw f (
          λ h. (
            record { slots_eq = refl; availables_eq = refl; len_eq = refl; failures_eq = refl },
            omega arith,
          ),
          λ h low. absurd (ground (arith, cut)),
          refl,
        )
        | inr f ↦ rw f (
          λ h. absurd (ground (arith, cut)),
          λ h low. (
            record {
              slots_eq = refl;
              availables_eq = omega arith;
              len_eq = refl;
              failures_eq = refl;
            },
            low,
          ),
          refl,
        )
      ]

module _ {S : Type 0} (reserve_backing : ℕ → S → S × Answer) where
  pub find_alternate-Sought :
      (fuel i : ℕ) (r : Reserving S)
      → 0 < r.alters
      → left r - r.alters ≤ fuel
      → Sought i r (find_alternate reserve_backing fuel i r)
  unfolding find_alternate
  find_alternate-Sought zero i r low enough =
      λ fine. (λ e. cc, λ e. (Same-refl r, omega arith, low))
  find_alternate-Sought (suc fuel) i r low enough = elim (Bool-cases (ltb r.alters (left r))) [
    | inr f ↦ rw f (λ fine. (λ e. cc, λ e. (Same-refl r, ground arith, low)))
    | inl f ↦ elim (Option-cases (entry r.backups.candidates r.alters)) [
      | inl e ↦ rw (f, e) (λ fine. cc)
      | inr (c, e) ↦
          rw (f, e)
            (answered-Sought (λ r'. find_alternate reserve_backing fuel i r') fuel i c r
              (reserve_backing c r.instances)
              (λ r1 low1 enough1. find_alternate-Sought fuel i r1 low1 enough1) low (ground arith)
              enough e)
    ]
  ]
