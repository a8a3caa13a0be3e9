-- ===== src/Backups/Reserve/Refill.antt =====
-- The second loop of Reserve of proxy/lambdastore/backups.go, over the places without a backup.
use lambda_objectstore.Base.{
  ℕ, zero, suc, ◌+◌, ◌-◌, ◌<◌, ◌≤◌, ◌≡◌, refl, sym, ap, ap₂, subst, ◌∙◌, List, [], ◌∷◌, Bool, true,
  false, Option, none, some, arith, ◌==◌, if◌then◌else◌, length, set, take, inl, inr, Bool-cases,
  Option-cases, length-set,
}
use native.Mathlib.Nat.{suc-add}
use lambda_objectstore.Backups.{Answer, ok, closed, refused, entry, add_to_backups}
use lambda_objectstore.Backups.Reserve.{
  Reserving, fallback_answered, try_fallback, tried, refill_at, refill, with_fallback,
}
use lambda_objectstore.Backups.Reserve.Search.{one_if, Same, Filled, Same-refl}

-- The backups that are there.
abbrev pub count : List (Option ℕ) → ℕ
count [] = 0
count (o ∷ xs) = one_if o + count xs

count-take_next :
    (xs : List (Option ℕ)) (i : ℕ)
    → i < length xs
    → count (take (i + 1) xs) ≡ count (take i xs) + one_if (entry xs i)
count-take_next [] i h = absurd (omega arith)
count-take_next (x ∷ xs) zero h = omega arith
count-take_next (x ∷ xs) (suc i) h = rw suc-add (omega (arith, count-take_next xs i (omega arith)))

-- A place that was empty is filled.
count-take_filled :
    (xs : List (Option ℕ)) (k i c : ℕ)
    → i < k
    → i < length xs
    → entry xs i ≡ none
    → count (take k (set xs i (some c))) ≡ count (take k xs) + 1
count-take_filled [] k i c h g e = absurd (omega arith)
count-take_filled (x ∷ xs) zero i c h g e = absurd (omega arith)
count-take_filled (x ∷ xs) (suc k) zero c h g e = rw e (omega arith)
count-take_filled (x ∷ xs) (suc k) (suc i) c h g e =
    omega (arith, count-take_filled xs k i c (omega arith) (omega arith) e)

module _ {S : Type 0} where
  -- Before the place `i` is looked at again.
  pub record IsRefilled (i : ℕ) (r : Reserving S) : Type 0 where
    pub availables_eq : r.backups.availables ≡ count (take r.backups.len r.backups.slots)
    pub failures_le : r.failures ≤ i
    pub trailing : count (take (i - r.failures) r.backups.slots) ≡ count (take i r.backups.slots)

module _ {S : Type 0} (reserve_backing : ℕ → S → S × Answer) where
  -- What the fallback leads to at the place `i`.
  abbrev Tried : ℕ → Reserving S → Reserving S × List ℕ × Bool → Type 0
  Tried i r x = (x.2 ≡ true → (c : ℕ) × Filled i (some c) r x.0) × (x.2 ≡ false → Same r x.0)

  Same-Tried :
      (i : ℕ) (s : S) (r : Reserving S) (x : Reserving S × List ℕ × Bool)
      → Tried i (record r { instances = s }) x
      → Tried i r x
  Same-Tried i s r x (yes_case, no_case) = (
    λ e.
        let (c, f) = yes_case e in
        (
          c,
          record {
            slots_eq = f.slots_eq;
            availables_eq = f.availables_eq;
            len_eq = f.len_eq;
            failures_eq = f.failures_eq;
          },
        ),
    λ e.
        let f = no_case e in
        record {
          slots_eq = f.slots_eq;
          availables_eq = f.availables_eq;
          len_eq = f.len_eq;
          failures_eq = f.failures_eq;
        },
  )

  answered-Tried :
      (next : List ℕ → Reserving S → Reserving S × List ℕ × Bool) (i c : ℕ) (others : List ℕ)
      (r : Reserving S) (x : S × Answer)
      → ((r' : Reserving S) → Tried i r' (next others r'))
      → Tried i r (fallback_answered next i c others r x)
  unfolding fallback_answered add_to_backups
  answered-Tried next i c others r (s, ok) ih = (
    λ e. (c, record { slots_eq = refl; availables_eq = refl; len_eq = refl; failures_eq = refl }),
    λ e. cc,
  )
  answered-Tried next i c others r (s, closed) ih =
      Same-Tried i s r (next others (record r { instances = s })) (ih (record r { instances = s }))
  answered-Tried next i c others r (s, refused) ih =
      Same-Tried i s r (next others (record r { instances = s })) (ih (record r { instances = s }))

  try_fallback-Tried :
      (n own i : ℕ) (others : List ℕ) (r : Reserving S)
      → Tried i r (try_fallback reserve_backing n own i others r)
  unfolding try_fallback
  try_fallback-Tried zero own i others r = (λ e. cc, λ e. Same-refl r)
  try_fallback-Tried (suc n) own i [] r = (λ e. cc, λ e. Same-refl r)
  try_fallback-Tried (suc n) own i (c ∷ others) r = elim (Bool-cases (c == own)) [
    | inl e ↦ rw e (try_fallback-Tried n own i others r)
    | inr e ↦ rw e (
        answered-Tried (λ cs r'. try_fallback reserve_backing n own i cs r') i c others r
          (reserve_backing c r.instances) (λ r'. try_fallback-Tried n own i others r'))
  ]

  -- The place `i` after the fallback.
  tried-IsRefilled :
      (i : ℕ) (r : Reserving S) (x : Reserving S × List ℕ × Bool)
      → i < r.backups.len
      → r.backups.len ≤ length r.backups.slots
      → entry r.backups.slots i ≡ none
      → IsRefilled i r
      → Tried i r x
      → IsRefilled (i + 1) (tried x).0
        × ((tried x).0.backups.len ≡ r.backups.len)
        × (length (tried x).0.backups.slots ≡ length r.backups.slots)
  unfolding tried
  tried-IsRefilled i r (r', others, true) inside room e h t =
      let (c, f) = t.0 refl in
      (
        record {
          availables_eq =
              f.availables_eq
              ∙ ap (λ n. n + 1) h.availables_eq
              ∙ sym (
                  count-take_filled r.backups.slots r.backups.len i c inside
                    (omega (arith, inside, room)) e)
              ∙ ap₂ (λ k xs. count (take k xs)) (sym f.len_eq) (sym f.slots_eq);
          failures_le = omega (arith, f.failures_eq);
          trailing = ap (λ n. count (take n r'.backups.slots)) (omega (arith, f.failures_eq));
        },
        f.len_eq,
        ap length f.slots_eq ∙ length-set r.backups.slots i (some c),
      )
  tried-IsRefilled i r (r', others, false) inside room e h t =
      let f = t.1 refl in
      let next : count (take (i + 1) r.backups.slots) ≡ count (take i r.backups.slots) =
        count-take_next r.backups.slots i (omega (arith, inside, room))
        ∙ ap (λ o. count (take i r.backups.slots) + one_if o) e
        ∙ omega arith in
      (
        record {
          availables_eq =
              f.availables_eq
              ∙ h.availables_eq
              ∙ ap₂ (λ k xs. count (take k xs)) (sym f.len_eq) (sym f.slots_eq);
          failures_le = omega (arith, f.failures_eq, h.failures_le);
          trailing =
              ap₂ (λ k xs. count (take k xs)) (omega (arith, f.failures_eq, h.failures_le))
                f.slots_eq
              ∙ h.trailing
              ∙ sym next
              ∙ ap (λ xs. count (take (i + 1) xs)) (sym f.slots_eq);
        },
        f.len_eq,
        ap length f.slots_eq,
      )

  refill_at-IsRefilled :
      (own i : ℕ) (others : List ℕ) (r : Reserving S)
      → i < r.backups.len
      → r.backups.len ≤ length r.backups.slots
      → IsRefilled i r
      → IsRefilled (i + 1) (refill_at reserve_backing own i others r).0
        × ((refill_at reserve_backing own i others r).0.backups.len ≡ r.backups.len)
        × (length (refill_at reserve_backing own i others r).0.backups.slots
            ≡ length r.backups.slots)
  unfolding refill_at
  refill_at-IsRefilled own i others r inside room h =
      elim (Option-cases (entry r.backups.slots i)) [
        | inl e ↦
            rw (e, refill_at)
              (tried-IsRefilled i r (try_fallback reserve_backing r.backups.required own i others r)
                inside room e h (try_fallback-Tried r.backups.required own i others r))
        | inr (c, e) ↦
            rw (e, refill_at)
              (
                record {
                  availables_eq = h.availables_eq;
                  failures_le = omega arith;
                  trailing = ap (λ n. count (take n r.backups.slots)) (omega arith);
                },
                refl,
                refl,
              )
      ]

  refill-IsRefilled :
      (n own i : ℕ) (x : Reserving S × List ℕ)
      → i + n ≡ x.0.backups.len
      → x.0.backups.len ≤ length x.0.backups.slots
      → IsRefilled i x.0
      → IsRefilled (i + n) (refill reserve_backing n own i x)
        × ((refill reserve_backing n own i x).backups.len ≡ x.0.backups.len)
  unfolding refill
  refill-IsRefilled zero own i (r, others) whole room h =
      (subst (λ k. IsRefilled k r) (omega arith) h, refl)
  refill-IsRefilled (suc n) own i (r, others) whole room h =
      let (h', len_eq, size) = refill_at-IsRefilled own i others r (omega (arith, whole)) room h in
      let x = refill_at reserve_backing own i others r in
      let (done, same) =
        refill-IsRefilled n own (i + 1) x (omega (arith, whole, len_eq))
          (omega (arith, room, len_eq, size)) h' in
      (
        subst (λ k. IsRefilled k (refill reserve_backing n own (i + 1) x)) (omega arith) done,
        same ∙ len_eq,
      )

  -- The second loop, or none, over places that were counted.
  pub with_fallback-IsRefilled :
      (own : ℕ) (fallback : Option (List ℕ)) (r : Reserving S)
      → r.panicked ≡ false
      → r.backups.len ≤ length r.backups.slots
      → IsRefilled r.backups.len r
      → IsRefilled
          (with_fallback reserve_backing own fallback r).backups.len
          (with_fallback reserve_backing own fallback r)
  unfolding with_fallback
  with_fallback-IsRefilled own none r quiet room h = h
  with_fallback-IsRefilled own (some others) r quiet room h =
      let r0 = record r { failures = 0 } in
      let (done, same) =
        refill-IsRefilled r.backups.len own 0 (r0, others) (omega arith) room
          (record {
            availables_eq = h.availables_eq;
            failures_le = omega arith;
            trailing = refl;
          }) in
      let x = refill reserve_backing r.backups.len own 0 (r0, others) in
      let e = ap (λ b. if b then r else x) quiet in
      subst (λ y. IsRefilled y.backups.len y) (sym e)
        (subst (λ k. IsRefilled k x) (omega (arith, same)) done)

  pub with_fallback_quiet :
      (own : ℕ) (fallback : Option (List ℕ)) (r : Reserving S)
      → (with_fallback reserve_backing own fallback r).panicked ≡ false
      → r.panicked ≡ false
  unfolding with_fallback
  with_fallback_quiet own none r fine = fine
  with_fallback_quiet own (some others) r fine = elim (Bool-cases r.panicked) [
    | inr e ↦ e
    | inl e ↦
        let x = refill reserve_backing r.backups.len own 0 (record r { failures = 0 }, others) in
        sym (ap (λ b. (if b then r else x).panicked) e) ∙ fine
  ]
