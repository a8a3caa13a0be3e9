-- ===== src/Backups/Iterate.antt =====
-- BackupIterator of proxy/lambdastore/backups.go. `after` is one more than the index of the
-- iterator, which starts at -1.
use lambda_objectstore.Base.{
  ℕ, zero, suc, ◌+◌, ◌-◌, ◌<◌, ◌≤◌, ◌≡◌, refl, ap, ap₂, ◌∙◌, List, [], ◌∷◌, Bool, true, false,
  Option, none, some, arith, length, take, drop, leb, if◌then◌else◌,
}
use native.Mathlib.Nat.{suc-add}
use lambda_objectstore.Backups.{Backups, entry}

pub record BackupIterator : Type 0 where
  pub after : ℕ
  pub len : ℕ
  pub skipped : ℕ
  pub backups : List (Option ℕ)

-- Iter
abbrev pub iterate : Backups → BackupIterator
iterate b = record { after = 0; len = b.availables; skipped = 0; backups = take b.len b.slots }

-- The loop of Next over the backups from the index on.
unfoldable pub next_from : List (Option ℕ) → BackupIterator → BackupIterator × Bool
next_from [] iter = (record iter { after = iter.after + 1 }, false)
next_from (some ins ∷ xs) iter = (record iter { after = iter.after + 1 }, true)
next_from (none ∷ xs) iter =
    next_from xs (record iter { after = iter.after + 1; skipped = iter.skipped + 1 })

unfoldable pub next_backup : BackupIterator → BackupIterator × Bool
unfolding next_from
next_backup iter = next_from (drop iter.after iter.backups) iter

-- Value, after a Next that returned true.
abbrev pub value_of : BackupIterator → ℕ × Option ℕ
value_of iter = (iter.after - 1 - iter.skipped, entry iter.backups (iter.after - 1))

-- What a loop over the iterator sees.
abbrev pub gather :
    (BackupIterator → List (ℕ × Option ℕ)) → BackupIterator × Bool → List (ℕ × Option ℕ)
gather rest (iter, true) = value_of iter ∷ rest iter
gather rest (iter, false) = []

unfoldable pub collect : ℕ → BackupIterator → List (ℕ × Option ℕ)
unfolding next_backup
collect zero iter = []
collect (suc fuel) iter = gather (λ it. collect fuel it) (next_backup iter)

-- The backups that are there, numbered from `k` on.
abbrev pub numbered : ℕ → List (Option ℕ) → List (ℕ × Option ℕ)
numbered k [] = []
numbered k (none ∷ xs) = numbered k xs
numbered k (some ins ∷ xs) = (k, some ins) ∷ numbered (k + 1) xs

-- StartByIndex: the backup that is told to back the target, if there is one.
unfoldable pub start_by_index : ℕ → Backups → Option (ℕ × ℕ × ℕ)
start_by_index i b =
    if leb b.len i
    then none
    else elim (entry b.slots i) [ some ins ↦ some (ins, i, b.required) | none ↦ none ]

drop-head :
    (n : ℕ) (x : Option ℕ) (ys xs : List (Option ℕ))
    → drop n ys ≡ x ∷ xs
    → (entry ys n ≡ x) × (drop (n + 1) ys ≡ xs)
drop-head zero x [] xs e = absurd cc
drop-head zero x (y ∷ ys) xs e = (cc, cc)
drop-head (suc n) x [] xs e = absurd cc
drop-head (suc n) x (y ∷ ys) xs e = let (a, b) = drop-head n x ys xs e in (a, rw suc-add b)

gather_from :
    (fuel : ℕ) (xs : List (Option ℕ)) (iter : BackupIterator)
    → drop iter.after iter.backups ≡ xs
    → iter.skipped ≤ iter.after
    → length xs < suc fuel
    → ((it : BackupIterator) (ys : List (Option ℕ))
        → drop it.after it.backups ≡ ys
        → it.skipped ≤ it.after
        → length ys < fuel
        → collect fuel it ≡ numbered (it.after - it.skipped) ys)
    → gather (λ it. collect fuel it) (next_from xs iter) ≡ numbered (iter.after - iter.skipped) xs
unfolding next_from
gather_from fuel [] iter e low enough ih = refl
gather_from fuel (none ∷ xs) iter e low enough ih =
    let it = record iter { after = iter.after + 1; skipped = iter.skipped + 1 } in
    gather_from fuel xs it ((drop-head iter.after none iter.backups xs e).1) (omega (arith, low))
      (omega (arith, enough)) ih
    ∙ ap (λ k. numbered k xs) (omega arith)
gather_from fuel (some ins ∷ xs) iter e low enough ih =
    let it = record iter { after = iter.after + 1 } in
    let (here, rest) = drop-head iter.after (some ins) iter.backups xs e in
    ap₂ (λ v vs. v ∷ vs)
      (ap₂ (λ (k : ℕ) (o : Option ℕ). (k, o)) (omega (arith, low))
        (ap (λ n. entry iter.backups n) (omega arith) ∙ here))
      (ih it xs rest (omega (arith, low)) (omega (arith, enough))
        ∙ ap (λ k. numbered k xs) (omega (arith, low)))

collect_from :
    (fuel : ℕ) (iter : BackupIterator) (xs : List (Option ℕ))
    → drop iter.after iter.backups ≡ xs
    → iter.skipped ≤ iter.after
    → length xs < fuel
    → collect fuel iter ≡ numbered (iter.after - iter.skipped) xs
unfolding collect next_backup
collect_from zero iter xs e low enough = absurd (omega (arith, enough))
collect_from (suc fuel) iter xs e low enough =
    ap (λ ys. gather (λ it. collect fuel it) (next_from ys iter)) e
    ∙ gather_from fuel xs iter e low enough (λ it ys f l g. collect_from fuel it ys f l g)

-- The iterator goes over the backups that are there, in their order, and numbers them from 0 on,
-- without the empty places; a call of Next more than there are places is enough.
pub collect-iterate :
    (b : Backups)
    → collect (length (take b.len b.slots) + 1) (iterate b) ≡ numbered 0 (take b.len b.slots)
collect-iterate b =
    collect_from (length (take b.len b.slots) + 1) (iterate b) (take b.len b.slots) refl
      (omega arith) (omega arith)
