-- ===== src/Links/Manager/Dropped.antt =====
-- Which data links a reset of LinkManager drops, proxy/lambdastore/link_manager.go.
use lambda_objectstore.Base.{
  ℕ, ◌≡◌, refl, subst, Bool, true, false, Option, none, some, List, [], ◌∷◌, ◌==◌, if◌then◌else◌,
  Bool-cases, inl, inr, arith,
}
use mathlib.Core.Option.{some-injective, none-ne-some}
use lambda_objectstore.Links.Workers.{reset_pool}
use lambda_objectstore.Links.Manager.{
  LinkManager, closed, delete_link, with_effect, close_links, reset_locked,
}

-- The link that the map has under an identity.
abbrev pub find_link : ℕ → List (ℕ × ℕ) → Option ℕ
find_link id [] = none
find_link id ((k, link) ∷ xs) = let rest = find_link id xs in if k == id then some link else rest

find_link-delete :
    (id k : ℕ) (xs : List (ℕ × ℕ)) (link : ℕ)
    → find_link id (delete_link k xs) ≡ some link
    → (find_link id xs ≡ some link) × ((k == id) ≡ false)
find_link-delete id k [] link at = absurd (none-ne-some link at)
find_link-delete id k ((j, other) ∷ xs) link at = elim (Bool-cases (j == k)) [
  | inl e ↦
      let there =
        subst
          (λ b.
            find_link id (if b then delete_link k xs else (j, other) ∷ delete_link k xs)
            ≡ some link)
          e at in
      let (found, apart) = find_link-delete id k xs link there in
      let apart' : (j == id) ≡ false = ground arith in (rw apart' found, apart)
  | inr e ↦
      let there =
        subst
          (λ b.
            find_link id (if b then delete_link k xs else (j, other) ∷ delete_link k xs)
            ≡ some link)
          e at in
      elim (Bool-cases (j == id)) [
        | inl f ↦
            let apart : (k == id) ≡ false = ground arith in
            (
              rw f (
                  subst
                    (λ b. (if b then some other else find_link id (delete_link k xs)) ≡ some link) f
                    there),
              apart,
            )
        | inr f ↦
            let (found, apart) = find_link-delete id k xs link (
              subst (λ b. (if b then some other else find_link id (delete_link k xs)) ≡ some link) f
                there) in
            (rw f found, apart)
      ]
]

module _ (worker_id : ℕ → ℕ) where
  -- What is left of `before` when `xs` were ranged over.
  abbrev Left : ℕ → List (ℕ × ℕ) → LinkManager → ℕ → ℕ → Type 0
  Left legacy xs m id link =
      (find_link id m.data_links ≡ some link)
      × ((other : ℕ) → find_link id xs ≡ some other → (worker_id other == worker_id legacy) ≡ false)

  close_links-Left :
      (legacy : ℕ) (xs : List (ℕ × ℕ)) (m : LinkManager) (id link : ℕ)
      → find_link id (close_links worker_id legacy xs m).data_links ≡ some link
      → Left legacy xs m id link
  unfolding close_links
  close_links-Left legacy [] m id link at = (at, λ other there. absurd (none-ne-some other there))
  close_links-Left legacy ((k, first) ∷ xs) m id link at =
      from (λ n. close_links-Left legacy xs n id link) (worker_id first == worker_id legacy) refl at
    where
      dropped : LinkManager
      dropped = record (with_effect (closed first) m) { data_links = delete_link k m.data_links }

      from :
          ((n : LinkManager)
            → find_link id (close_links worker_id legacy xs n).data_links ≡ some link
            → Left legacy xs n id link)
          → (b : Bool) → (worker_id first == worker_id legacy) ≡ b
          → find_link id (close_links worker_id legacy xs (if b then dropped else m)).data_links
            ≡ some link
          → Left legacy ((k, first) ∷ xs) m id link
      from rest true e at =
          let (there, others) = rest dropped at in
          let (before, apart) = find_link-delete id k m.data_links link there in
          (
            before,
            λ other found.
                others other (
                  subst (λ b. (if b then some first else find_link id xs) ≡ some other) apart
                    found),
          )
      from rest false e at =
          let (there, others) = rest m at in
          (
            there,
            λ other found. elim (Bool-cases (k == id)) [
              | inl f ↦
                  subst (λ x. (worker_id x == worker_id legacy) ≡ false)
                    (some-injective _ _ (
                      subst (λ b. (if b then some first else find_link id xs) ≡ some other) f
                        found))
                    e
              | inr f ↦
                  others other
                    (subst (λ b. (if b then some first else find_link id xs) ≡ some other) f found)
            ],
          )

  -- After a reset for a worker, every data link that is left was there before under the same
  -- identity, and is a link of another worker.
  pub reset_locked_drops :
      (legacy : ℕ) (m : LinkManager) (id link : ℕ)
      → find_link id (reset_locked worker_id (some legacy) m).data_links ≡ some link
      → (find_link id m.data_links ≡ some link) × ((worker_id link == worker_id legacy) ≡ false)
  unfolding reset_locked
  reset_locked_drops legacy m id link at =
      let (before, others) =
        close_links-Left legacy m.data_links (record m { pool = reset_pool m.pool }) id link at in
      (before, others link before)
