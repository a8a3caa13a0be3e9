-- ===== src/Links/Manager/Control.antt =====
-- What SetControl and the resets of LinkManager do, proxy/lambdastore/link_manager.go.
use lambda_objectstore.Base.{
  ℕ, ◌≡◌, inl, inr, refl, sym, ◌∙◌, ap, subst, Bool, true, false, not, ◌&&◌, Option, none, some,
  List, [], ◌∷◌, ◌++◌, ◌==◌, if◌then◌else◌, Bool-cases, if_cases, arith,
}
use mathlib.Core.List.{append_assoc, append-nil}
use lambda_objectstore.Links.{AvailableLinks}
use lambda_objectstore.Links.Queue.{contents, IsChain}
use lambda_objectstore.Links.Workers.{
  Pool, add_to_pool, reset_pool, reset_requests, AvailableLink, manager_reset,
  reset_link_request_locked, is_some,
}
use lambda_objectstore.Links.Reset.{reset_available_empties}
use lambda_objectstore.Links.Workers.Counting.{forced}
use lambda_objectstore.Links.Manager.{
  Effect, bound, closed, LinkManager, delete_link, with_effect, is_worker, add_data_link_locked,
  close_links, reset_locked, or_closed, add_pendings, take_control, set_control, clean_up,
  closed_old,
}

reset_requests-Chain :
    (als : List AvailableLink) (l : AvailableLinks) → IsChain l → IsChain (reset_requests als l).0
unfolding reset_requests reset_link_request_locked
reset_requests-Chain [] l chain = chain
reset_requests-Chain (x ∷ xs) l chain =
    reset_requests-Chain xs (reset_link_request_locked manager_reset l x).0 (
      if_cases (λ (r : AvailableLinks × AvailableLink). IsChain r.0) x.in_list
        (λ _.
          if_cases (λ (r : AvailableLinks × AvailableLink). IsChain r.0) (is_some x.link && true)
            (λ _. chain) (λ _. chain))
        (λ _. chain))

reset_pool-Chain : (p : Pool) → IsChain p.links → IsChain (reset_pool p).links
unfolding reset_pool
reset_pool-Chain p chain =
    let chain' = reset_requests-Chain p.requests p.links chain in
    elim (reset_available_empties (reset_requests p.requests p.links).0 chain') [
      | inl (_, same) ↦ rw same chain'
      | inr (_, _, rest, _, _) ↦ rest
    ]

module _ (worker_id : ℕ → ℕ) where
  -- The pending links of the worker of `ctrl`, and the others.
  abbrev pub own_links : ℕ → List ℕ → List ℕ
  own_links ctrl [] = []
  own_links ctrl (link ∷ links) =
      let rest = own_links ctrl links in
      if worker_id ctrl == worker_id link then link ∷ rest else rest

  abbrev pub pending_effects : ℕ → List ℕ → List Effect
  pending_effects ctrl [] = []
  pending_effects ctrl (link ∷ links) =
      (if worker_id ctrl == worker_id link then bound link else closed link)
      ∷ pending_effects ctrl links

  -- What the loop leaves.
  abbrev pub Adds : ℕ → List ℕ → LinkManager → LinkManager → Type 0
  Adds ctrl links m m' =
      (m'.pendings ≡ [])
      × (m'.ctrl_link ≡ some ctrl)
      × (contents m'.pool.links ≡ contents m.pool.links ++ own_links ctrl links)
      × (m'.effects ≡ m.effects ++ pending_effects ctrl links)

  -- What one round of it leaves.
  abbrev Added : ℕ → ℕ → LinkManager → LinkManager → Type 0
  Added ctrl link m m' =
      (m'.ctrl_link ≡ some ctrl)
      × IsChain m'.pool.links
      × (contents m'.pool.links ≡ contents m.pool.links ++ own_links ctrl (link ∷ []))
      × (m'.effects ≡ m.effects ++ pending_effects ctrl (link ∷ []))

  add_to_pool-Added :
      (link : ℕ) (p : Pool)
      → IsChain p.links
      → IsChain (add_to_pool true link p).1.links
        × (contents (add_to_pool true link p).1.links ≡ contents p.links ++ (link ∷ []))
  unfolding add_to_pool
  add_to_pool-Added link p chain =
      let (m, made, (behind, counted, rest)) = forced link p.links chain in rw made (rest, behind)

  add_pending-Added :
      (ctrl link : ℕ) (m : LinkManager)
      → m.ctrl_link ≡ some ctrl
      → IsChain m.pool.links
      → Added ctrl link m (or_closed worker_id link (add_data_link_locked worker_id false link m))
  unfolding add_data_link_locked
  add_pending-Added ctrl link m own chain =
      if_cases (λ r. Added ctrl link m (or_closed worker_id link r))
        (not (is_worker worker_id m.ctrl_link link))
        (λ e.
          let other : (worker_id ctrl == worker_id link) ≡ false = sym (is own) ∙ opposite e in
          rw other (own, chain, sym (append-nil _), refl))
        (λ e.
          let same : (worker_id ctrl == worker_id link) ≡ true = sym (is own) ∙ opposite e in
          let (chain', behind) = add_to_pool-Added link m.pool chain in
          rw same (own, chain', behind, refl))
    where
      is :
          m.ctrl_link ≡ some ctrl
          → is_worker worker_id m.ctrl_link link ≡ (worker_id ctrl == worker_id link)
      is own = ap (λ c. is_worker worker_id c link) own

      opposite : {a b : Bool} → not a ≡ b → a ≡ not b
      opposite e = ground arith

  own_links_tail :
      (ctrl link : ℕ) (links : List ℕ)
      → own_links ctrl (link ∷ []) ++ own_links ctrl links ≡ own_links ctrl (link ∷ links)
  own_links_tail ctrl link links = elim (Bool-cases (worker_id ctrl == worker_id link)) [
    | inl e ↦ rw e refl
    | inr e ↦ rw e refl
  ]

  add_pendings-Adds :
      (ctrl : ℕ) (links : List ℕ) (m : LinkManager)
      → m.ctrl_link ≡ some ctrl
      → IsChain m.pool.links
      → Adds ctrl links m (add_pendings worker_id links m)
  unfolding add_pendings
  add_pendings-Adds ctrl [] m own chain = (refl, own, sym (append-nil _), sym (append-nil _))
  add_pendings-Adds ctrl (link ∷ links) m own chain =
      let (own', chain', more, effects) =
        add_pending-Added ctrl link (record m { pendings = links }) own chain in
      let (none_left, own'', all, effects') = add_pendings-Adds ctrl links _ own' chain' in
      (
        none_left,
        own'',
        all
            ∙ ap (λ xs. xs ++ own_links ctrl links) more
            ∙ append_assoc (contents m.pool.links) (own_links ctrl (link ∷ []))
                (own_links ctrl links)
            ∙ ap (◌++◌ (contents m.pool.links)) (own_links_tail ctrl link links),
        effects'
            ∙ ap (λ xs. xs ++ pending_effects ctrl links) effects
            ∙ append_assoc m.effects (pending_effects ctrl (link ∷ []))
                (pending_effects ctrl links),
      )

  -- The parts that a reset keeps.
  abbrev Keeps : LinkManager → LinkManager → Type 0
  Keeps m m' =
      (m'.pendings ≡ m.pendings)
      × (m'.ctrl_link ≡ m.ctrl_link)
      × (IsChain m.pool.links → IsChain m'.pool.links)

  close_links-Keeps :
      (legacy : ℕ) (xs : List (ℕ × ℕ)) (m : LinkManager)
      → Keeps m (close_links worker_id legacy xs m)
  unfolding close_links
  close_links-Keeps legacy [] m = (refl, refl, λ chain. chain)
  close_links-Keeps legacy ((id, link) ∷ xs) m =
      let m' = record (with_effect (closed link) m) { data_links = delete_link id m.data_links } in
      if_cases (λ n. Keeps m (close_links worker_id legacy xs n))
        (worker_id link == worker_id legacy) (λ _. close_links-Keeps legacy xs m')
        (λ _. close_links-Keeps legacy xs m)

  reset_locked-Keeps :
      (legacy : Option ℕ) (m : LinkManager) → Keeps m (reset_locked worker_id legacy m)
  unfolding reset_locked
  reset_locked-Keeps none m = (refl, refl, λ chain. chain)
  reset_locked-Keeps (some legacy) m =
      let (pendings, ctrl, chain) =
        close_links-Keeps legacy m.data_links (record m { pool = reset_pool m.pool }) in
      (pendings, ctrl, λ h. chain (reset_pool-Chain m.pool h))

  take_control-Keeps :
      (link : ℕ) (m : LinkManager)
      → IsChain m.pool.links
      → ((take_control worker_id link m).pendings ≡ m.pendings)
        × ((take_control worker_id link m).ctrl_link ≡ some link)
        × IsChain (take_control worker_id link m).pool.links
  unfolding take_control
  take_control-Keeps link m chain =
      old m.ctrl_link (clean_up worker_id link m.last_valid_ctrl begun) (cleaned m.last_valid_ctrl)
    where
      begun : LinkManager
      begun = record (with_effect (bound link) m) { ctrl_link = some link }

      Fine : LinkManager → Type 0
      Fine m' = (m'.pendings ≡ m.pendings) × (m'.ctrl_link ≡ some link) × IsChain m'.pool.links

      cleaned : (last : Option ℕ) → Fine (clean_up worker_id link last begun)
      cleaned none = (refl, refl, chain)
      cleaned (some legacy) =
          if_cases Fine (worker_id link == worker_id legacy) (λ _. (refl, refl, chain))
            (λ _.
              let (pendings, ctrl, kept) = reset_locked-Keeps (some legacy) begun in
              (pendings, ctrl, kept chain))

      old :
          (ctrl : Option ℕ) (m' : LinkManager)
          → Fine m'
          → Fine (record (closed_old ctrl m') { last_valid_ctrl = some link })
      old none m' fine = fine
      old (some ctrl) m' fine = fine

  -- SetControl leaves no link pending: of those that were, the links of the new worker stand, in
  -- their order, behind the links that wait after the clean-up, and the others are closed. It holds
  -- where the buckets after the bottom are empty.
  pub set_control_settles :
      (link : ℕ) (m : LinkManager)
      → IsChain m.pool.links
      → Adds link m.pendings (take_control worker_id link m) (set_control worker_id link m)
  unfolding set_control
  set_control_settles link m chain =
      let (pendings, ctrl, chain') = take_control-Keeps link m chain in
      subst
        (λ links. Adds link links (take_control worker_id link m) (
          add_pendings worker_id (take_control worker_id link m).pendings
            (take_control worker_id link m)))
        pendings
        (add_pendings-Adds link (take_control worker_id link m).pendings
          (take_control worker_id link m) ctrl chain')
