-- ===== src/Links/Workers/Counted.antt =====
-- How AvailableLinks counts the links of a whole pool, proxy/lambdastore/link_manager.go.
use lambda_objectstore.Base.{
  ℕ, zero, suc, ◌+◌, ◌≡◌, inl, inr, refl, sym, ◌∙◌, ap, ap₂, subst, Bool, true, not, ◌||◌, Option,
  none, some, List, [], ◌∷◌, ◌++◌, length, get_elem?, set, All, arith, length-append, All-append,
}
use mathlib.Core.Option.{some-injective, none-ne-some}
use lambda_objectstore.Base.Int.{pos, ◌+ℤ◌}
use lambda_objectstore.Links.{AvailableLinks}
use lambda_objectstore.Links.Queue.{contents, IsChain, add_available_queues}
use lambda_objectstore.Links.Reset.{reset_available_empties}
use lambda_objectstore.Links.Workers.{
  manager_reset, AvailableLink, Pool, get_request_pipe, reset_link_request_locked, Event, on_event,
  on_request, run_event, reset_requests, reset_pool, add_to_pool,
}
use lambda_objectstore.Links.Workers.Requests.{
  on_event-Once, reset_request-Once, IsOnce, PoolCall, getting, resetting, adding, going, run_call,
}
use lambda_objectstore.Links.Workers.Counting.{
  is_holder, held, holders, reset_request-Counts, on_event-Counts,
}

-- The counter is the number of the links that wait and of those that goroutines hold.
abbrev pub IsCounted : Pool → Type 0
IsCounted p =
    IsChain p.links
    × (p.links.total ≡ pos (length (contents p.links) + holders p.requests))
    × All IsOnce p.requests

holders-set :
    (als : List AvailableLink) (i : ℕ) (al al' : AvailableLink)
    → get_elem? als i ≡ some al
    → (k : ℕ) × (holders als ≡ held al + k) × (holders (set als i al') ≡ held al' + k)
holders-set [] i al al' at = absurd (none-ne-some al at)
holders-set (x ∷ xs) zero al al' at =
    (holders xs, ap (λ x. held x + holders xs) (some-injective _ _ at), refl)
holders-set (x ∷ xs) (suc i) al al' at =
    let (k, before, after) = holders-set xs i al al' at in
    (
      held x + k,
      ap (◌+◌ (held x)) before ∙ swap (held x) (held al) k,
      ap (◌+◌ (held x)) after ∙ swap (held x) (held al') k,
    )
  where
    swap : (a b c : ℕ) → a + (b + c) ≡ b + (a + c)
    swap a b c = omega arith

All-set {ℓ} :
    {A : Type ℓ} (P : A → Type 0) (xs : List A) (i : ℕ) (x : A)
    → All P xs
    → P x
    → All P (set xs i x)
All-set P [] i x h p = tt
All-set P (y ∷ ys) zero x h p = (p, h.1)
All-set P (y ∷ ys) (suc i) x h p = (h.0, All-set P ys i x h.1 p)

All-get {ℓ} :
    {A : Type ℓ} (P : A → Type 0) (xs : List A) (i : ℕ) (x : A)
    → All P xs
    → get_elem? xs i ≡ some x
    → P x
All-get P [] i x h at = absurd (none-ne-some x at)
All-get P (y ∷ ys) zero x h at = subst P (some-injective _ _ at) h.0
All-get P (y ∷ ys) (suc i) x h at = All-get P ys i x h.1 at

-- The events of a request keep the count right.
pub run_event-Counted : (e : Event) (i : ℕ) (p : Pool) → IsCounted p → IsCounted (run_event e i p)
unfolding run_event
run_event-Counted e i p (chain, total, once) = from (get_elem? p.requests i) refl
  where
    from :
        (slot : Option AvailableLink)
        → get_elem? p.requests i ≡ slot
        → IsCounted (on_request e i slot p)
    from none at = (chain, total, once)
    from (some al) at =
        let own = All-get IsOnce p.requests i al once at in
        let (k, before, after) = holders-set p.requests i al (on_event e p.links al).1 at in
        let (chain', total') =
          on_event-Counts k e p.links al own
            (chain, total ∙ ap (λ h. pos (length (contents p.links) + h)) before) in
        (
          chain',
          total' ∙ ap (λ h. pos (length (contents (on_event e p.links al).0) + h)) (sym after),
          All-set IsOnce p.requests i (on_event e p.links al).1 once
              (on_event-Once e p.links al own),
        )

holders-append : (als bs : List AvailableLink) → holders (als ++ bs) ≡ holders als + holders bs
holders-append [] bs = omega arith
holders-append (x ∷ xs) bs = omega (arith, holders-append xs bs)

-- The requests that are reset, with `k` links held by others.
reset_requests-Counts :
    (k : ℕ) (als : List AvailableLink) (l : AvailableLinks)
    → All IsOnce als
    → IsChain l
    → l.total ≡ pos (length (contents l) + (holders als + k))
    → IsChain (reset_requests als l).0
      × ((reset_requests als l).0.total
          ≡ pos
              (length (contents (reset_requests als l).0) + (holders (reset_requests als l).1 + k)))
      × All IsOnce (reset_requests als l).1
unfolding reset_requests
reset_requests-Counts k [] l once chain total = (chain, total, tt)
reset_requests-Counts k (x ∷ xs) l (own, once) chain total =
    let first = reset_link_request_locked manager_reset l x in
    let rest = reset_requests xs first.0 in
    let (chain', total') =
      reset_request-Counts (holders xs + k) manager_reset l x own
        (chain, total ∙ ap (λ h. pos (length (contents l) + h)) (assoc (held x) (holders xs))) in
    let (chain'', total'', once'') =
      reset_requests-Counts (held first.1 + k) xs first.0 once chain' (
        total'
        ∙ ap (λ h. pos (length (contents first.0) + h)) (swap (held first.1) (holders xs))) in
    (
      chain'',
      total''
          ∙ ap (λ h. pos (length (contents rest.0) + h))
              (swap_back (holders rest.1) (held first.1)),
      (reset_request-Once manager_reset l x own, once''),
    )
  where
    assoc : (a b : ℕ) → a + b + k ≡ a + (b + k)
    assoc a b = omega arith

    swap : (a b : ℕ) → a + (b + k) ≡ b + (a + k)
    swap a b = omega arith

    swap_back : (a b : ℕ) → a + (b + k) ≡ b + a + k
    swap_back a b = omega arith

-- No goroutine has taken a request and a link which it has not handed over or given back.
abbrev pub IsSettled : AvailableLink → Type 0
IsSettled al = (al.in_list || not (is_holder al)) ≡ true

reset_request_frees :
    (l : AvailableLinks) (al : AvailableLink)
    → IsSettled al
    → held (reset_link_request_locked manager_reset l al).1 ≡ 0
unfolding reset_link_request_locked
reset_request_frees l al settled = ground arith

reset_requests_free :
    (als : List AvailableLink) (l : AvailableLinks)
    → All IsSettled als
    → holders (reset_requests als l).1 ≡ 0
unfolding reset_requests
reset_requests_free [] l settled = refl
reset_requests_free (x ∷ xs) l (own, settled) =
    ap₂ ◌+◌ (reset_request_frees l x own)
      (reset_requests_free xs (reset_link_request_locked manager_reset l x).0 settled)

reset_pool-Counted : (p : Pool) → IsCounted p → All IsSettled p.requests → IsCounted (reset_pool p)
unfolding reset_pool
reset_pool-Counted p (chain, total, once) settled =
    let r = reset_requests p.requests p.links in
    let free = reset_requests_free p.requests p.links settled in
    let (chain', total', once') = reset_requests-Counts 0 p.requests p.links once chain (
      total
      ∙ ap (λ h. pos (length (contents p.links) + h)) (sym (none_else (holders p.requests)))) in
    let counted = total' ∙ ap (λ h. pos (length (contents r.0) + h)) (none_else (holders r.1)) in
    elim (reset_available_empties r.0 chain') [
      | inl (_, same) ↦ rw same (chain', counted, once')
      | inr (_, empty, rest, zeroed, _) ↦
          (rest, zeroed ∙ sym (ap₂ (λ xs h. pos (length xs + h)) empty free), once')
    ]
  where
    none_else : (n : ℕ) → n + 0 ≡ n
    none_else n = omega arith

add_to_pool-Counted :
    (nolimit : Bool) (link : ℕ) (p : Pool) → IsCounted p → IsCounted (add_to_pool nolimit link p).1
unfolding add_to_pool
add_to_pool-Counted nolimit link p (chain, total, once) =
    elim (add_available_queues nolimit link p.links chain) [
      | inl (_, refused) ↦ rw refused (chain, total, once)
      | inr (_, (m, made, (behind, counted, rest))) ↦
          let longer : length (contents m) ≡ length (contents p.links) + 1 =
            ap length behind ∙ length-append (contents p.links) (link ∷ []) in
          rw made (
            rest,
            counted
                ∙ ap (λ n. n +ℤ pos 1) total
                ∙ one_more (length (contents p.links))
                ∙ ap (λ n. pos (n + holders p.requests)) (sym longer),
            once,
          )
    ]
  where
    one_more : (n : ℕ) → pos (n + holders p.requests) +ℤ pos 1 ≡ pos (n + 1 + holders p.requests)
    one_more n = ground arith

-- What a call asks of the pool.
abbrev pub MayCall : PoolCall → Pool → Type 0
MayCall getting p = Unit
MayCall resetting p = All IsSettled p.requests
MayCall (adding _ _) p = Unit
MayCall (going _ _) p = Unit

-- The counter of available links stays the number of the links in the buckets and of those that
-- goroutines hold, whatever happens to the pool: for Reset, where no goroutine is between taking a
-- request and counting its link off.
pub run_call-Counted :
    (c : PoolCall) (p : Pool) → MayCall c p → IsCounted p → IsCounted (run_call c p)
unfolding run_call get_request_pipe
run_call-Counted getting p may (chain, total, once) = (
  chain,
  total
      ∙ ap (λ h. pos (length (contents p.links) + h))
          (none_more (holders p.requests) ∙ sym (holders-append p.requests _)),
  All-append IsOnce p.requests _ once ((refl, refl, refl), tt),
)
  where
    none_more : (n : ℕ) → n ≡ n + 0
    none_more n = omega arith
run_call-Counted resetting p may counted = reset_pool-Counted p counted may
run_call-Counted (adding nolimit link) p may counted = add_to_pool-Counted nolimit link p counted
run_call-Counted (going e i) p may counted = run_event-Counted e i p counted
