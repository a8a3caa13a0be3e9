-- ===== src/Window/Ack/Rounds.antt =====
-- What the rounds of the loop in AckRequest of common/redeo/client/wnd.go do to the window.
use lambda_objectstore.Base.{
  ℕ, zero, suc, ◌+◌, ◌*◌, ◌<◌, ◌≡◌, ◌≢◌, inl, inr, refl, sym, ◌∙◌, ap, subst, true, false, ◌&&◌,
  Option, none, some, List, [], ◌∷◌, ◌==◌, if◌then◌else◌, if_cases, Bool-cases, length, get_elem?,
  set, drop, arith, get_elem?-set, get_elem?_bounds,
}
use mathlib.Core.Option.{some-injective, none-ne-some}
use lambda_objectstore.WaitGroup.{done}
use lambda_objectstore.Window.{
  ReqBucket, RequestMeta, Window, seq_step, live, seek, Sought, not_there, out_of_range, at,
  request_at, request_of, slot_meta,
}
use lambda_objectstore.Window.Add.{with_live}
use lambda_objectstore.Window.Ack.{
  change_slot, change_at, Advancing, notify, release_at, release, advance,
}

pub live_set :
    (w : Window) (k : ℕ) (b : ReqBucket) → live (with_live (set (live w) k b) w) ≡ set (live w) k b
live_set w zero b = refl
live_set w (suc k) b = refl

-- Where a request stands, there is its bucket with its position.
request_there :
    (k i : ℕ) (m : RequestMeta) (bs : List ReqBucket)
    → request_at k i bs ≡ some m
    → (b : ReqBucket) × (get_elem? bs k ≡ some b) × (i < length b.requests)
request_there k i m bs there = from (get_elem? bs k) refl there
  where
    slot :
        (b : ReqBucket) (s : Option (Option RequestMeta))
        → get_elem? b.requests i ≡ s
        → slot_meta s ≡ some m
        → i < length b.requests
    slot b none e h = absurd (none-ne-some m h)
    slot b (some x) e h = get_elem?_bounds b.requests i e

    from :
        (o : Option ReqBucket)
        → get_elem? bs k ≡ o
        → request_of o i ≡ some m
        → (b : ReqBucket) × (get_elem? bs k ≡ some b) × (i < length b.requests)
    from none e h = absurd (none-ne-some m h)
    from (some b) e h = (b, e, slot b (get_elem? b.requests i) refl h)

-- A change at a request changes what stands there, and nothing else.
pub request_at-change_at :
    (k i p q : ℕ) (m : RequestMeta) (x : Option RequestMeta) (more : ℕ) (w : Window)
    → request_at k i (live w) ≡ some m
    → request_at p q (live (change_at k i x more w))
      ≡ (if k == p && i == q then x else request_at p q (live w))
request_at-change_at k i p q m x more w there =
    let (b, held, inside) = request_there k i m (live w) there in
    let b' : ReqBucket = record b { requests = set b.requests i x; acks = b.acks + more } in
    let chain : live (change_at k i x more w) ≡ set (live w) k b' =
      ap (λ s. live (with_live (change_slot s i x more k (live w)) w)) held ∙ live_set w k b' in
    ap (λ bs. request_at p q bs) chain
    ∙ ap (λ s. request_of s q) (get_elem?-set (live w) k p b' (get_elem?_bounds (live w) k held))
    ∙ elim (Bool-cases (k == p)) [
      | inr e ↦ rw e refl
      | inl e ↦
          let same : get_elem? (live w) p ≡ some b =
            ap (get_elem? (live w)) (ground arith) ∙ held in
          rw e (
            ap slot_meta (get_elem?-set b.requests i q x inside)
            ∙ if_cases (λ s. slot_meta s ≡ (if i == q then x else request_at p q (live w))) (i == q)
                (λ f. sym (ap (λ t. if t then x else request_at p q (live w)) f))
                (λ f.
                  ap (λ s. request_of s q) (sym same)
                  ∙ sym (ap (λ t. if t then x else request_at p q (live w)) f)))
    ]

-- The window where the slot of the loop was emptied and the sequence is acknowledged.
abbrev pub emptied : ℕ → Advancing → Window
emptied seq a = record (change_at a.bucket a.index none 0 a.window) { acked = seq }

-- Where the request stands that may wait for the sequence to be acknowledged.
abbrev pub waiting_at : ℕ → Advancing → Sought
waiting_at seq a =
    seek (seq + a.window.size * seq_step) a.blocked (drop a.blocked (live (emptied seq a)))

-- A round for the sequence: its slot is empty, the request that waits a window's size behind it is
-- released, and no other request changes.
pub record Round (seq : ℕ) (a a' : Advancing) : Type 0 where
  pub acked_eq : a'.window.acked ≡ seq
  pub cleared : request_at a.bucket a.index (live a'.window) ≡ none
  pub released :
      (k i : ℕ) (m : RequestMeta)
      → waiting_at seq a ≡ at k i
      → request_at k i (live (emptied seq a)) ≡ some m
      → request_at k i (live a'.window) ≡ some (record m { notifier = done m.notifier })
  pub kept :
      (p q : ℕ)
      → (a.bucket == p && a.index == q) ≡ false
      → waiting_at seq a ≢ at p q
      → request_at p q (live a'.window) ≡ request_at p q (live a.window)

with_live_size : (bs : List ReqBucket) (w : Window) → (with_live bs w).size ≡ w.size
with_live_size [] w = refl
with_live_size (b ∷ bs) w = refl

with_live_acked : (bs : List ReqBucket) (w : Window) → (with_live bs w).acked ≡ w.acked
with_live_acked [] w = refl
with_live_acked (b ∷ bs) w = refl

at-injective : (k i p q : ℕ) → at k i ≡ at p q → (k ≡ p) × (i ≡ q)
at-injective k i p q h = (cc, cc)

-- The loop stands at a request.
abbrev pub Occupied : Advancing → Type 0
Occupied a = (m : RequestMeta) × (request_at a.bucket a.index (live a.window) ≡ some m)

module _ (seq : ℕ) (a : Advancing) (occupied : Occupied a) where
  emptied_there :
      (p q : ℕ)
      → request_at p q (live (emptied seq a))
        ≡ (if a.bucket == p && a.index == q then none else request_at p q (live a.window))
  emptied_there p q =
      request_at-change_at a.bucket a.index p q occupied.0 none 0 a.window occupied.1

  emptied_slot : request_at a.bucket a.index (live (emptied seq a)) ≡ none
  emptied_slot =
      let same : (a.bucket == a.bucket && a.index == a.index) ≡ true = ground arith in
      emptied_there a.bucket a.index
      ∙ ap (λ b. if b then none else request_at a.bucket a.index (live a.window)) same

  emptied_other :
      (p q : ℕ)
      → (a.bucket == p && a.index == q) ≡ false
      → request_at p q (live (emptied seq a)) ≡ request_at p q (live a.window)
  emptied_other p q other =
      emptied_there p q ∙ ap (λ b. if b then none else request_at p q (live a.window)) other

  abbrev begun : Advancing
  begun = record a { window = emptied seq a; advanced = a.advanced + 1 }

  -- The release of the request that waits at `s`.
  release_at-Round : (s : Sought) → waiting_at seq a ≡ s → Round seq a (release_at s begun)
  release_at-Round not_there e = record {
    acked_eq = refl;
    cleared = emptied_slot;
    released = λ k i m f there. absurd (ne k i (sym e ∙ f));
    kept = λ p q other _. emptied_other p q other;
  }
    where
      ne : (k i : ℕ) → ¬ (not_there ≡ at k i)
      ne k i h = cc
  release_at-Round out_of_range e = record {
    acked_eq = refl;
    cleared = emptied_slot;
    released = λ k i m f there. absurd (ne k i (sym e ∙ f));
    kept = λ p q other _. emptied_other p q other;
  }
    where
      ne : (k i : ℕ) → ¬ (out_of_range ≡ at k i)
      ne k i h = cc
  release_at-Round (at k i) e = from (request_at k i (live (emptied seq a))) refl
    where
      after_notify : Option RequestMeta → Advancing
      after_notify x = record begun { blocked = k; window = notify k i x (emptied seq a) }

      from :
          (x : Option RequestMeta)
          → request_at k i (live (emptied seq a)) ≡ x
          → Round seq a (after_notify x)
      from none f = record {
        acked_eq = refl;
        cleared = emptied_slot;
        released = λ p q m g there.
            let (one, two) = at-injective k i p q (sym e ∙ g) in
            absurd (
              none-ne-some m (
                sym f
                ∙ ap (λ n. request_at n i (live (emptied seq a))) one
                ∙ ap (λ n. request_at p n (live (emptied seq a))) two
                ∙ there));
        kept = λ p q other _. emptied_other p q other;
      }
      from (some m) f = record {
        acked_eq = with_live_acked _ (emptied seq a);
        cleared =
            changed a.bucket a.index
            ∙ if_cases (λ x. x ≡ none) (k == a.bucket && i == a.index)
                (λ g. absurd (
                  none-ne-some m (
                    sym emptied_slot
                    ∙ ap (λ n. request_at n a.index (live (emptied seq a))) (sym (first g))
                    ∙ ap (λ n. request_at k n (live (emptied seq a))) (sym (second g))
                    ∙ f)))
                (λ _. emptied_slot);
        released = λ p q n g there.
            let (one, two) = at-injective k i p q (sym e ∙ g) in
            let same : m ≡ n = some-injective _ _ (
              sym f
              ∙ ap (λ n. request_at n i (live (emptied seq a))) one
              ∙ ap (λ n. request_at p n (live (emptied seq a))) two
              ∙ there) in
            let here : (k == p && i == q) ≡ true = ground arith in
            changed p q
            ∙ ap
                (λ b.
                  if b
                  then some (record m { notifier = done m.notifier })
                  else request_at p q (live (emptied seq a)))
                here
            ∙ ap (λ (n : RequestMeta). some (record n { notifier = done n.notifier })) same;
        kept = λ p q other apart.
            changed p q
            ∙ if_cases (λ x. x ≡ request_at p q (live a.window)) (k == p && i == q)
                (λ g.
                  absurd
                    (apart (e ∙ ap (λ n. at n i) (first_of p q g) ∙ ap (at p) (second_of p q g))))
                (λ _. emptied_other p q other);
      }
        where
          first : (k == a.bucket && i == a.index) ≡ true → k ≡ a.bucket
          first g = ground arith

          second : (k == a.bucket && i == a.index) ≡ true → i ≡ a.index
          second g = ground arith

          first_of : (p q : ℕ) → (k == p && i == q) ≡ true → k ≡ p
          first_of p q g = ground arith

          second_of : (p q : ℕ) → (k == p && i == q) ≡ true → i ≡ q
          second_of p q g = ground arith

          changed :
              (p q : ℕ)
              → request_at p q (
                  live (
                    change_at k i
                      (some (record m { notifier = done m.notifier }))
                      0
                      (emptied seq a)))
                ≡ (if k == p && i == q
                    then some (record m { notifier = done m.notifier })
                    else request_at p q (live (emptied seq a)))
          changed p q =
              request_at-change_at k i p q m (some (record m { notifier = done m.notifier })) 0
                (emptied seq a) f

  pub advance-Round : Round seq a (advance seq a)
  unfolding advance release
  advance-Round =
      let size : (emptied seq a).size ≡ a.window.size = with_live_size _ a.window in
      subst
        (λ n. Round seq a (
          release_at (seek (seq + n * seq_step) a.blocked (drop a.blocked (live (emptied seq a))))
            begun))
        (sym size) (release_at-Round (waiting_at seq a) refl)
