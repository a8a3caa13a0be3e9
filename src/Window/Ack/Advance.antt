-- ===== src/Window/Ack/Advance.antt =====
-- How far AckRequest of common/redeo/client/wnd.go advances the window.
use lambda_objectstore.Base.{
  ℕ, zero, suc, ◌+◌, ◌*◌, ◌<◌, ◌≤◌, ◌≡◌, ◌⊎◌, inl, inr, refl, ◌∙◌, ap, true, ◌||◌, Option, none,
  some, List, [], ◌∷◌, ltb, ◌==◌, if_cases, Bool-cases, get_elem?, drop, arith,
}
use lambda_objectstore.WaitGroup.{done}
use lambda_objectstore.Window.{
  ReqBucket, RequestMeta, Window, seq_step, live, seek, Sought, not_there, out_of_range, at,
  request_at,
}
use lambda_objectstore.Window.Add.{with_live}
use lambda_objectstore.Window.Ack.{
  change_slot, change_at, Advancing, notify, release_at, release, advance, next_position, after,
  going_on, is_acked_meta, advance_loop,
}

abbrev pub Same : Window → Window → Type 0
Same w w' = (w'.seq ≡ w.seq) × (w'.acked ≡ w.acked) × (w'.size ≡ w.size)

pub with_live-Same : (bs : List ReqBucket) (w : Window) → Same w (with_live bs w)
with_live-Same [] w = (refl, refl, refl)
with_live-Same (b ∷ bs) w = (refl, refl, refl)

notify-Same : (k i : ℕ) (m : Option RequestMeta) (w : Window) → Same w (notify k i m w)
notify-Same k i none w = (refl, refl, refl)
notify-Same k i (some m) w =
    with_live-Same
      (change_slot (get_elem? (live w) k) i (some (record m { notifier = done m.notifier })) 0 k
        (live w))
      w

pub release-Same : (target : ℕ) (a : Advancing) → Same a.window (release target a).window
unfolding release
release-Same target a = from (seek target a.blocked (drop a.blocked (live a.window)))
  where
    from : (s : Sought) → Same a.window (release_at s a).window
    from not_there = (refl, refl, refl)
    from out_of_range = (refl, refl, refl)
    from (at k i) = notify-Same k i (request_at k i (live a.window)) a.window

advance_reaches :
    (seq : ℕ) (a : Advancing)
    → ((advance seq a).window.seq ≡ a.window.seq) × ((advance seq a).window.acked ≡ seq)
unfolding advance
advance_reaches seq a =
    let cleared = change_at a.bucket a.index none 0 a.window in
    let (seqs, _, _) =
      with_live-Same
        (change_slot (get_elem? (live a.window) a.bucket) a.index none 0 a.bucket (live a.window))
        a.window in
    let w : Window = record cleared { acked = seq } in
    let (same, acks, _) =
      release-Same (seq + w.size * seq_step) (record a { window = w; advanced = a.advanced + 1 }) in
    (same ∙ seqs, acks)

-- The loop goes on only with a sequence that was given out, in the same window.
abbrev Later : ℕ → Advancing → Option Advancing → Type 0
Later seq a none = Unit
Later seq a (some b) = (b.window ≡ a.window) × (seq ≤ a.window.seq)

after-Later : (seq : ℕ) (a : Advancing) → Later seq a (after seq a)
after-Later seq a =
    if_cases (Later seq a) (a.panicked || ltb a.window.seq seq) (λ _. tt)
      (λ e. from (ground arith) (seek seq a.bucket (drop a.bucket (live a.window))))
  where
    from : seq ≤ a.window.seq → (s : Sought) → Later seq a (next_position s a)
    from seen not_there = tt
    from seen out_of_range = (refl, seen)
    from seen (at k i) =
        if_cases (Later seq a) (is_acked_meta (request_at k i (live a.window))) (λ _. (refl, seen))
          (λ _. tt)

-- How far the loop advances a window.
abbrev pub Advances : Window → Window → Type 0
Advances w w' = (w'.seq ≡ w.seq) × (w.acked ≤ w'.acked) × (w'.acked ≤ w'.seq)

Advances-trans : (v w x : Window) → Advances v w → Advances w x → Advances v x
Advances-trans v w x (s, l, h) (s', l', h') = (s' ∙ s, omega arith, h')

pub advance_loop-Advances :
    (rounds seq : ℕ) (a : Advancing)
    → seq ≤ a.window.seq
    → a.window.acked ≤ a.window.seq
    → a.window.seq < a.window.acked + rounds * seq_step
    → (b : Advancing) × (advance_loop rounds seq a ≡ some b)
      × Advances a.window b.window
      × (((seq == a.window.acked + seq_step) ≡ true) ⊎ (b ≡ a))
unfolding advance_loop
advance_loop-Advances zero seq a seen within enough = absurd (omega arith)
advance_loop-Advances (suc rounds) seq a seen within enough =
    elim (Bool-cases (seq == a.window.acked + seq_step)) [
      | inr e ↦ rw e (a, refl, (refl, omega arith, within), inr refl)
      | inl e ↦ rw e (
          round (λ b s w n. advance_loop-Advances rounds (seq + seq_step) b s w n) e
            (after (seq + seq_step) (advance seq a)) (after-Later (seq + seq_step) (advance seq a)))
    ]
  where
    moved : Advancing
    moved = advance seq a

    round :
        ((b : Advancing)
          → seq + seq_step ≤ b.window.seq
          → b.window.acked ≤ b.window.seq
          → b.window.seq < b.window.acked + rounds * seq_step
          → (c : Advancing) × (advance_loop rounds (seq + seq_step) b ≡ some c)
            × Advances b.window c.window
            × (((seq + seq_step == b.window.acked + seq_step) ≡ true) ⊎ (c ≡ b)))
        → (seq == a.window.acked + seq_step) ≡ true
        → (next : Option Advancing) → Later (seq + seq_step) moved next
        → (b : Advancing) × (going_on next moved
              (λ (b : Advancing). advance_loop rounds (seq + seq_step) b)
            ≡ some b)
          × Advances a.window b.window
          × ((true ≡ true) ⊎ (b ≡ a))
    round rest e none later =
        let (same, now) = advance_reaches seq a in
        let next : seq ≡ a.window.acked + seq_step = ground arith in
        (moved, refl, (same, omega arith, omega arith), inl refl)
    round rest e (some b) (same, later) =
        let (seqs, now) = advance_reaches seq a in
        let at_seq : b.window.seq ≡ a.window.seq = ap (λ (w : Window). w.seq) same ∙ seqs in
        let at_acked : b.window.acked ≡ seq = ap (λ (w : Window). w.acked) same ∙ now in
        let next : seq ≡ a.window.acked + seq_step = ground arith in
        let (c, run, (s, l, h), _) = rest b (omega arith) (omega arith) (omega arith) in
        if_cases
          (λ r.
            (c : Advancing) × (r ≡ some c) × Advances a.window c.window × ((true ≡ true) ⊎ (c ≡ a)))
          b.panicked (λ _. (b, refl, (at_seq, omega arith, omega arith), inl refl))
          (λ _. (c, run, (s ∙ at_seq, omega arith, h), inl refl))
