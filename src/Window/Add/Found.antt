-- ===== src/Window/Add/Found.antt =====
-- A request that AddRequest of common/redeo/client/wnd.go added is the one that MatchRequest finds.
use lambda_objectstore.Base.{
  ℕ, ◌+◌, ◌<◌, ◌≤◌, ◌≡◌, refl, sym, ◌∙◌, ap, ap₂, subst, Bool, true, false, none, some, List, [],
  ◌∷◌, ltb, leb, if◌then◌else◌, if_cases, arith,
}
use lambda_objectstore.Base.Int.{pos, ltb_ℤ}
use lambda_objectstore.WaitGroup.{WaitGroup, add, is_waiting}
use lambda_objectstore.Window.{
  ReqBucket, RequestMeta, Window, not_sent, already_acked, connection_closed, lost, seq_step, live,
  seek, at, request_at, located_meta, located_at, find_request_meta, matched, match_request, end_of,
}
use lambda_objectstore.Window.Add.{
  Place, fill, added, Added, with_live, must_wait, notified, meta_of, placed, add_request,
}
use lambda_objectstore.Window.Add.Match.{StartsAt, IsChain, IsPlace, seek_for_set-IsPlace}
use lambda_objectstore.Window.Add.Filled.{fill-IsPlace}

-- An open window: its chain reaches at least to the last sequence, and the next one does not start
-- before the active bucket.
abbrev pub IsOpen : Window → Type 0
IsOpen w =
    (w.closed ≡ false)
    × (w.acked ≤ w.seq)
    × (w.active.first ≤ w.seq + seq_step)
    × IsChain (live w)
    × (w.seq < end_of 0 (live w))

-- What a request that was added leads to: the next sequence is its own, and a search finds it, or
-- finds that it was not sent where it waits for the window to advance.
abbrev pub IsFound : ℕ → Window → Added → Type 0
IsFound request w (added m waits w') =
    (w'.seq ≡ w.seq + seq_step)
    × (m.meta_seq ≡ w'.seq)
    × (waits ≡ must_wait w'.seq w)
    × IsOpen w'
    × (match_request w'.seq w' ≡ (if waits then (some not_sent, none) else (none, some request)))
IsFound request w _ = ⊥

live-with_live :
    (first : ℕ) (bs : List ReqBucket) (w : Window) → StartsAt first bs → live (with_live bs w) ≡ bs
live-with_live first [] w starts = absurd starts
live-with_live first (b ∷ bs) w starts = refl

with_live_keeps :
    (first : ℕ) (bs : List ReqBucket) (w : Window)
    → StartsAt first bs
    → ((with_live bs w).seq ≡ w.seq)
      × ((with_live bs w).acked ≡ w.acked)
      × ((with_live bs w).closed ≡ w.closed)
      × ((with_live bs w).active.first ≡ first)
with_live_keeps first [] w starts = absurd starts
with_live_keeps first (b ∷ bs) w starts = (refl, refl, refl, starts)

-- A search for the last sequence that ends at a request.
match_request_ends :
    (w : Window) (k i : ℕ) (m : RequestMeta)
    → w.closed ≡ false
    → w.acked < w.seq
    → seek w.seq 0 (live w) ≡ at k i
    → request_at k i (live w) ≡ some m
    → match_request w.seq w
      ≡ (if is_waiting m.notifier then (some not_sent, none) else (none, m.request))
unfolding match_request find_request_meta
match_request_ends w k i m opened later sought got =
    let low : leb w.seq w.acked ≡ false = ground arith in
    let high : ltb w.seq w.seq ≡ false = ground arith in
    ap (λ b. if b then (some connection_closed, none) else matched (find_request_meta w.seq w))
      opened
    ∙ ap matched (
        ap
          (λ b.
            if b
            then lost already_acked
            else (if ltb w.seq w.seq
                then lost not_sent
                else located_at (live w) (seek w.seq 0 (live w))))
          low
        ∙ ap (λ b. if b then lost not_sent else located_at (live w) (seek w.seq 0 (live w))) high
        ∙ ap (located_at (live w)) sought
        ∙ ap (located_meta k i) got)
    ∙ if_cases
        (λ l.
          matched l ≡ (if is_waiting m.notifier then (some not_sent, none) else (none, m.request)))
        (is_waiting m.notifier)
        (λ e. sym (ap (λ b. if b then (some not_sent, none) else (none, m.request)) e))
        (λ e. sym (ap (λ b. if b then (some not_sent, none) else (none, m.request)) e))

stored-IsFound :
    (request seq : ℕ) (w : Window) (p : Place) (m : RequestMeta) (waits : Bool)
    → IsOpen w
    → seq ≡ w.seq + seq_step
    → IsPlace seq w.active.first p
    → m.request ≡ some request
    → m.meta_seq ≡ seq
    → is_waiting m.notifier ≡ waits
    → waits ≡ must_wait seq w
    → IsFound request w (added m waits (with_live (fill p m) (record w { seq = seq })))
stored-IsFound request seq w p m waits (opened, within, early, chain, reached) next place holds
      numbered waiting full =
    let (starts, chain', inside, sought, got) = fill-IsPlace seq w.active.first p m place in
    let (seqs, acks, closes, firsts) =
      with_live_keeps w.active.first (fill p m) (record w { seq = seq }) starts in
    let lives = live-with_live w.active.first (fill p m) (record w { seq = seq }) starts in
    let w' : Window = with_live (fill p m) (record w { seq = seq }) in
    (
      seqs ∙ next,
      numbered ∙ sym seqs,
      full ∙ ap (λ s. must_wait s w) (sym seqs),
      (
        closes ∙ opened,
        omega arith,
        omega arith,
        subst IsChain (sym lives) chain',
        subst (λ bs. w'.seq < end_of 0 bs) (sym lives)
            (subst (λ s. s < end_of 0 (fill p m)) (sym seqs) inside),
      ),
      match_request_ends w' p.bucket p.index m (closes ∙ opened) (omega arith)
            (subst (λ bs. seek w'.seq 0 bs ≡ at p.bucket p.index) (sym lives)
              (ap (λ s. seek s 0 (fill p m)) seqs ∙ sought))
            (subst (λ bs. request_at p.bucket p.index bs ≡ some m) (sym lives) got)
          ∙ ap₂ (λ b r. if b then (some not_sent, none) else (none, r)) waiting holds,
    )

quiet_rests : (wg : WaitGroup) → wg.waiting ≡ pos 0 → is_waiting wg ≡ false
unfolding is_waiting
quiet_rests wg quiet = ap (λ n. ltb_ℤ (pos 0) n) quiet

add_wakes : (wg : WaitGroup) → wg.waiting ≡ pos 0 → is_waiting (add (pos 1) wg) ≡ true
unfolding is_waiting add
add_wakes wg quiet = ground arith

placed-IsFound :
    (request : ℕ) (m : RequestMeta) (w : Window) (p : Place)
    → IsOpen w
    → IsPlace (w.seq + seq_step) w.active.first p
    → m.request ≡ some request
    → m.meta_seq ≡ w.seq + seq_step
    → m.notifier.waiting ≡ pos 0
    → IsFound request w (placed m (w.seq + seq_step) w (some p))
placed-IsFound request m w p opened place holds numbered quiet =
    stored-IsFound request (w.seq + seq_step) w p (notified waits m) waits opened refl place
      (if_cases (λ (n : RequestMeta). n.request ≡ some request) waits (λ _. holds) (λ _. holds))
      (if_cases (λ (n : RequestMeta). n.meta_seq ≡ w.seq + seq_step) waits (λ _. numbered)
        (λ _. numbered))
      (woken waits) refl
  where
    waits : Bool
    waits = must_wait (w.seq + seq_step) w

    woken : (b : Bool) → is_waiting (notified b m).notifier ≡ b
    woken true = add_wakes m.notifier quiet
    woken false = quiet_rests m.notifier quiet

-- A request that is added to an open window gets the next sequence, and the window stays open. It
-- waits exactly where the window is full, and MatchRequest then finds it under its sequence, or
-- tells that it was not sent. The meta from the pool has a notifier that nobody waits for.
pub add_request-IsFound :
    (pooled : RequestMeta) (request deadline : ℕ) (w : Window)
    → IsOpen w
    → pooled.notifier.waiting ≡ pos 0
    → IsFound request w (add_request pooled request deadline w)
unfolding add_request
add_request-IsFound pooled request deadline w opened quiet =
    let seq = w.seq + seq_step in
    let m = meta_of pooled request deadline seq in
    let (p, found, place) =
      seek_for_set-IsPlace seq w.active w.ahead opened.3 opened.2 (omega arith) in
    if_cases (IsFound request w) w.closed (λ e. absurd (false_not_true (sym opened.0 ∙ e)))
      (λ _.
        if_cases (IsFound request w) (ltb seq w.active.first) (λ e. absurd (ground arith))
          (λ _.
            subst (λ r. IsFound request w (placed m seq w r)) (sym found)
              (placed-IsFound request m w p opened place refl refl quiet)))
  where
    false_not_true : ¬ (false ≡ true)
    false_not_true h = ground arith
