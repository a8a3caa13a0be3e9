-- ===== src/Persist/References/Last.antt =====
-- Who closes a chunk last, proxy/cache/persist_chunk.go.
use lambda_objectstore.Base.{
  ℕ, ◌+◌, ◌-◌, ◌≡◌, ◌⊎◌, inl, inr, refl, sym, ◌∙◌, ap, subst, true, false, not, some, if◌then◌else◌,
  Bool-cases, if_cases, arith, ◌==◌, replicate,
}
use lambda_objectstore.Base.Int.{pos, negsuc, ◌+ℤ◌, leb_ℤ}
use lambda_objectstore.Persist.Intercept.{new_intercept_reader}
use lambda_objectstore.Persist.Chunk.{
  PersistChunk, is_taken, is_canceled, cancel_context, is_running, timed_out, running, store, load,
  close, close_once, done_refs, start_persist, done_persist, persist_timeout, can_close, is_stored,
  notify_error, close_with_error,
}
use lambda_objectstore.Persist.References.{
  Held, persisting, IsReferenced, Use, storing, loading, leaving, starting, finishing, failing,
  timing_out, stored_held, use_chunk, holders, ClosesLast,
}

-- What giving up one of `n + 1` references does.
abbrev Gives : ℕ → PersistChunk → PersistChunk → Type 0
Gives n pc pc' =
    (pc'.refs ≡ pos n)
    × (pc'.has_cancel ≡ pc.has_cancel)
    × (pc'.interceptor ≡ pc.interceptor)
    × (pc'.size ≡ pc.size)
    × (pc'.closed ≡ (if n == 0 then true else pc.closed))
    × (pc'.once ≡ pc'.closed)

done_refs-Gives :
    (n : ℕ) (pc : PersistChunk)
    → pc.refs ≡ pos (n + 1)
    → pc.once ≡ pc.closed
    → Gives n pc (done_refs pc)
unfolding done_refs close_once close
done_refs-Gives n pc refs once =
    let left : pc.refs +ℤ negsuc 0 ≡ pos n = ap (λ r. r +ℤ negsuc 0) refs ∙ down n in
    elim (Bool-cases (n == 0)) [
      | inl e ↦
          let low : leb_ℤ (pos n) (pos 0) ≡ true = ground arith in
          let high : leb_ℤ (pos 0) (pos n) ≡ true = ground arith in
          rw (left, low, high, e)
            (if_cases
              (λ (pc' : PersistChunk).
                (pc'.refs ≡ pos n)
                × (pc'.has_cancel ≡ pc.has_cancel)
                × (pc'.interceptor ≡ pc.interceptor)
                × (pc'.size ≡ pc.size)
                × (pc'.closed ≡ true)
                × (pc'.once ≡ pc'.closed))
              pc.once (λ o. (refl, refl, refl, refl, sym once ∙ o, once))
              (λ o. (refl, refl, refl, refl, refl, refl)))
      | inr e ↦
          let low : leb_ℤ (pos n) (pos 0) ≡ false = ground arith in
          rw (left, low, e) (refl, refl, refl, refl, refl, once)
    ]
  where
    down : (n : ℕ) → pos (n + 1) +ℤ negsuc 0 ≡ pos n
    down n = ground arith

abbrev Fine : Held → Held → Type 0
Fine h h' = IsReferenced h' × ClosesLast h h'

-- A new reference.
taken-Fine :
    (h h' : Held)
    → IsReferenced h
    → h'.chunk.refs ≡ h.chunk.refs +ℤ pos 1
    → holders h' ≡ holders h + 1
    → h'.chunk.once ≡ h.chunk.once
    → h'.chunk.closed ≡ h.chunk.closed
    → Fine h h'
taken-Fine h h' (refs, once) more count same closed = (
  (
    more ∙ ap (λ r. r +ℤ pos 1) refs ∙ up (holders h) ∙ ap pos (sym count),
    same ∙ once ∙ sym closed,
  ),
  ((λ c. inl (sym closed ∙ c)), (λ _ gone. absurd (omega arith))),
)
  where
    up : (n : ℕ) → pos n +ℤ pos 1 ≡ pos (n + 1)
    up n = ground arith

-- No reference changes.
kept-Fine :
    (h h' : Held)
    → IsReferenced h
    → h'.chunk.refs ≡ h.chunk.refs
    → holders h' ≡ holders h
    → h'.chunk.once ≡ h.chunk.once
    → h'.chunk.closed ≡ h.chunk.closed
    → Fine h h'
kept-Fine h h' (refs, once) more count same closed = (
  (more ∙ refs ∙ ap pos (sym count), same ∙ once ∙ sym closed),
  ((λ c. inl (sym closed ∙ c)), (λ some_held gone. absurd (omega arith))),
)

-- A reference is given up, of `n + 1`.
given-Fine :
    (n : ℕ) (h h' : Held) (pc : PersistChunk)
    → Gives n pc h'.chunk
    → holders h' ≡ n
    → holders h ≡ n + 1
    → pc.closed ≡ h.chunk.closed
    → Fine h h'
given-Fine n h h' pc (refs, _, _, _, closed, once) count before same = (
  (refs ∙ ap pos (sym count), once),
  ((λ c. closes c), (λ _ gone. closed ∙ ap (λ b. if b then true else pc.closed) (is_last gone))),
)
  where
    is_last : holders h' ≡ 0 → (n == 0) ≡ true
    is_last gone = ground arith

    closes : h'.chunk.closed ≡ true → (h.chunk.closed ≡ true) ⊎ (holders h' ≡ 0)
    closes c = elim (Bool-cases (n == 0)) [
      | inl e ↦ inr (ground arith)
      | inr e ↦ inl (sym same ∙ sym (ap (λ b. if b then true else pc.closed) e) ∙ sym closed ∙ c)
    ]

done_persist-Fine :
    (h : Held)
    → IsReferenced h
    → Fine h (record h { chunk = done_persist h.chunk }) × (persisting (done_persist h.chunk) ≡ 0)
unfolding done_persist
done_persist-Fine h (refs, once) =
    if_cases (λ pc. Fine h (record h { chunk = pc }) × (persisting pc ≡ 0)) h.chunk.has_cancel
      (λ e. given e)
      (λ e. (kept-Fine h h (refs, once) refl refl refl refl, ap (λ b. if b then 1 else 0) e))
  where
    dropped : PersistChunk
    dropped = record h.chunk { has_cancel = false; context = cancel_context h.chunk.context }

    given :
        h.chunk.has_cancel ≡ true
        → Fine h (record h { chunk = done_refs dropped }) × (persisting (done_refs dropped) ≡ 0)
    given e =
        let count : holders h ≡ h.users + 1 = ap (λ b. h.users + (if b then 1 else 0)) e in
        let gives = done_refs-Gives h.users dropped (refs ∙ ap pos count) once in
        let none_left : persisting (done_refs dropped) ≡ 0 = ap (λ b. if b then 1 else 0) gives.1 in
        (
          given-Fine h.users h (record h { chunk = done_refs dropped }) dropped gives (omega arith)
              count refl,
          none_left,
        )

failed-Fine :
    (h : Held) (pc : PersistChunk)
    → Fine h (record h { chunk = pc })
    → persisting pc ≡ 0
    → Fine h (record h {
      chunk = if can_close (notify_error pc) then close_once (notify_error pc) else notify_error pc;
    })
unfolding can_close notify_error close_once close
failed-Fine h pc ((refs, once), (closes, last)) gone =
    if_cases (λ pc'. Fine h (record h { chunk = pc' })) (leb_ℤ pc.refs (pos 0))
      (λ e.
        if_cases (λ pc'. Fine h (record h { chunk = pc' })) pc.once
          (λ o. ((refs, once), (closes, last)))
          (λ o. ((refs, refl), ((λ _. inr (nobody e)), (λ _ _. refl)))))
      (λ e. ((refs, once), (closes, last)))
  where
    nobody : leb_ℤ pc.refs (pos 0) ≡ true → h.users + persisting pc ≡ 0
    nobody e =
        let low : leb_ℤ (pos (h.users + persisting pc)) (pos 0) ≡ true =
          subst (λ r. leb_ℤ r (pos 0) ≡ true) refs e in
        ground arith

-- Whatever is done with a chunk that is referenced so, its references stay those of its holders;
-- it is closed only when nobody holds it any more, and it is closed when the last holder leaves.
pub use_chunk-ClosesLast :
    (u : Use) (h : Held)
    → IsReferenced h
    → IsReferenced (use_chunk u h) × ClosesLast h (use_chunk u h)
unfolding use_chunk store load start_persist close_with_error persist_timeout
use_chunk-ClosesLast (storing len) h fine =
    if_cases (λ r. Fine h (stored_held h r)) (is_taken h.chunk.interceptor)
      (λ _. kept-Fine h h fine refl refl refl refl)
      (λ _.
        if_cases (λ r. Fine h (stored_held h r)) (not (len == h.chunk.size))
          (λ _. kept-Fine h h fine refl refl refl refl)
          (λ _.
            taken-Fine h (begun h.chunk) fine refl (one_more h.users (persisting h.chunk)) refl
              refl))
  where
    begun : PersistChunk → Held
    begun pc = record {
      chunk = record pc {
        refs = pc.refs +ℤ pos 1;
        interceptor = some (new_intercept_reader len (replicate pc.size 0));
      };
      users = h.users + 1;
    }

    one_more : (a b : ℕ) → a + 1 + b ≡ a + b + 1
    one_more a b = omega arith
use_chunk-ClosesLast loading h fine =
    taken-Fine h (use_chunk loading h) fine refl (one_more h.users (persisting h.chunk)) refl refl
  where
    one_more : (a b : ℕ) → a + 1 + b ≡ a + b + 1
    one_more a b = omega arith
use_chunk-ClosesLast leaving h fine =
    if_cases (λ h'. Fine h h') (h.users == 0) (λ _. kept-Fine h h fine refl refl refl refl)
      (λ e.
        let count : holders h ≡ h.users - 1 + persisting h.chunk + 1 = ground arith in
        let gives =
          done_refs-Gives (h.users - 1 + persisting h.chunk) h.chunk (fine.0 ∙ ap pos count)
            fine.1 in
        given-Fine _ h (record { chunk = done_refs h.chunk; users = h.users - 1 }) h.chunk gives
          (ap (λ b. h.users - 1 + (if b then 1 else 0)) gives.1) count refl)
use_chunk-ClosesLast starting h fine =
    if_cases (λ pc. Fine h (record h { chunk = pc })) (is_canceled h.chunk.context)
      (λ _. kept-Fine h h fine refl refl refl refl)
      (λ _.
        if_cases (λ pc. Fine h (record h { chunk = pc })) h.chunk.has_cancel
          (λ _.
            kept-Fine h (record h { chunk = record h.chunk { context = running } }) fine refl refl
              refl refl)
          (λ e.
            let none_yet : persisting h.chunk ≡ 0 = ap (λ b. if b then 1 else 0) e in
            let begun : PersistChunk = record h.chunk {
              refs = h.chunk.refs +ℤ pos 1;
              has_cancel = true;
              context = running;
            } in
            taken-Fine h (record h { chunk = begun }) fine refl
              (one_more h.users (persisting h.chunk) none_yet) refl refl))
  where
    one_more : (a b : ℕ) → b ≡ 0 → a + 1 ≡ a + b + 1
    one_more a b e = omega arith
use_chunk-ClosesLast finishing h fine = (done_persist-Fine h fine).0
use_chunk-ClosesLast failing h fine =
    let (done, gone) = done_persist-Fine h fine in
    if_cases (λ pc. Fine h (record h { chunk = pc })) (is_stored (done_persist h.chunk)) (λ _. done)
      (λ _. failed-Fine h (done_persist h.chunk) done gone)
use_chunk-ClosesLast (timing_out has_retry) h fine =
    if_cases (λ pc. Fine h (record h { chunk = pc })) (is_running h.chunk.context)
      (λ _.
        if_cases (λ pc. Fine h (record h { chunk = pc })) has_retry
          (λ _.
            kept-Fine h (record h { chunk = record h.chunk { context = timed_out } }) fine refl refl
              refl refl)
          (λ _.
            (done_persist-Fine (record h { chunk = record h.chunk { context = timed_out } })
              fine).0))
      (λ _. kept-Fine h h fine refl refl refl refl)
