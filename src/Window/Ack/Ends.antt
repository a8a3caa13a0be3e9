-- ===== src/Window/Ack/Ends.antt =====
-- How AckRequest of common/redeo/client/wnd.go ends.
use lambda_objectstore.Base.{ℕ, ◌+◌, ◌<◌, ◌≤◌, ◌≡◌, ◌⊎◌, ◌≢◌, ◌&&◌, false, true, none, some, ◌==◌}
use lambda_objectstore.Window.{
  RequestMeta, Window, seq_step, live, seek, at, request_at, Located, lost, located, match_request,
}
use lambda_objectstore.Window.Ack.Loop.{Finished}
use lambda_objectstore.Window.Ack.{Acked, ack_failed, acknowledged, no_round, start_at}

-- What a search for a request shows of its sequence.
abbrev Seen : ℕ → Window → Located → Type 0
Seen seq w (lost error) = Unit
Seen seq w (located k i m) =
    (w.acked < seq)
    × (seq ≤ w.seq)
    × (request_at k i (live w) ≡ some m)
    × (seek seq 0 (live w) ≡ at k i)

-- The request is marked as acknowledged, and no other changes.
abbrev pub Marks : ℕ → ℕ → RequestMeta → Window → Window → Type 0
Marks k i m w w' =
    (request_at k i (live w') ≡ some (record m { is_acked = true }))
    × ((p q : ℕ) → (k == p && i == q) ≡ false → request_at p q (live w') ≡ request_at p q (live w))

-- How an acknowledgement ends: where MatchRequest fails, with its error; or with the request that
-- MatchRequest finds, which is marked. When it is the next to be acknowledged, the loop goes
-- through its rounds from there; otherwise the window is left with the mark.
abbrev pub Ends : ℕ → Window → Acked → Type 0
Ends seq w (ack_failed error) = match_request seq w ≡ (some error, none)
Ends seq w no_round = ⊥
Ends seq w (acknowledged request a collect) =
    (match_request seq w ≡ (none, request))
    × (a.panicked ≡ false)
    × (a.window.seq ≡ w.seq)
    × (w.acked < seq)
    × (w.acked ≤ a.window.acked)
    × (a.window.acked ≤ a.window.seq)
    × ((k : ℕ) × (i : ℕ) × (m : RequestMeta) × (request_at k i (live w) ≡ some m)
        × Marks k i m w (start_at k i m w).window
        × (((seq ≡ w.acked + seq_step) × Finished seq (start_at k i m w) a)
            ⊎ ((seq ≢ w.acked + seq_step) × (a ≡ start_at k i m w))))
