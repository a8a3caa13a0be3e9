-- ===== src/Metastore/Lru/Scan.antt =====
-- NextAvailableObject of proxy/server/metastore/lru_placer.go when it finds no victim: the objects
-- are copied to the secondary array, in order and without the empty slots.
use lambda_objectstore.Base.{
  ℕ, ◌+◌, ◌≡◌, refl, sym, ap, ◌∙◌, List, [], ◌∷◌, ◌++◌, Bool, false, Option, none, some, arith,
  length,
}
use mathlib.Core.List.{append-nil}
use lambda_objectstore.Metastore.Lru.{
  Clock, objects, append_object, visit, advance, keep, Verdict, skip, second_chance, victim, better,
  act, scan, judge, keep_new,
}
use lambda_objectstore.Metastore.Lru.Copy.{
  compact, Copying, Copied, skip-Copying, shift-Copying, visit-Copying, append-Copying,
  advance-Copying, append-Copied, keep-Copied,
}

-- What a scan of `ms` without a victim leads to, from index `k` on, before the objects `rest`.
abbrev pub CopiesAll :
    ℕ → List (Option ℕ) → List (Option ℕ) → Clock → Clock × Option ℕ × Bool → Type 0
CopiesAll k ms rest c r =
    r.2 ≡ false
    → Copied c ms r.0
      × Copying (k + length ms) r.0 rest
      × (r.0.placer.cursor ≡ c.placer.cursor + length ms)
      × (r.0.placer.cursor_bound ≡ c.placer.cursor_bound)

keep-CopiesAll :
    (k m : ℕ) (c : Clock) (ms rest : List (Option ℕ)) (r : Clock × Option ℕ × Bool)
    → Copying k c (some m ∷ (ms ++ rest))
    → CopiesAll (k + 1) ms rest (keep m c) r
    → CopiesAll k (some m ∷ ms) rest c r
keep-CopiesAll k m c ms rest r h ih none_found =
    let (copied, copying, cursor, bound) = ih none_found in
    (
      keep-Copied c r.0 m ms h.apart copied,
      shift-Copying (omega arith) copying,
      omega (arith, cursor),
      bound,
    )

-- The placer of `c'` is read only, where the clocks `b` and `c` have the same arrays.
same-CopiesAll :
    (k : ℕ) (ms rest : List (Option ℕ)) (b c : Clock) (r : Clock × Option ℕ × Bool)
    → b.placer ≡ c.placer
    → CopiesAll k ms rest b r
    → CopiesAll k ms rest c r
same-CopiesAll k ms rest b c r e h none_found =
    let (copied, copying, cursor, bound) = h none_found in
    (
      record {
        primary_eq = copied.primary_eq ∙ ap (λ p. p.primary) e;
        secondary_eq = copied.secondary_eq ∙ ap (λ p. p.secondary) e;
        kept = copied.kept ∙ ap (λ p. objects p.primary p) e;
        copied = copied.copied ∙ ap (λ p. objects p.secondary p ++ compact ms) e;
      },
      copying,
      cursor ∙ ap (λ p. p.cursor + length ms) e,
      bound ∙ ap (λ p. p.cursor_bound) e,
    )

act-CopiesAll :
    (v : Verdict) (next : Clock → Option ℕ → Clock × Option ℕ × Bool) (k meta m : ℕ) (c : Clock)
    (candidate : Option ℕ) (ms rest : List (Option ℕ))
    → ((c' : Clock) (candidate' : Option ℕ)
        → Copying (k + 1) c' (ms ++ rest)
        → CopiesAll (k + 1) ms rest c' (next c' candidate'))
    → Copying k c (some m ∷ (ms ++ rest))
    → CopiesAll k (some m ∷ ms) rest c (act next meta m c candidate v)
unfolding act
act-CopiesAll skip next k meta m c candidate ms rest ih h =
    keep-CopiesAll k m c ms rest (next (keep m c) candidate) h (
      ih (keep m c) candidate
        (advance-Copying _ _ (ms ++ rest) (append-Copying k c m (ms ++ rest) h)))
act-CopiesAll second_chance next k meta m c candidate ms rest ih h =
    let h' = visit-Copying k c (some m ∷ (ms ++ rest)) m false h in
    let c' = visit m false c in
    let r = next (keep m c') candidate in
    same-CopiesAll k (some m ∷ ms) rest c' c r refl (
      keep-CopiesAll k m c' ms rest r h' (
        ih (keep m c') candidate
          (advance-Copying _ _ (ms ++ rest) (append-Copying k c' m (ms ++ rest) h'))))
act-CopiesAll victim next k meta m c candidate ms rest ih h = λ none_found. cc
act-CopiesAll better next k meta m c candidate ms rest ih h =
    keep-CopiesAll k m c ms rest (next (keep m c) (some m)) h (
      ih (keep m c) (some m)
        (advance-Copying _ _ (ms ++ rest) (append-Copying k c m (ms ++ rest) h)))

pub scan-CopiesAll :
    (meta k : ℕ) (ms rest : List (Option ℕ)) (c : Clock) (candidate : Option ℕ)
    → Copying k c (ms ++ rest)
    → CopiesAll k ms rest c (scan meta ms c candidate)
unfolding scan
scan-CopiesAll meta k [] rest c candidate h none_found = (
  record {
    primary_eq = refl;
    secondary_eq = refl;
    kept = refl;
    copied = sym (append-nil (objects c.placer.secondary c.placer));
  },
  shift-Copying (omega arith) h,
  omega arith,
  refl,
)
scan-CopiesAll meta k (none ∷ ms) rest c candidate h none_found =
    let (copied, copying, cursor, bound) =
      scan-CopiesAll meta (k + 1) ms rest (advance c) candidate
        (advance-Copying _ c (ms ++ rest) (skip-Copying k c (ms ++ rest) h)) none_found in
    (
      record {
        primary_eq = copied.primary_eq;
        secondary_eq = copied.secondary_eq;
        kept = copied.kept;
        copied = copied.copied;
      },
      shift-Copying (omega arith) copying,
      omega (arith, cursor),
      bound,
    )
scan-CopiesAll meta k (some m ∷ ms) rest c candidate h none_found =
    act-CopiesAll (judge c.heap meta m candidate) (λ c' candidate'. scan meta ms c' candidate') k
      meta m c candidate ms rest
      (λ c' candidate'. scan-CopiesAll meta (k + 1) ms rest c' candidate') h none_found

pub keep_new-Copied :
    (k : ℕ) (ms : List (Option ℕ)) (c : Clock)
    → Copying k c ms
    → Copied c ms (keep_new ms c) × Copying (k + length ms) (keep_new ms c) []
unfolding keep_new
keep_new-Copied k [] c h = (
  record {
    primary_eq = refl;
    secondary_eq = refl;
    kept = refl;
    copied = sym (append-nil (objects c.placer.secondary c.placer));
  },
  shift-Copying (omega arith) h,
)
keep_new-Copied k (none ∷ ms) c h =
    let (copied, copying) = keep_new-Copied (k + 1) ms c (skip-Copying k c ms h) in
    (
      record {
        primary_eq = copied.primary_eq;
        secondary_eq = copied.secondary_eq;
        kept = copied.kept;
        copied = copied.copied;
      },
      shift-Copying (omega arith) copying,
    )
keep_new-Copied k (some m ∷ ms) c h =
    let c' = append_object c.placer.secondary m c in
    let (copied, copying) = keep_new-Copied (k + 1) ms c' (append-Copying k c m ms h) in
    (append-Copied c _ m ms h.apart copied, shift-Copying (omega arith) copying)
