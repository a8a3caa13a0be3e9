-- ===== src/Persist/Storing.antt =====
-- What the interceptor of a chunk stores, common/redeo/server/intercept_reader.go.
use lambda_objectstore.Base.{
  ℕ, ◌+◌, ◌≤◌, ◌≡◌, refl, sym, ◌∙◌, ap, ap₂, subst, Bool, ◌||◌, some, List, [], ◌++◌, length, take,
  drop, ◌==◌, if◌then◌else◌, if_cases, arith, length-append, length-take, length-drop,
}
use mathlib.Core.List.{append-nil}
use lambda_objectstore.Persist.{Closer, close}
use lambda_objectstore.Persist.Intercept.{
  Answer, is_error, InterceptReader, copy, keep, read, unhold,
}
use lambda_objectstore.Persist.Chunk.{PersistChunk, notify_data, notify_error, intercepted_by}
use lambda_objectstore.Persist.Slices.{length-copy, take-copy, take-append_more, no_bytes}

-- The interceptor has stored exactly `given`, and there is room for the rest.
abbrev pub Stores : List ℕ → InterceptReader → Type 0
Stores given ir = (take ir.r ir.buf ≡ given) × (ir.r ≤ length ir.buf) × (length given ≡ ir.r)

keep-Stores :
    (answer : Answer) (given : List ℕ) (ir : InterceptReader)
    → Stores given ir
    → ir.r + length answer.bytes ≤ length ir.buf
    → Stores (given ++ answer.bytes) (keep answer ir)
unfolding keep
keep-Stores answer given ir (stored, room, counted) fits =
    let n = length answer.bytes in
    let rest = copy (drop ir.r ir.buf) answer.bytes in
    let at : length (take ir.r ir.buf) ≡ ir.r = length-take ir.r ir.buf room in
    let over : length (drop ir.r ir.buf) + ir.r ≡ length ir.buf = length-drop ir.r ir.buf room in
    let whole : length (take ir.r ir.buf ++ rest) ≡ length ir.buf =
      omega (
        arith,
        length-append (take ir.r ir.buf) rest,
        length-copy (drop ir.r ir.buf) answer.bytes,
      ) in
    (
      ap (λ r. take (r + n) (take ir.r ir.buf ++ rest)) (sym at)
          ∙ take-append_more (take ir.r ir.buf) rest n
          ∙ ap₂ ◌++◌ stored (take-copy (drop ir.r ir.buf) answer.bytes (omega arith)),
      omega arith,
      length-append given answer.bytes ∙ ap (λ r. r + n) counted,
    )

-- The interceptor of a chunk stores what was given.
abbrev pub Fills : List ℕ → ℕ → PersistChunk → Type 0
Fills given size pc =
    ((ir : InterceptReader) × (pc.interceptor ≡ some ir) × Stores given ir × (length ir.buf ≡ size))
    × (pc.size ≡ size)

length-keep :
    (answer : Answer) (ir : InterceptReader)
    → ir.r ≤ length ir.buf
    → length (keep answer ir).buf ≡ length ir.buf
unfolding keep
length-keep answer ir room = omega (
  arith,
  length-append (take ir.r ir.buf) (copy (drop ir.r ir.buf) answer.bytes),
  length-copy (drop ir.r ir.buf) answer.bytes,
  length-take ir.r ir.buf room,
  length-drop ir.r ir.buf room,
)

pub intercepted-Fills :
    (answer : Answer) (given : List ℕ) (ir : InterceptReader) (pc : PersistChunk)
    → pc.interceptor ≡ some ir
    → Stores given ir
    → length ir.buf ≡ pc.size
    → ir.r + length answer.bytes ≤ length ir.buf
    → Fills (given ++ answer.bytes) pc.size (intercepted_by answer (some ir) pc)
unfolding read notify_data notify_error unhold
intercepted-Fills answer given ir pc at stores whole fits =
    if_cases
      (λ (got : Answer × InterceptReader × Bool). Fills (given ++ answer.bytes) pc.size (
        let pc' : PersistChunk = record pc { interceptor = some got.1 } in
        if got.2 then notify_data got.1.last_error pc' else pc'))
      (ir.r == length ir.buf)
      (λ e.
        let none_given : answer.bytes ≡ [] = no_bytes answer.bytes (ground arith) in
        (
          (
            ir,
            refl,
            subst (λ xs. Stores xs ir) (sym (append-nil given) ∙ ap (◌++◌ given) (sym none_given))
                stores,
            whole,
          ),
          refl,
        ))
      (λ e.
        if_cases
          (λ (ir' : InterceptReader).
            Fills (given ++ answer.bytes) pc.size
              (notify_data ir'.last_error (record pc { interceptor = some ir' })))
          (kept.r == length kept.buf || is_error answer.error) (λ _. told (close kept.done))
          (λ _. told kept.done))
  where
    kept : InterceptReader
    kept = keep answer ir

    with_done : Closer → InterceptReader
    with_done d = record kept { done = d }

    stored :
        (d : Closer)
        → ((ir' : InterceptReader) × (some (with_done d) ≡ some ir')
            × Stores (given ++ answer.bytes) ir'
            × (length ir'.buf ≡ pc.size))
          × (pc.size ≡ pc.size)
    stored d = (
      (
        with_done d,
        refl,
        keep-Stores answer given ir stores fits,
        length-keep answer ir stores.1 ∙ whole,
      ),
      refl,
    )

    told :
        (d : Closer)
        → Fills (given ++ answer.bytes) pc.size (
            if is_error kept.last_error
            then notify_error (record pc { interceptor = some (with_done d) })
            else record pc { interceptor = some (with_done d) })
    told d =
        if_cases (Fills (given ++ answer.bytes) pc.size) (is_error kept.last_error) (λ _. stored d)
          (λ _. stored d)
