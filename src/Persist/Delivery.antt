-- ===== src/Persist/Delivery.antt =====
-- What the readers of a chunk get: the bytes that its interceptor was given, in order.
use lambda_objectstore.Base.{
  ℕ, ◌+◌, ◌-◌, ◌≤◌, ◌≡◌, refl, sym, ◌∙◌, ap, ap₂, subst, false, ◌||◌, Option, none, some, List, [],
  ◌++◌, length, take, drop, leb, if_cases, arith, length-append, length-take, length-drop, take_all,
}
use mathlib.Core.List.{append-nil}
use lambda_objectstore.Persist.Intercept.{ReadError, Answer, is_error, InterceptReader}
use lambda_objectstore.Persist.Chunk.{
  PersistChunk, bytes_stored, data_of, intercept, stored_by, buffer_of, intercepted_by,
}
use lambda_objectstore.Persist.Reader
use lambda_objectstore.Persist.Slices.{take-take-drop, take-drop_less, take-append_left}
use lambda_objectstore.Persist.Reader.{PersistChunkReader, min, read_available}
use lambda_objectstore.Persist.Storing.{Stores, Fills, intercepted-Fills}

-- A chunk with one of its readers, what the reader returned so far, and what the interceptor was
-- given.
pub record Flow : Type 0 where
  pub chunk : PersistChunk
  pub reader : PersistChunkReader
  pub out : List ℕ
  pub given : List ℕ

unfoldable pub deliver : Answer → Flow → Flow
unfolding intercept
deliver answer f = record f { chunk = intercept answer f.chunk; given = f.given ++ answer.bytes }

-- A Read of `k` bytes, which may be woken with an error.
unfoldable pub ask : ℕ → Option ReadError → Flow → Flow
unfolding Reader.read
ask k error f =
    let got = Reader.read k f.chunk (record { chunk = f.chunk; error = error }) f.reader in
    record f { reader = got.1; out = f.out ++ got.0.bytes }

-- The other reader gives no more than there is room for: it has as many bytes as the chunk.
pub data Step : Flow → Flow → Type 0 where
  delivered :
      (answer : Answer) (f : Flow)
      → bytes_stored f.chunk + length answer.bytes ≤ f.chunk.size
      → Step f (deliver answer f)
  asked : (k : ℕ) (error : Option ReadError) (f : Flow) → Step f (ask k error f)

pub data Steps : Flow → Flow → Type 0 where
  no_step : (f : Flow) → Steps f f
  then_step : (f g h : Flow) → Steps f g → Step g h → Steps f h

-- The reader returned the bytes before its position, and the position is in what was given.
abbrev pub IsFlow : Flow → Type 0
IsFlow f =
    ((ir : InterceptReader) × (f.chunk.interceptor ≡ some ir)
      × Stores f.given ir
      × (length ir.buf ≡ f.chunk.size))
    × (f.out ≡ take f.reader.r f.given)
    × (f.reader.r ≤ length f.given)

-- What a Read that finds `n` more bytes returns goes on where the reader was.
read_goes_on :
    (given buf : List ℕ) (r n stored : ℕ) (out : List ℕ)
    → take stored buf ≡ given
    → length given ≡ stored
    → out ≡ take r given
    → r + n ≤ stored
    → (out ++ take n (drop r buf) ≡ take (r + length (take n (drop r buf))) given)
      × (r + length (take n (drop r buf)) ≤ length given)
read_goes_on given buf r n stored out kept counted before fits =
    let part : take n (drop r buf) ≡ take n (drop r given) =
      sym (take-drop_less buf r n stored fits) ∙ ap (λ xs. take n (drop r xs)) kept in
    let left : length (drop r given) + r ≡ length given = length-drop r given (omega arith) in
    let long : length (take n (drop r buf)) ≡ n =
      ap length part ∙ length-take n (drop r given) (omega arith) in
    (
      ap₂ ◌++◌ before part ∙ take-take-drop given r n ∙ ap (λ k. take (r + k) given) (sym long),
      omega arith,
    )

abbrev Goes : Flow → Answer × PersistChunkReader → Type 0
Goes f got = (f.out ++ got.0.bytes ≡ take got.1.r f.given) × (got.1.r ≤ length f.given)

read_available-Goes :
    (k : ℕ) (error : Option ReadError) (f : Flow) (b : PersistChunkReader)
    → b.r ≡ f.reader.r
    → IsFlow f
    → Goes f (read_available k f.chunk (bytes_stored f.chunk) error b)
unfolding read_available data_of bytes_stored Reader.unhold
read_available-Goes k error f b same ((ir, at, (kept, room, counted), whole), before, inside) =
    if_cases (Goes f) (leb (stored_by f.chunk.interceptor) b.r)
      (λ _.
        if_cases (λ b'. Goes f (record { bytes = []; error = error }, b')) (is_error error)
          (λ _. still) (λ _. still))
      (λ e.
        if_cases (λ b'. Goes f (record { bytes = bytes; error = error }, b'))
          (leb f.chunk.size (b.r + length bytes) || is_error error) (λ _. more e) (λ _. more e))
  where
    end : ℕ
    end = min (stored_by f.chunk.interceptor) (b.r + k)

    bytes : List ℕ
    bytes = take (end - b.r) (drop b.r (buffer_of f.chunk.interceptor))

    stored : stored_by f.chunk.interceptor ≡ ir.r
    stored = ap stored_by at

    still : (f.out ++ [] ≡ take b.r f.given) × (b.r ≤ length f.given)
    still = (append-nil f.out ∙ before ∙ ap (λ r. take r f.given) (sym same), omega arith)

    more :
        leb (stored_by f.chunk.interceptor) b.r ≡ false
        → (f.out ++ bytes ≡ take (b.r + length bytes) f.given)
          × (b.r + length bytes ≤ length f.given)
    more e =
        let fits : b.r + (end - b.r) ≤ ir.r = ground arith in
        subst
          (λ buf.
            (f.out ++ take (end - b.r) (drop b.r buf)
              ≡ take (b.r + length (take (end - b.r) (drop b.r buf))) f.given)
            × (b.r + length (take (end - b.r) (drop b.r buf)) ≤ length f.given))
          (sym (ap buffer_of at))
          (read_goes_on f.given ir.buf b.r (end - b.r) ir.r f.out kept counted
            (before ∙ ap (λ r. take r f.given) (sym same)) fits)

read-Goes :
    (k : ℕ) (error : Option ReadError) (f : Flow)
    → IsFlow f
    → Goes f (Reader.read k f.chunk (record { chunk = f.chunk; error = error }) f.reader)
unfolding Reader.read
read-Goes k error f flow =
    if_cases (Goes f) (leb f.chunk.size f.reader.r) (λ _. (append-nil f.out ∙ flow.1, flow.2))
      (λ _.
        if_cases (Goes f) (leb (bytes_stored f.chunk) f.reader.r)
          (λ _. read_available-Goes k error f (record f.reader { last_error = error }) refl flow)
          (λ _. read_available-Goes k none f f.reader refl flow))

Step-IsFlow : {f g : Flow} → Step f g → IsFlow f → IsFlow g
unfolding ask deliver intercept bytes_stored
Step-IsFlow (asked k error f) flow =
    (flow.0, (read-Goes k error f flow).0, (read-Goes k error f flow).1)
Step-IsFlow (delivered answer f fits) ((ir, at, stores, whole), before, inside) =
    let room : ir.r + length answer.bytes ≤ length ir.buf =
      subst (λ n. n + length answer.bytes ≤ length ir.buf) (ap stored_by at)
        (subst (λ n. stored_by f.chunk.interceptor + length answer.bytes ≤ n) (sym whole) fits) in
    let ((ir', there, stores', whole'), same) =
      subst (λ i. Fills (f.given ++ answer.bytes) f.chunk.size (intercepted_by answer i f.chunk))
        (sym at) (intercepted-Fills answer f.given ir f.chunk at stores whole room) in
    (
      (ir', there, stores', whole' ∙ sym same),
      before ∙ sym (take-append_left f.given answer.bytes f.reader.r inside),
      omega (arith, length-append f.given answer.bytes),
    )

Steps-IsFlow : {f g : Flow} → Steps f g → IsFlow f → IsFlow g
Steps-IsFlow (no_step f) flow = flow
Steps-IsFlow (then_step f g h steps step) flow = Step-IsFlow step (Steps-IsFlow steps flow)

-- Where the interceptor and a reader of a chunk go on in any order, the reader has always returned
-- the bytes before its position of those that the interceptor was given, and at the end all of
-- them, as many as the size of the chunk. The other reader never gives more than that.
pub reads_in_order :
    {f g : Flow}
    → Steps f g
    → IsFlow f
    → (g.out ≡ take g.reader.r g.given)
      × (g.chunk.size ≤ g.reader.r → (g.out ≡ g.given) × (length g.given ≡ g.chunk.size))
reads_in_order {g = g} steps flow =
    let ((ir, at, (kept, room, counted), whole), before, inside) = Steps-IsFlow steps flow in
    (before, λ over. (before ∙ take_all g.reader.r g.given (omega arith), omega arith))
