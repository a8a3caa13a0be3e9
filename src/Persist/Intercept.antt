-- ===== src/Persist/Intercept.antt =====
-- InterceptReader of common/redeo/server, which copies what is read from another reader. That
-- reader is another project's: what it answers to a Read is an argument.
use lambda_objectstore.Base.{
  ℕ, ◌+◌, Bool, true, false, ◌||◌, Option, none, some, List, [], ◌∷◌, ◌++◌, length, take, drop, ltb,
  leb, ◌==◌, if◌then◌else◌,
}
use lambda_objectstore.Persist.{Closer, new_closer, init, close}

-- io.EOF, io.ErrUnexpectedEOF and the errors of the other reader
pub data ReadError : Type 0 where
  eof unexpected_eof : ReadError
  failed : ℕ → ReadError

-- What a Read puts into its slice, with its error.
pub record Answer : Type 0 where
  pub bytes : List ℕ
  pub error : Option ReadError

-- `len` is what the other reader's Len() returns.
pub record InterceptReader : Type 0 where
  pub len : ℕ
  pub buf : List ℕ
  pub r : ℕ
  pub last_error : Option ReadError
  pub done : Closer

unfoldable pub new_intercept_reader : ℕ → List ℕ → InterceptReader
new_intercept_reader len buf = record {
  len = len;
  buf = buf;
  r = 0;
  last_error = none;
  done = new_closer;
}

-- copy(dst, src)
unfoldable pub copy : List ℕ → List ℕ → List ℕ
copy [] src = []
copy (d ∷ dst) [] = d ∷ dst
copy (d ∷ dst) (s ∷ src) = s ∷ copy dst src

-- copy(buf[r:], bytes)
abbrev pub copy_at : ℕ → List ℕ → List ℕ → List ℕ
copy_at r buf bytes = take r buf ++ copy (drop r buf) bytes

abbrev pub is_error : Option ReadError → Bool
is_error none = false
is_error (some _) = true

unfoldable pub hold : InterceptReader → InterceptReader
unfolding init
hold ir = record ir { done = init ir.done }

unfoldable pub unhold : InterceptReader → InterceptReader
unfolding close
unhold ir = record ir { done = close ir.done }

-- What the reader keeps of an answer.
unfoldable pub keep : Answer → InterceptReader → InterceptReader
unfolding copy
keep answer ir = record ir {
  last_error = answer.error;
  buf = copy_at ir.r ir.buf answer.bytes;
  r = ir.r + length answer.bytes;
}

-- Read(p); the first component is what it returns, and the last whether onIntercept was called.
unfoldable pub read : Answer → InterceptReader → Answer × InterceptReader × Bool
unfolding keep unhold
read answer ir =
    if ir.r == length ir.buf
    then (record { bytes = []; error = some eof }, ir, false)
    else let kept = keep answer ir in
      (
        answer,
        if kept.r == length kept.buf || is_error answer.error then unhold kept else kept,
        true,
      )

-- io.ReadFull(ir, buf[start:]) with the answers that the other reader gives; `blocked` waits for
-- one more.
pub data Full : Type 0 where
  blocked : InterceptReader → Full
  done_reading : InterceptReader → Option ReadError → Full

abbrev short_read : Bool → Option ReadError → Option ReadError
short_read true (some eof) = some unexpected_eof
short_read _ error = error

unfoldable pub read_full : ℕ → List Answer → InterceptReader → Full
unfolding read
read_full start [] ir = blocked ir
read_full start (answer ∷ answers) ir =
    let got = read answer ir in
    let rest = read_full start answers got.1 in
    if leb (length ir.buf) got.1.r
    then done_reading got.1 none
    else if is_error got.0.error
    then done_reading got.1 (short_read (ltb start got.1.r) got.0.error)
    else rest

-- ReadAll(): nothing is read where the buffer is full.
unfoldable pub read_all : List Answer → InterceptReader → Full
unfolding read_full
read_all answers ir =
    if leb (length ir.buf) ir.r then done_reading ir none else read_full ir.r answers ir

-- Close(), after its wait and before onClose
unfoldable pub drain_close : List Answer → InterceptReader → Full
unfolding read_all
drain_close answers ir =
    if is_error ir.last_error
    then done_reading ir ir.last_error
    else if ltb ir.r ir.len
    then read_all answers ir
    else done_reading ir ir.last_error
