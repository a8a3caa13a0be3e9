-- ===== src/Persist/Reader.antt =====
-- The readers of a chunk, proxy/cache/persist_chunk_reader.go. A Read that has to wait is told what
-- it finds when it is woken: the chunk as it is then, and the error of the context or the chunk.
use lambda_objectstore.Base.{
  ℕ, ◌+◌, ◌-◌, ◌||◌, Option, none, some, [], length, take, drop, ltb, leb, if◌then◌else◌,
}
use lambda_objectstore.Persist.{Closer, new_closer, init, close}
use lambda_objectstore.Persist.Intercept.{ReadError, eof, Answer, is_error}
use lambda_objectstore.Persist.Chunk.{PersistChunk, bytes_stored, data_of, is_stored}

pub record PersistChunkReader : Type 0 where
  pub r : ℕ
  pub done : Closer
  pub last_error : Option ReadError

abbrev pub new_reader : PersistChunkReader
new_reader = record { r = 0; done = new_closer; last_error = none }

unfoldable pub hold : PersistChunkReader → PersistChunkReader
unfolding init
hold b = record b { done = init b.done }

unfoldable pub unhold : PersistChunkReader → PersistChunkReader
unfolding close
unhold b = record b { done = close b.done }

pub record Woken : Type 0 where
  pub chunk : PersistChunk
  pub error : Option ReadError

abbrev pub min : ℕ → ℕ → ℕ
min a b = if leb a b then a else b

-- The rest of Read(p), where p has `k` bytes, once it was told what is available
unfoldable pub read_available :
    ℕ → PersistChunk → ℕ → Option ReadError → PersistChunkReader → Answer × PersistChunkReader
unfolding unhold data_of
read_available k pc available error b =
    if leb available b.r
    then (record { bytes = []; error = error }, if is_error error then unhold b else b)
    else let end = min available (b.r + k) in
      let bytes = take (end - b.r) (drop b.r (data_of pc)) in
      let b' = record b { r = b.r + length bytes } in
      (
        record { bytes = bytes; error = error },
        if leb pc.size b'.r || is_error error then unhold b' else b',
      )

unfoldable pub read : ℕ → PersistChunk → Woken → PersistChunkReader → Answer × PersistChunkReader
unfolding read_available bytes_stored
read k pc woken b =
    if leb pc.size b.r
    then (record { bytes = []; error = some eof }, b)
    else if leb (bytes_stored pc) b.r
    then read_available k woken.chunk (bytes_stored woken.chunk) woken.error
        (record b { last_error = woken.error })
    else read_available k pc (bytes_stored pc) none b

-- ReadAll(), where LoadAll ended at `loaded`. A reader that had read something returns a slice of
-- nil: where it is not empty, the slicing panics, which is `none`.
unfoldable pub read_all :
    PersistChunk → Woken → PersistChunkReader → Option Answer × PersistChunkReader
unfolding unhold bytes_stored data_of
read_all pc loaded b =
    if leb pc.size b.r
    then (some (record { bytes = []; error = some eof }), b)
    else let ret = take (bytes_stored loaded.chunk) (data_of loaded.chunk) in
      (
        if ltb 0 b.r then none else some (record { bytes = ret; error = loaded.error }),
        record (unhold b) { r = length ret },
      )

-- Close(), after its wait; the reference of the reader is given up after it.
unfoldable pub close_reader :
    PersistChunk → PersistChunkReader → Option ReadError × PersistChunkReader
unfolding is_stored
close_reader pc b = (if is_stored pc then none else b.last_error, record b { r = pc.size })
