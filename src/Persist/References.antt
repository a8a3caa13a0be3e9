-- ===== src/Persist/References.antt =====
-- The references of a chunk, proxy/cache/persist_chunk.go: who holds it, and when it is closed.
use lambda_objectstore.Base.{
  ℕ, ◌+◌, ◌-◌, ◌<◌, ◌≡◌, ◌⊎◌, Bool, true, Option, none, some, if◌then◌else◌, ◌==◌,
}
use lambda_objectstore.Base.Int.{pos}
use lambda_objectstore.Persist.Chunk.{
  PersistChunk, StoreError, store, load, done_refs, start_persist, done_persist, persist_timeout,
  close_with_error,
}
pub mod Last

-- A chunk with the number of its readers and interceptors that were not closed yet.
pub record Held : Type 0 where
  pub chunk : PersistChunk
  pub users : ℕ

abbrev pub persisting : PersistChunk → ℕ
persisting pc = if pc.has_cancel then 1 else 0

-- The references are those of the users and that of the persisting, and close() is what closes it.
abbrev pub IsReferenced : Held → Type 0
IsReferenced h =
    (h.chunk.refs ≡ pos (h.users + persisting h.chunk)) × (h.chunk.once ≡ h.chunk.closed)

pub data Use : Type 0 where
  storing : ℕ → Use
  loading leaving : Use
  starting finishing failing : Use
  timing_out : Bool → Use

abbrev pub stored_held : Held → Option StoreError × PersistChunk → Held
stored_held h (none, pc) = record { chunk = pc; users = h.users + 1 }
stored_held h (some _, pc) = h

-- A user leaves by waitInterceptor or waitReader.
unfoldable pub use_chunk : Use → Held → Held
unfolding store load done_refs start_persist done_persist close_with_error persist_timeout
use_chunk (storing len) h = stored_held h (store len h.chunk)
use_chunk loading h = record { chunk = load h.chunk; users = h.users + 1 }
use_chunk leaving h =
    if h.users == 0 then h else record { chunk = done_refs h.chunk; users = h.users - 1 }
use_chunk starting h = record h { chunk = start_persist h.chunk }
use_chunk finishing h = record h { chunk = done_persist h.chunk }
use_chunk failing h = record h { chunk = close_with_error h.chunk }
use_chunk (timing_out has_retry) h = record h { chunk = persist_timeout has_retry h.chunk }

abbrev pub holders : Held → ℕ
holders h = h.users + persisting h.chunk

-- A chunk is closed only when nobody is left that holds it, and by whoever leaves it last.
abbrev pub ClosesLast : Held → Held → Type 0
ClosesLast h h' =
    (h'.chunk.closed ≡ true → (h.chunk.closed ≡ true) ⊎ (holders h' ≡ 0))
    × (0 < holders h → holders h' ≡ 0 → h'.chunk.closed ≡ true)
