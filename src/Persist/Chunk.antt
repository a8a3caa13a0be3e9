-- ===== src/Persist/Chunk.antt =====
-- A chunk that is buffered, proxy/cache/persist_chunk.go. Its data is the buffer of its
-- interceptor, from Store on. The count of references is a number that may be negative.
use lambda_objectstore.Base.{
  ℕ, Bool, true, false, not, Option, none, some, List, [], replicate, leb, ◌==◌, if◌then◌else◌,
}
use lambda_objectstore.Base.Int.{ℤ, pos, negsuc, ◌+ℤ◌, leb_ℤ}
use lambda_objectstore.Persist.Intercept.{
  InterceptReader, ReadError, Answer, new_intercept_reader, is_error, read,
}

-- The state of the chunk's context: none was set, it runs, DonePersist or a retry canceled it, or
-- its deadline is over.
pub data Context : Type 0 where
  background running canceled timed_out : Context

-- `has_cancel`: `cancel` is not nil. `broken`: `err` is types.ErrChunkStoreFailed. `once` is
-- whether close() ran, and `closed` what it sets; the chunk then is removed from the cache.
pub record PersistChunk : Type 0 where
  pub size : ℕ
  pub refs : ℤ
  pub has_cancel : Bool
  pub context : Context
  pub interceptor : Option InterceptReader
  pub closed : Bool
  pub once : Bool
  pub broken : Bool

unfoldable pub new_persist_chunk : ℕ → PersistChunk
new_persist_chunk size = record {
  size = size;
  refs = pos 0;
  has_cancel = false;
  context = background;
  interceptor = none;
  closed = false;
  once = false;
  broken = false;
}

abbrev pub stored_by : Option InterceptReader → ℕ
stored_by none = 0
stored_by (some ir) = ir.r

unfoldable pub bytes_stored : PersistChunk → ℕ
bytes_stored pc = stored_by pc.interceptor

unfoldable pub is_stored : PersistChunk → Bool
unfolding bytes_stored
is_stored pc = bytes_stored pc == pc.size

abbrev pub buffer_of : Option InterceptReader → List ℕ
buffer_of none = []
buffer_of (some ir) = ir.buf

unfoldable pub data_of : PersistChunk → List ℕ
data_of pc = buffer_of pc.interceptor

pub data StoreError : Type 0 where
  stored_twice invalid_chunk_size : StoreError

abbrev pub is_taken : Option InterceptReader → Bool
is_taken none = false
is_taken (some _) = true

-- Store(reader), where the reader's Len() is `len`
unfoldable pub store : ℕ → PersistChunk → Option StoreError × PersistChunk
unfolding new_intercept_reader
store len pc =
    if is_taken pc.interceptor
    then (some stored_twice, pc)
    else if not (len == pc.size)
    then (some invalid_chunk_size, pc)
    else (
      none,
      record pc {
        refs = pc.refs +ℤ pos 1;
        interceptor = some (new_intercept_reader len (replicate pc.size 0));
      },
    )

-- Load(ctx), beside the reader that it makes
unfoldable pub load : PersistChunk → PersistChunk
load pc = record pc { refs = pc.refs +ℤ pos 1 }

unfoldable pub close : PersistChunk → PersistChunk
close pc = record pc { closed = true }

-- once.Do(pc.close)
unfoldable pub close_once : PersistChunk → PersistChunk
unfolding close
close_once pc = if pc.once then pc else close (record pc { once = true })

unfoldable pub done_refs : PersistChunk → PersistChunk
unfolding close_once
done_refs pc =
    let left = pc.refs +ℤ negsuc 0 in
    let pc' = record pc { refs = left } in
    if leb_ℤ left (pos 0) then (if leb_ℤ (pos 0) left then close_once pc' else pc') else pc'

abbrev pub is_canceled : Context → Bool
is_canceled canceled = true
is_canceled _ = false

-- StartPersist(req, timeout, retry)
unfoldable pub start_persist : PersistChunk → PersistChunk
start_persist pc =
    if is_canceled pc.context
    then pc
    else if pc.has_cancel
    then record pc { context = running }
    else record pc { refs = pc.refs +ℤ pos 1; has_cancel = true; context = running }

-- A context whose deadline is over stays so.
abbrev pub cancel_context : Context → Context
cancel_context timed_out = timed_out
cancel_context _ = canceled

unfoldable pub done_persist : PersistChunk → PersistChunk
unfolding done_refs
done_persist pc =
    if pc.has_cancel
    then done_refs (record pc { has_cancel = false; context = cancel_context pc.context })
    else pc

abbrev pub is_running : Context → Bool
is_running running = true
is_running _ = false

-- The deadline is over, and waitPersistTimeout goes on; a retrier asks for a new StartPersist.
unfoldable pub persist_timeout : Bool → PersistChunk → PersistChunk
unfolding done_persist
persist_timeout has_retry pc =
    if is_running pc.context
    then (let late = record pc { context = timed_out } in
        if has_retry then late else done_persist late)
    else pc

unfoldable pub can_close : PersistChunk → Bool
can_close pc = leb_ℤ pc.refs (pos 0)

unfoldable pub notify_error : PersistChunk → PersistChunk
notify_error pc = record pc { broken = true }

-- CloseWithError(err)
unfoldable pub close_with_error : PersistChunk → PersistChunk
unfolding done_persist is_stored notify_error can_close close_once
close_with_error pc =
    let done = done_persist pc in
    if is_stored done
    then done
    else let failed = notify_error done in if can_close failed then close_once failed else failed

-- notifyData, when the interceptor read
unfoldable pub notify_data : Option ReadError → PersistChunk → PersistChunk
unfolding notify_error
notify_data last_error pc = if is_error last_error then notify_error pc else pc

abbrev pub intercepted_by : Answer → Option InterceptReader → PersistChunk → PersistChunk
intercepted_by answer none pc = pc
intercepted_by answer (some ir) pc =
    let got = read answer ir in
    let pc' = record pc { interceptor = some got.1 } in
    if got.2 then notify_data got.1.last_error pc' else pc'

-- The interceptor reads.
unfoldable pub intercept : Answer → PersistChunk → PersistChunk
unfolding notify_data
intercept answer pc = intercepted_by answer pc.interceptor pc

-- waitData: whether it waits, and what it returns when it was woken
unfoldable pub must_wait : ℕ → PersistChunk → Bool
unfolding bytes_stored
must_wait n_read pc = if leb (bytes_stored pc) n_read then not pc.broken else false
