-- ===== src/Persist.antt =====
-- The buffering of chunks while they pass through the proxy: proxy/cache (persist_chunk.go,
-- persist_chunk_reader.go) over the reader of common/redeo/server that keeps a copy of what is
-- read. This file has common/util/closer.go; a byte is a number.
use lambda_objectstore.Base.{Bool, true, false, Option, none, some, if◌then◌else◌}
pub mod Intercept
pub mod Chunk
pub mod Reader
pub mod Slices
pub mod Storing
pub mod Delivery
pub mod References

-- `done` is the channel: none where it was not made, or whether it is closed.
pub record Closer : Type 0 where
  pub status : Bool
  pub done : Option Bool

abbrev pub new_closer : Closer
new_closer = record { status = false; done = none }

unfoldable pub init : Closer → Closer
init c = record { status = false; done = some false }

unfoldable pub is_closed : Closer → Bool
is_closed c = c.status

abbrev close_channel : Option Bool → Option Bool
close_channel none = none
close_channel (some _) = some true

unfoldable pub close : Closer → Closer
close c = if c.status then c else record { status = true; done = close_channel c.done }

-- Whether Wait() returns
unfoldable pub wait_returns : Closer → Bool
wait_returns c = from c.done
  where
    from : Option Bool → Bool
    from none = true
    from (some closed) = closed
