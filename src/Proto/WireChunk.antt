-- ===== src/Proto/WireChunk.antt =====
-- `WireChunk` of src/proto.rs: a timestamp and the encoded audio.
use snapcast_client.Prelude.{ℕ, ◌+◌, ◌%◌, ◌^◌, length, ◌++◌}
use snapcast_client.Outcome.{Outcome, ok, ◌>>=◌}
use snapcast_client.Bytes.{Bytes, u32_le, slice, slice_to_u32}
use snapcast_client.TimeVal
use snapcast_client.TimeVal.{TimeVal}
use snapcast_client.Proto.MessageType
use snapcast_client.Proto.Base

pub record WireChunk : Type 0 where
  pub timestamp : TimeVal
  pub payload : Bytes

-- `WireChunk::from(&[u8])`
unfoldable pub from_slice : Bytes → Outcome WireChunk
from_slice buf = do
  size ← slice 8 12 buf >>= slice_to_u32
  timestamp ← slice 0 8 buf >>= TimeVal.from_slice
  payload ← slice 12 (12 + size) buf
  ok (record { timestamp = timestamp; payload = payload })

unfoldable pub as_buf : WireChunk → ℕ → TimeVal → Outcome Bytes
as_buf wc id now =
    let payload =
      TimeVal.as_buf wc.timestamp ++ (u32_le (length wc.payload % 2 ^ 32) ++ wc.payload) in
    Base.as_buf
      (record {
        mtype = MessageType.wire_chunk;
        id = id;
        refers_to = 0;
        sent_tv = now;
        received_tv = now;
        size = length payload % 2 ^ 32;
      })
      payload
