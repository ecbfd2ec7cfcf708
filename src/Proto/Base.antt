-- ===== src/Proto/Base.antt =====
-- `Base` of src/proto.rs: the 26-byte header of every message.
pub mod Parse
pub mod RoundTrip
use snapcast_client.Prelude.{ℕ, ◌+◌, ◌^◌, leb, length, replicate}
use snapcast_client.Outcome.{Outcome, Error, ok, ◌>>=◌, ◌>>◌, ensure}
use snapcast_client.Bytes.{Bytes, u16_le, u32_le, slice, copy_at, slice_to_u16, slice_to_u32}
use snapcast_client.TimeVal
use snapcast_client.TimeVal.{TimeVal}
use snapcast_client.Proto.MessageType
use snapcast_client.Proto.MessageType.{MessageType}

pub record Base : Type 0 where
  pub mtype : MessageType
  pub id : ℕ
  pub refers_to : ℕ
  pub sent_tv : TimeVal
  pub received_tv : TimeVal
  pub size : ℕ

abbrev pub base_size : ℕ
base_size = 26

abbrev pub max_payload : ℕ
max_payload = 2 ^ 20

unfoldable pub try_from : Bytes → Outcome Base
try_from buf = do
  ensure (leb base_size (length buf)) Error.short_base_header
  mtype ← slice 0 2 buf >>= slice_to_u16 >>= MessageType.try_from
  size ← slice 22 26 buf >>= slice_to_u32
  ensure (leb size max_payload) Error.payload_too_large
  id ← slice 2 4 buf >>= slice_to_u16
  refers_to ← slice 4 6 buf >>= slice_to_u16
  sent_tv ← slice 6 14 buf >>= TimeVal.from_slice
  received_tv ← slice 14 22 buf >>= TimeVal.from_slice
  ok (record {
    mtype = mtype;
    id = id;
    refers_to = refers_to;
    sent_tv = sent_tv;
    received_tv = received_tv;
    size = size;
  })

-- `tv.write(&mut out[lo..hi])`
unfoldable pub write_tv : ℕ → ℕ → TimeVal → Bytes → Outcome Bytes
write_tv lo hi tv out = do
  part ← slice lo hi out
  part' ← TimeVal.write tv part
  copy_at lo hi part' out

-- The new contents of `out`, and the number of bytes that were written.
unfoldable pub write : Base → Bytes → Bytes → Outcome (Bytes × ℕ)
unfolding write_tv
write b out payload = do
  o1 ← copy_at 0 2 (u16_le (MessageType.as_u16 b.mtype)) out
  o2 ← copy_at 2 4 (u16_le b.id) o1
  o3 ← copy_at 4 6 (u16_le b.refers_to) o2
  o4 ← write_tv 6 14 b.sent_tv o3
  o5 ← write_tv 14 22 b.received_tv o4
  o6 ← copy_at 22 26 (u32_le b.size) o5
  o7 ← copy_at base_size (base_size + length payload) payload o6
  ok (o7, base_size + length payload)

unfoldable pub as_buf : Base → Bytes → Outcome Bytes
as_buf b payload = do (buf, _) ← write b (replicate (base_size + length payload) 0) payload; ok buf
