-- ===== src/Proto/Codec.antt =====
-- `CodecHeader` of src/proto.rs, and the metadata of the three codecs.
use Prim.Native.Nat.{bit_and}
use snapcast_client.Prelude.{
  ℕ, ◌+◌, ◌/◌, ◌%◌, ◌^◌, ◌==◌, length, [], ◌∷◌, ◌++◌, Bool, true, false, ◌&&◌, if◌then◌else◌,
}
use snapcast_client.Outcome.{Outcome, ok, panic, ◌>>=◌, ◌>>◌, assert}
use snapcast_client.Bytes.{Bytes, u16_le, u32_le, slice, slice_to_u16, slice_to_u32, slice_to_u32be}
use snapcast_client.TimeVal.{TimeVal}
use snapcast_client.Proto.MessageType
use snapcast_client.Proto.Base

pub record OpusMetadata : Type 0 where
  pub sample_rate : ℕ
  pub bit_depth : ℕ
  pub channel_count : ℕ

pub record PcmMetadata : Type 0 where
  pub channel_count : ℕ
  pub audio_rate : ℕ
  pub bit_depth : ℕ

pub record FlacMetadata : Type 0 where
  pub sample_rate : ℕ
  pub bit_depth : ℕ
  pub channel_count : ℕ

pub data CodecMetadata : Type 0 where
  flac : FlacMetadata → CodecMetadata
  pcm : PcmMetadata → CodecMetadata
  opus : OpusMetadata → CodecMetadata

pub record CodecHeader : Type 0 where
  pub codec : Bytes
  pub metadata : CodecMetadata

abbrev pub opus_marker : ℕ
opus_marker = 0x4F50_5553

-- `==` on byte slices.
abbrev pub bytes_eq : Bytes → Bytes → Bool
bytes_eq [] [] = true
bytes_eq [] (_ ∷ _) = false
bytes_eq (_ ∷ _) [] = false
bytes_eq (x ∷ xs) (y ∷ ys) = (x == y) && bytes_eq xs ys

abbrev pub opus_name : Bytes
opus_name = b'o' ∷ b'p' ∷ b'u' ∷ b's' ∷ []

abbrev pub flac_name : Bytes
flac_name = b'f' ∷ b'l' ∷ b'a' ∷ b'c' ∷ []

abbrev pub pcm_name : Bytes
pcm_name = b'p' ∷ b'c' ∷ b'm' ∷ []

abbrev pub riff : Bytes
riff = b'R' ∷ b'I' ∷ b'F' ∷ b'F' ∷ []

-- `OpusMetadata::as_payload`
unfoldable pub opus_payload : OpusMetadata → Bytes
opus_payload m =
    u32_le opus_marker ++ (u32_le m.sample_rate ++ (u16_le m.bit_depth ++ u16_le m.channel_count))

-- `OpusMetadata::from(&[u8])`; the marker is read and not checked.
unfoldable pub opus_from : Bytes → Outcome OpusMetadata
opus_from buf = do
  _marker ← slice 0 4 buf >>= slice_to_u32
  sample_rate ← slice 4 8 buf >>= slice_to_u32
  bit_depth ← slice 8 10 buf >>= slice_to_u16
  channel_count ← slice 10 12 buf >>= slice_to_u16
  ok (record { sample_rate = sample_rate; bit_depth = bit_depth; channel_count = channel_count })

-- `PcmMetadata::from(&[u8])`
unfoldable pub pcm_from : Bytes → Outcome PcmMetadata
pcm_from buf = do
  magic ← slice 0 4 buf
  assert (bytes_eq magic riff)
  format_tag ← slice 20 22 buf >>= slice_to_u16
  assert (format_tag == 1)
  channel_count ← slice 22 24 buf >>= slice_to_u16
  audio_rate ← slice 24 28 buf >>= slice_to_u32
  bit_depth ← slice 34 36 buf >>= slice_to_u16
  ok (record { channel_count = channel_count; audio_rate = audio_rate; bit_depth = bit_depth })

-- `FlacMetadata::from(&[u8])`
unfoldable pub flac_from : Bytes → Outcome FlacMetadata
flac_from whole = do
  buf ← slice 4 (length whole) whole
  bitfield ← slice 14 18 buf >>= slice_to_u32be
  let sample_rate = bit_and bitfield 0xffff000 / 2 ^ 12
  let channel_count = bit_and bitfield 0x300 / 2 ^ 8
  let bit_depth = bit_and bitfield 31
  ok (record {
    sample_rate = sample_rate;
    bit_depth = bit_depth % 2 ^ 16;
    channel_count = channel_count % 2 ^ 16;
  })

unfoldable pub channels : CodecMetadata → ℕ
channels (opus o) = o.channel_count
channels (pcm p) = p.channel_count
channels (flac f) = f.channel_count

unfoldable pub rate : CodecMetadata → ℕ
rate (opus o) = o.sample_rate
rate (pcm p) = p.audio_rate
rate (flac f) = f.sample_rate

-- `CodecMetadata::as_payload`: only opus headers are written, the rest is `todo!`.
unfoldable pub as_payload : CodecMetadata → Outcome Bytes
unfolding opus_payload
as_payload (opus o) = ok (opus_payload o)
as_payload (pcm _) = panic
as_payload (flac _) = panic

-- The `match codec` of `CodecHeader::from`. An unknown name is a `todo!`.
unfoldable pub metadata_from : Bytes → Bytes → Outcome CodecMetadata
unfolding opus_from flac_from pcm_from
metadata_from codec payload =
    if bytes_eq codec opus_name
    then (do m ← opus_from payload; ok (opus m))
    else if bytes_eq codec flac_name
    then (do m ← flac_from payload; ok (flac m))
    else if bytes_eq codec pcm_name
    then (do m ← pcm_from payload; ok (pcm m))
    else panic

-- `CodecHeader::from(&[u8])`. A name that is not UTF-8 panics in `unwrap`, and so it does in the
-- model, where it is none of the three known names.
unfoldable pub from_slice : Bytes → Outcome CodecHeader
from_slice buf = do
  size ← slice 0 4 buf >>= slice_to_u32
  let codec_name_end = 4 + size
  codec ← slice 4 codec_name_end buf
  payload_len ← slice codec_name_end (codec_name_end + 4) buf >>= slice_to_u32
  payload ← slice (codec_name_end + 4) (codec_name_end + 4 + payload_len) buf
  metadata ← metadata_from codec payload
  ok (record { codec = codec; metadata = metadata })

unfoldable pub as_buf : CodecHeader → ℕ → TimeVal → Outcome Bytes
unfolding as_payload
as_buf ch id now = do
  meta ← as_payload ch.metadata
  let payload =
      u32_le (length ch.codec % 2 ^ 32) ++ (ch.codec ++ (u32_le (length meta % 2 ^ 32) ++ meta))
  Base.as_buf
      (record {
        mtype = MessageType.codec_header;
        id = id;
        refers_to = 0;
        sent_tv = now;
        received_tv = now;
        size = length payload % 2 ^ 32;
      })
      payload
