-- ===== src/Proto/Message/Frame.antt =====
-- The messages of src/proto.rs as frames: a header that announces the length of the payload behind it.
use snapcast_client.Prelude.{
  ℕ, ◌%◌, ◌^◌, ◌≤◌, ◌≡◌, sym, ap, ◌∙◌, arith, [], ◌++◌, length, take, drop, append-nil,
}
use snapcast_client.Outcome.{Outcome, ok}
use snapcast_client.Word.{IsU16}
use snapcast_client.Bytes.{Bytes}
use snapcast_client.TimeVal.{TimeVal}
use snapcast_client.TimeVal.Micros.{IsTimeVal}
use snapcast_client.Proto.MessageType.{MessageType}
use snapcast_client.Proto.Base
use snapcast_client.Proto.Base.{Base, max_payload}
use snapcast_client.Proto.Base.RoundTrip.{
  IsBase, header, as_buf-header, try_from-header, split_header,
}

-- The bytes are the header `b` and a payload of the length that it announces, which is decoded to the
-- message.
abbrev pub IsFrame : {M : Type 0} → Outcome Bytes → (Base → Bytes → Outcome M) → M → Base → Type 0
IsFrame written decoded msg b =
    (payload : Bytes) × (written ≡ ok (header b ++ payload))
    × IsBase b
    × (b.size ≡ length payload)
    × (decoded b payload ≡ ok msg)

-- The bytes are written, and split after 26 into a header and a payload of the length that the header
-- announces, which is decoded to the message.
abbrev pub IsRead : {M : Type 0} → Outcome Bytes → (Base → Bytes → Outcome M) → M → Type 0
IsRead written decoded msg =
    (buf : Bytes) × (b : Base) × (written ≡ ok buf)
    × (Base.try_from (take 26 buf) ≡ ok b)
    × (b.size ≡ length (drop 26 buf))
    × (decoded b (drop 26 buf) ≡ ok msg)

pub parse_header : (b : Base) → IsBase b → Base.try_from (header b) ≡ ok b
parse_header b h = rw append-nil at (try_from-header b [] h)

pub frame-IsRead :
    {M : Type 0} (written : Outcome Bytes) (decoded : Base → Bytes → Outcome M) (msg : M) (b : Base)
    → IsFrame written decoded msg b
    → IsRead written decoded msg
frame-IsRead written decoded msg b (payload, w, h, size, d) =
    let (front, rest) = split_header b payload in
    (
      header b ++ payload,
      b,
      w,
      ap Base.try_from front ∙ parse_header b h,
      size ∙ sym (ap length rest),
      ap (decoded b) rest ∙ d,
    )

-- A payload below the limit is written with its own length.
pub framed :
    {M : Type 0} (b : Base) (n : ℕ) (payload : Bytes) (decoded : Base → Bytes → Outcome M) (msg : M)
    → n ≡ length payload
    → IsBase (record b { size = n })
    → decoded (record b { size = n }) payload ≡ ok msg
    → IsFrame
        (Base.as_buf (record b { size = length payload % 2 ^ 32 }) payload)
        decoded
        msg
        (record b { size = n })
framed b n payload decoded msg e h d =
    let same : length payload % 2 ^ 32 ≡ n = omega (arith, h.size_fits) in
    (
      payload,
      ap (λ k. Base.as_buf (record b { size = k }) payload) same
          ∙ as_buf-header (record b { size = n }) payload,
      h,
      e,
      d,
    )

-- The header of a message from the server.
abbrev pub server_base : MessageType → ℕ → TimeVal → ℕ → Base
server_base m id now size = record {
  mtype = m;
  id = id;
  refers_to = 0;
  sent_tv = now;
  received_tv = now;
  size = size;
}

pub server_base-IsBase :
    (m : MessageType) (id : ℕ) (now : TimeVal) (size : ℕ)
    → IsU16 id
    → IsTimeVal now
    → size ≤ max_payload
    → IsBase (server_base m id now size)
server_base-IsBase m id now size hi hn hs = record {
  id_fits = hi;
  refers_to_fits = omega arith;
  sent_fits = hn;
  received_fits = hn;
  size_fits = hs;
}
