-- ===== src/Proto/Hello.antt =====
-- `ClientHello` of src/proto.rs. Its text is that of serde_json, which is a parameter; a string is the
-- list of its bytes.
use snapcast_client.Prelude.{ℕ, ◌+◌, ◌%◌, ◌^◌, ◌≡◌, leb, length, ◌++◌, Option, none, some}
use snapcast_client.Outcome.{Outcome, Error, ok, err, ◌>>=◌, ◌>>◌, ensure}
use snapcast_client.Bytes.{Bytes, u32_le, slice, slice_to_u32}
use snapcast_client.TimeVal.{tv_zero}
use snapcast_client.Proto.MessageType
use snapcast_client.Proto.Base

pub record ClientHello : Type 0 where
  pub mac : Bytes
  pub host_name : Bytes
  pub version : Bytes
  pub client_name : Bytes
  pub os : Bytes
  pub arch : Bytes
  pub instance_number : ℕ
  pub id : Bytes
  pub snap_stream_protocol_version : ℕ

-- `serde_json::to_string` and `serde_json::from_slice`.
pub record HelloJson : Type 0 where
  pub to_string : ClientHello → Bytes
  pub from_slice : Bytes → Option ClientHello

-- What the code relies on: the text of this hello is read back.
abbrev pub ReadsBack : HelloJson → ClientHello → Type 0
ReadsBack json h = json.from_slice (json.to_string h) ≡ some h

abbrev pub or_err {ℓ} : {A : Type ℓ} → Option A → Error → Outcome A
or_err none e = err e
or_err (some a) e = ok a

module _ (json : HelloJson) where
  unfoldable pub as_buf : ClientHello → Outcome Bytes
  as_buf h =
      let payload = json.to_string h in
      let payload_len_buf = u32_le (length payload % 2 ^ 32) ++ payload in
      Base.as_buf
        (record {
          mtype = MessageType.hello;
          id = 0;
          refers_to = 0;
          sent_tv = tv_zero;
          received_tv = tv_zero;
          size = length payload_len_buf % 2 ^ 32;
        })
        payload_len_buf

  -- `len.checked_add(4)` does not overflow: `len` comes from a `u32`, and a `usize` has 64 bits.
  unfoldable pub try_from : Bytes → Outcome ClientHello
  try_from buf = do
    ensure (leb 4 (length buf)) Error.short_hello
    len ← slice_to_u32 buf
    ensure (leb (len + 4) (length buf)) Error.hello_length_out_of_range
    text ← slice 4 (len + 4) buf
    or_err (json.from_slice text) Error.invalid_hello
