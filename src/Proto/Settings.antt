-- ===== src/Proto/Settings.antt =====
-- `ServerSettings` of src/proto.rs. Its text is that of serde_json, which is a parameter.
use snapcast_client.Prelude.{ℕ, ◌+◌, ◌%◌, ◌^◌, ◌≡◌, length, ◌++◌, Bool, Option, none, some}
use snapcast_client.Outcome.{Outcome, ok, panic, ◌>>=◌}
use snapcast_client.Bytes.{Bytes, u32_le, slice, slice_to_u32}
use snapcast_client.TimeVal.{TimeVal}
use snapcast_client.Proto.MessageType
use snapcast_client.Proto.Base

pub record ServerSettings : Type 0 where
  pub buffer_ms : ℕ
  pub latency : ℕ
  pub muted : Bool
  pub volume : ℕ

-- `serde_json::to_string`, and `std::str::from_utf8` followed by `serde_json::from_str`, each
-- failure of which is a panic here.
pub record SettingsJson : Type 0 where
  pub to_string : ServerSettings → Bytes
  pub from_str : Bytes → Option ServerSettings

-- What the code relies on: the text of these settings is read back.
abbrev pub ReadsBack : SettingsJson → ServerSettings → Type 0
ReadsBack json s = json.from_str (json.to_string s) ≡ some s

abbrev pub unwrap {ℓ} : {A : Type ℓ} → Option A → Outcome A
unwrap none = panic
unwrap (some a) = ok a

module _ (json : SettingsJson) where
  unfoldable pub as_buf : ServerSettings → ℕ → TimeVal → Outcome Bytes
  as_buf s id now =
      let payload = json.to_string s in
      let payload_len_buf = u32_le (length payload % 2 ^ 32) ++ payload in
      Base.as_buf
        (record {
          mtype = MessageType.server_settings;
          id = id;
          refers_to = 0;
          sent_tv = now;
          received_tv = now;
          size = length payload_len_buf % 2 ^ 32;
        })
        payload_len_buf

  -- `ServerSettings::from(&[u8])`
  unfoldable pub from_slice : Bytes → Outcome ServerSettings
  from_slice buf = do
    len ← slice 0 4 buf >>= slice_to_u32
    s ← slice 4 (4 + len) buf
    unwrap (json.from_str s)
