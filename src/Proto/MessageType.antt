-- ===== src/Proto/MessageType.antt =====
-- `MessageType` of src/proto.rs.
use snapcast_client.Prelude.{
  ℕ, zero, suc, ◌<◌, ◌≡◌, ◌⊎◌, inl, inr, refl, arith, ◌==◌, if◌then◌else◌,
}
use snapcast_client.Outcome.{Outcome, Error, ok, err}

pub data MessageType : Type 0 where
  base codec_header wire_chunk server_settings time hello stream_tags client_info : MessageType

-- `mtype as u16`
unfoldable pub as_u16 : MessageType → ℕ
as_u16 base = 0
as_u16 codec_header = 1
as_u16 wire_chunk = 2
as_u16 server_settings = 3
as_u16 time = 4
as_u16 hello = 5
as_u16 stream_tags = 6
as_u16 client_info = 7

unfoldable pub try_from : ℕ → Outcome MessageType
try_from u =
    if u == 0
    then ok base
    else if u == 1
    then ok codec_header
    else if u == 2
    then ok wire_chunk
    else if u == 3
    then ok server_settings
    else if u == 4
    then ok time
    else if u == 5
    then ok hello
    else if u == 6
    then ok stream_tags
    else if u == 7
    then ok client_info
    else err (Error.illegal_message_type u)

pub try_from-as_u16 : (m : MessageType) → try_from (as_u16 m) ≡ ok m
unfolding try_from as_u16
try_from-as_u16 base = refl
try_from-as_u16 _ = refl

pub as_u16-lt : (m : MessageType) → as_u16 m < 8
unfolding as_u16
as_u16-lt base = omega arith
as_u16-lt _ = omega arith

-- A number is the discriminant of a message type, or it is above 7 and an error.
pub try_from-cases :
    (u : ℕ)
    → ((m : MessageType) × (try_from u ≡ ok m) × (as_u16 m ≡ u))
      ⊎ ((7 < u) × (try_from u ≡ err (Error.illegal_message_type u)))
unfolding try_from as_u16
try_from-cases zero = inl (base, refl, refl)
try_from-cases (suc zero) = inl (codec_header, refl, refl)
try_from-cases (suc (suc zero)) = inl (wire_chunk, refl, refl)
try_from-cases (suc (suc (suc zero))) = inl (server_settings, refl, refl)
try_from-cases (suc (suc (suc (suc zero)))) = inl (time, refl, refl)
try_from-cases (suc (suc (suc (suc (suc zero))))) = inl (hello, refl, refl)
try_from-cases (suc (suc (suc (suc (suc (suc zero)))))) = inl (stream_tags, refl, refl)
try_from-cases (suc (suc (suc (suc (suc (suc (suc zero))))))) = inl (client_info, refl, refl)
try_from-cases (suc (suc (suc (suc (suc (suc (suc (suc u)))))))) = inr (omega arith, ground arith)
