-- ===== src/Proto/Base/Parse.antt =====
-- `Base::try_from` against the fields' offsets in the buffer.
use snapcast_client.Prelude.{
  ◌≤◌, ◌≡◌, sym, ◌∙◌, arith, length, ltb, le→leb, lt→leb_false, lt→ltb, le→ltb_false, if◌then◌else◌,
  inl, inr,
}
use native.Mathlib.Decide.{dec_lt}
use snapcast_client.Outcome.{Outcome, Error, ok, err, ◌>>=◌, Returns}
use snapcast_client.Bytes.{Bytes}
use snapcast_client.Bytes.Slices.{u16_at, u32_at, u16_slice, u32_slice}
use snapcast_client.TimeVal.Wire.{tv_at, tv_slice}
use snapcast_client.Proto.MessageType
use snapcast_client.Proto.MessageType.{MessageType, as_u16}
use snapcast_client.Proto.Base.{Base, max_payload, try_from}

-- The header whose fields stand at their offsets in a buffer.
unfoldable pub fields_at : MessageType → Bytes → Base
fields_at m buf = record {
  mtype = m;
  id = u16_at 2 buf;
  refers_to = u16_at 4 buf;
  sent_tv = tv_at 6 buf;
  received_tv = tv_at 14 buf;
  size = u32_at 22 buf;
}

-- Which error comes first, and what is parsed if there is none.
unfoldable pub parsed : Bytes → Outcome Base
parsed buf =
    if ltb (length buf) 26
    then err Error.short_base_header
    else MessageType.try_from (u16_at 0 buf) >>= λ m.
        if ltb max_payload (u32_at 22 buf)
        then err Error.payload_too_large
        else ok (fields_at m buf)

parsed_long :
    (buf : Bytes)
    → 26 ≤ length buf
    → (m : MessageType) → MessageType.try_from (u16_at 0 buf) ≡ ok m
    → try_from buf ≡ (
        if ltb max_payload (u32_at 22 buf)
        then err Error.payload_too_large
        else ok (fields_at m buf))
unfolding try_from fields_at
parsed_long buf h m e =
    rw
      (
        le→leb 26 (length buf) h,
        u16_slice 0 2 buf (omega arith) (omega arith),
        e,
        u32_slice 22 26 buf (omega arith) (omega arith),
        u16_slice 2 4 buf (omega arith) (omega arith),
        u16_slice 4 6 buf (omega arith) (omega arith),
        tv_slice 6 14 buf (omega arith) (omega arith),
        tv_slice 14 22 buf (omega arith) (omega arith),
      )
      (elim (dec_lt max_payload (u32_at 22 buf)) [
        | yes big ↦
            rw
              (lt→leb_false (u32_at 22 buf) max_payload big, lt→ltb max_payload (u32_at 22 buf) big)
        | no fits ↦ rw (
          le→leb (u32_at 22 buf) max_payload (omega arith),
          le→ltb_false max_payload (u32_at 22 buf) (omega arith),
        )
      ])

parsed_illegal :
    (buf : Bytes) {e : Error}
    → 26 ≤ length buf
    → MessageType.try_from (u16_at 0 buf) ≡ err e
    → try_from buf ≡ err e
unfolding try_from
parsed_illegal buf h e =
    rw (le→leb 26 (length buf) h, u16_slice 0 2 buf (omega arith) (omega arith), e)

-- On every buffer `Base::try_from` answers as the offsets say: a short header, an unknown message
-- type and a payload above the limit are errors, in this order, and anything else is parsed.
pub try_from-parsed : (buf : Bytes) → try_from buf ≡ parsed buf
unfolding try_from parsed
try_from-parsed buf = elim (dec_lt (length buf) 26) [
  | yes short ↦ rw (lt→leb_false 26 (length buf) short, lt→ltb (length buf) 26 short)
  | no long ↦ rw (le→ltb_false (length buf) 26 (omega arith)) (by_type (omega arith))
]
  where
    by_type :
        26 ≤ length buf
        → try_from buf ≡ (
            MessageType.try_from (u16_at 0 buf) >>= λ m.
            if ltb max_payload (u32_at 22 buf)
            then err Error.payload_too_large
            else ok (fields_at m buf))
    by_type h = elim (MessageType.try_from-cases (u16_at 0 buf)) [
      | inl (m, e, _) ↦ parsed_long buf h m e ∙ sym (rw e)
      | inr (_, e) ↦ parsed_illegal buf h e ∙ sym (rw e)
    ]

-- No buffer makes `Base::try_from` panic.
pub try_from-Returns : (buf : Bytes) → Returns (try_from buf)
unfolding parsed
try_from-Returns buf = rw (try_from-parsed buf) (elim (MessageType.try_from-cases (u16_at 0 buf)) [
  | inl (m, e, _) ↦ ground arith
  | inr (_, e) ↦ ground arith
])

-- A header is parsed only from at least 26 bytes, and the payload that it announces has at most 2 ^
-- 20.
pub try_from-bounds :
    (buf : Bytes) {b : Base} → try_from buf ≡ ok b → (26 ≤ length buf) × (b.size ≤ max_payload)
unfolding parsed fields_at
try_from-bounds buf e =
    let e' = rw (try_from-parsed buf) at e in
    elim (MessageType.try_from-cases (u16_at 0 buf)) [
      | inl (m, f, _) ↦ ground arith
      | inr (_, f) ↦ ground arith
    ]
