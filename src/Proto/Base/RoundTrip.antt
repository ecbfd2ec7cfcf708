-- ===== src/Proto/Base/RoundTrip.antt =====
-- The headers that `Base::write` and `Base::as_buf` write, and what `Base::try_from` reads from them.
use snapcast_client.Prelude.{
  ℕ, zero, suc, ◌+◌, ◌-◌, ◌≤◌, ◌≡◌, refl, sym, ap, ◌∙◌, arith, List, [], ◌∷◌, ◌++◌, length, take,
  drop, replicate, length-append, length-drop, length-take, length-replicate, drop-append,
  append-nil, le→leb,
}
use snapcast_client.Outcome.{ok}
use snapcast_client.Word.{IsU16}
use snapcast_client.Bytes.{Bytes, u16_le, u32_le, slice_to_u16, slice_to_u32}
use snapcast_client.Bytes.Words.{u16_round, u32_round}
use snapcast_client.Bytes.Slices.{slice_fits, copy_next, drop-drop}
use snapcast_client.TimeVal
use snapcast_client.TimeVal.Micros.{IsTimeVal}
use snapcast_client.TimeVal.Wire.{write-as_buf, from_slice-as_buf}
use snapcast_client.Proto.MessageType
use snapcast_client.Proto.MessageType.{try_from-as_u16, as_u16-lt}
use snapcast_client.Proto.Base.{Base, max_payload, try_from, write_tv, write, as_buf}

-- The fields are values of their Rust types, and the payload is within the limit.
pub record IsBase (b : Base) : Type 0 where
  pub id_fits : IsU16 b.id
  pub refers_to_fits : IsU16 b.refers_to
  pub sent_fits : IsTimeVal b.sent_tv
  pub received_fits : IsTimeVal b.received_tv
  pub size_fits : b.size ≤ max_payload

-- The 26 bytes of a header.
unfoldable pub header : Base → Bytes
header b =
    u16_le (MessageType.as_u16 b.mtype)
    ++ (u16_le b.id
        ++ (u16_le b.refers_to
            ++ (TimeVal.as_buf b.sent_tv ++ (TimeVal.as_buf b.received_tv ++ u32_le b.size))))

pub length-header : (b : Base) → length (header b) ≡ 26
unfolding header TimeVal.as_buf
length-header b = refl

drop-take {ℓ} : {A : Type ℓ} (n : ℕ) (xs : List A) → drop n (take n xs) ≡ []
drop-take zero xs = refl
drop-take (suc n) [] = refl
drop-take (suc n) (x ∷ xs) = drop-take n xs

write_tv_next :
    (tv : TimeVal.TimeVal) (pre out : Bytes)
    → 8 ≤ length out
    → write_tv (length pre) (length pre + 8) tv (pre ++ out)
      ≡ ok (pre ++ (TimeVal.as_buf tv ++ drop 8 out))
unfolding write_tv TimeVal.as_buf
write_tv_next tv pre out h =
    rw
      (
        slice_fits (length pre) (length pre + 8) (pre ++ out) (omega arith)
            (omega (arith, length-append pre out)),
        drop-append pre out,
        (let e : length pre + 8 - length pre ≡ 8 = omega arith in e),
        write-as_buf tv (take 8 out) (omega (arith, length-take 8 out)),
        drop-take 8 out,
      )
      (copy_next pre (TimeVal.as_buf tv) out h)

drop-replicate : (n : ℕ) → drop {A = ℕ} n (replicate n 0) ≡ []
drop-replicate zero = refl
drop-replicate (suc n) = drop-replicate n

drops :
    (n : ℕ) (out : Bytes)
    → drop n (drop 4 (drop 8 (drop 8 (drop 2 (drop 2 (drop 2 out)))))) ≡ drop (26 + n) out
drops n out = simp drop-drop

-- `write` puts the header and the payload at the front of `out`, and leaves what is behind them.
pub write-header :
    (b : Base) (out payload : Bytes)
    → 26 + length payload ≤ length out
    → write b out payload
      ≡ ok (header b ++ (payload ++ drop (26 + length payload) out), 26 + length payload)
unfolding write header TimeVal.as_buf
write-header b out payload h = rw (
  copy_next [] p1 out (omega arith),
  copy_next p1 (u16_le b.id) (drop 2 out) (omega (arith, length-drop {0})),
  copy_next p2 (u16_le b.refers_to) (drop 2 (drop 2 out)) (omega (arith, length-drop {0})),
  write_tv_next b.sent_tv p3 (drop 2 (drop 2 (drop 2 out))) (omega (arith, length-drop {0})),
  write_tv_next b.received_tv p4 (drop 8 (drop 2 (drop 2 (drop 2 out))))
      (omega (arith, length-drop {0})),
  copy_next p5 (u32_le b.size) (drop 8 (drop 8 (drop 2 (drop 2 (drop 2 out)))))
      (omega (arith, length-drop {0})),
  copy_next p6 payload (drop 4 (drop 8 (drop 8 (drop 2 (drop 2 (drop 2 out))))))
      (omega (arith, length-drop {0})),
  drops (length payload) out,
)
  where
    p1 : Bytes
    p1 = u16_le (MessageType.as_u16 b.mtype)

    p2 : Bytes
    p2 = p1 ++ u16_le b.id

    p3 : Bytes
    p3 = p2 ++ u16_le b.refers_to

    p4 : Bytes
    p4 = p3 ++ TimeVal.as_buf b.sent_tv

    p5 : Bytes
    p5 = p4 ++ TimeVal.as_buf b.received_tv

    p6 : Bytes
    p6 = p5 ++ u32_le b.size

-- Reading a written header gives it back, whatever follows it.
pub try_from-header : (b : Base) (rest : Bytes) → IsBase b → try_from (header b ++ rest) ≡ ok b
unfolding try_from header TimeVal.as_buf slice_to_u16 slice_to_u32
try_from-header b rest v = rw (
  le→leb 26 (length (header b ++ rest)) (omega arith),
  slice_fits 0 2 (header b ++ rest) (omega arith) (omega arith),
  u16_round (MessageType.as_u16 b.mtype) (omega (arith, as_u16-lt b.mtype)),
  try_from-as_u16 b.mtype,
  slice_fits 22 26 (header b ++ rest) (omega arith) (omega arith),
  u32_round b.size (omega arith),
  le→leb b.size max_payload v.size_fits,
  slice_fits 2 4 (header b ++ rest) (omega arith) (omega arith),
  u16_round b.id v.id_fits,
  slice_fits 4 6 (header b ++ rest) (omega arith) (omega arith),
  u16_round b.refers_to v.refers_to_fits,
  slice_fits 6 14 (header b ++ rest) (omega arith) (omega arith),
  from_slice-as_buf b.sent_tv [] v.sent_fits,
  slice_fits 14 22 (header b ++ rest) (omega arith) (omega arith),
  from_slice-as_buf b.received_tv [] v.received_fits,
)

-- `as_buf` is the header and the payload, one after the other.
pub as_buf-header : (b : Base) (payload : Bytes) → as_buf b payload ≡ ok (header b ++ payload)
unfolding as_buf
as_buf-header b payload =
    rw
      (write-header b (replicate (26 + length payload) 0) payload
        (omega (arith, length-replicate {A = ℕ} (26 + length payload) 0)))
      (ap (λ r. ok (header b ++ r)) (nothing_left ∙ append-nil payload))
  where
    nothing_left :
        payload ++ drop (26 + length payload) (replicate (26 + length payload) 0) ≡ payload ++ []
    nothing_left = ap (λ r. payload ++ r) (drop-replicate (26 + length payload))

pub split_header :
    (b : Base) (payload : Bytes)
    → (take 26 (header b ++ payload) ≡ header b) × (drop 26 (header b ++ payload) ≡ payload)
unfolding header TimeVal.as_buf
split_header b payload = (refl, refl)

-- A message that is written with `as_buf`, whose header's fields are in the ranges of their types and
-- announce at most 2 ^ 20 bytes, is split after 26 bytes into a header that is parsed to what was
-- written, and its payload.
pub as_buf_split :
    (b : Base) (payload : Bytes)
    → IsBase b
    → (buf : Bytes) × (as_buf b payload ≡ ok buf)
      × (try_from (take 26 buf) ≡ ok b)
      × (drop 26 buf ≡ payload)
as_buf_split b payload h = (
  header b ++ payload,
  as_buf-header b payload,
  ap try_from ((split_header b payload).0 ∙ sym (append-nil (header b))) ∙ try_from-header b [] h,
  (split_header b payload).1,
)
