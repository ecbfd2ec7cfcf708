-- ===== src/Bytes/Counted.antt =====
-- Bytes behind their length, as the messages of src/proto.rs hold them.
use snapcast_client.Prelude.{
  ℕ, ◌+◌, ◌-◌, ◌%◌, ◌^◌, ◌≡◌, sym, ap, ◌∙◌, arith, ◌++◌, length, take, drop, take-append,
  drop-append, length-append, append_assoc,
}
use mathlib.Core.Path.{ap₂}
use snapcast_client.Outcome.{ok, ◌>>=◌}
use snapcast_client.Word.{IsU32}
use snapcast_client.Bytes.{Bytes, u32_le, slice, slice_to_u32}
use snapcast_client.Bytes.Words.{u32_round}
use snapcast_client.Bytes.Slices.{slice_fits}

-- What stands between two other parts.
pub slice-append :
    (lo hi : ℕ) (front xs rest : Bytes)
    → lo ≡ length front
    → hi ≡ length front + length xs
    → slice lo hi (front ++ (xs ++ rest)) ≡ ok xs
slice-append lo hi front xs rest el eh =
    slice_fits lo hi (front ++ (xs ++ rest)) (omega arith)
      (omega (arith, length-append front (xs ++ rest), length-append xs rest))
    ∙ ap ok (
        ap₂ (λ n k. take n (drop k (front ++ (xs ++ rest))))
          (let e : hi - lo ≡ length xs = omega arith in e) el
        ∙ ap (take (length xs)) (drop-append front (xs ++ rest))
        ∙ take-append xs rest)

-- `extend_from_slice(&u32::to_le_bytes(xs.len() as u32))` and `extend_from_slice(xs)`
abbrev pub counted : Bytes → Bytes
counted xs = u32_le (length xs % 2 ^ 32) ++ xs

module _ (front xs rest : Bytes) (fits : IsU32 (length xs)) (lo mid : ℕ) (lo_eq : lo ≡ length front)
    (mid_eq : mid ≡ length front + 4) where
  pub count_read : (slice lo mid (front ++ (counted xs ++ rest)) >>= slice_to_u32) ≡ ok (length xs)
  unfolding slice_to_u32
  count_read =
      rw (slice-append lo mid front (u32_le (length xs % 2 ^ 32)) (xs ++ rest) lo_eq mid_eq)
        (ap ok (u32_round (length xs % 2 ^ 32) (omega arith) ∙ omega arith))

  pub counted_read :
      (hi : ℕ) → hi ≡ mid + length xs → slice mid hi (front ++ (counted xs ++ rest)) ≡ ok xs
  counted_read hi h =
      ap (slice mid hi) (sym (append_assoc front (u32_le (length xs % 2 ^ 32)) (xs ++ rest)))
      ∙ slice-append mid hi (front ++ u32_le (length xs % 2 ^ 32)) xs rest
          (omega (arith, length-append front (u32_le (length xs % 2 ^ 32))))
          (omega (arith, length-append front (u32_le (length xs % 2 ^ 32))))
