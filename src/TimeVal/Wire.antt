-- ===== src/TimeVal/Wire.antt =====
-- The eight bytes of a `TimeVal` on the wire.
use snapcast_client.Prelude.{
  ℕ, ◌+◌, ◌-◌, ◌≤◌, ◌≡◌, refl, ap, ◌∙◌, arith, ℤ, length, take, drop, length-drop, [], ◌++◌, All,
  get_or,
}
use mathlib.Core.Path.{ap₂}
use snapcast_client.Outcome.{ok, ◌>>=◌}
use snapcast_client.Word.{IsI32, of_u32, to_u32}
use snapcast_client.Bytes.{Bytes, IsByte, i32_le, slice, slice_to_i32, slice_to_u32}
use snapcast_client.Bytes.Words.{i32_round, u32_round, to_u32-IsU32}
use snapcast_client.Bytes.Slices.{
  slice_fits, copy_next, drop-drop, i32_slice, u32_at, get_or-window, length-window,
}
use snapcast_client.TimeVal.{TimeVal, write, as_buf, from_slice}
use snapcast_client.TimeVal.Micros.{IsTimeVal}

pub length-as_buf : (tv : TimeVal) → length (as_buf tv) ≡ 8
unfolding as_buf
length-as_buf tv = refl

pub as_buf-IsByte : (tv : TimeVal) → All IsByte (as_buf tv)
unfolding as_buf
as_buf-IsByte tv = omega arith

-- `write` fills the first eight bytes with those of `as_buf`.
pub write-as_buf :
    (tv : TimeVal) (buf : Bytes) → 8 ≤ length buf → write tv buf ≡ ok (as_buf tv ++ drop 8 buf)
unfolding write as_buf
write-as_buf tv buf h = rw (copy_next [] (i32_le tv.sec) buf (omega arith)) (
    copy_next (i32_le tv.sec) (i32_le tv.usec) (drop 4 buf) (omega (arith, length-drop 4 buf))
    ∙ ap (λ r. ok (as_buf tv ++ r)) (drop-drop 4 4 buf))

four_bytes : (z : ℤ) (rest : Bytes) → IsI32 z → slice_to_i32 (i32_le z ++ rest) ≡ ok z
unfolding slice_to_i32 slice_to_u32
four_bytes z rest h =
    ap (λ w. ok (of_u32 w)) (u32_round (to_u32 z) (to_u32-IsU32 z)) ∙ ap ok (i32_round z h)

-- Reading gives back the `i32` pair that was written, whatever follows it.
pub from_slice-as_buf :
    (tv : TimeVal) (rest : Bytes) → IsTimeVal tv → from_slice (as_buf tv ++ rest) ≡ ok tv
unfolding from_slice as_buf
from_slice-as_buf tv rest h = rw (
  slice_fits 0 4 (as_buf tv ++ rest) (omega arith) (omega arith),
  slice_fits 4 8 (as_buf tv ++ rest) (omega arith) (omega arith),
  four_bytes tv.sec [] h.0,
  four_bytes tv.usec [] h.1,
)

-- The pair at an offset of a buffer.
pub tv_at : ℕ → Bytes → TimeVal
tv_at i buf = record { sec = of_u32 (u32_at i buf); usec = of_u32 (u32_at (i + 4) buf) }

pub from_slice_fits : (buf : Bytes) → 8 ≤ length buf → from_slice buf ≡ ok (tv_at 0 buf)
unfolding from_slice tv_at
from_slice_fits buf h =
    rw
      (i32_slice 0 4 buf (omega arith) (omega arith), i32_slice 4 8 buf (omega arith) (omega arith))

u32_at-window :
    (lo n i : ℕ) (buf : Bytes) → i + 4 ≤ n → u32_at i (take n (drop lo buf)) ≡ u32_at (lo + i) buf
u32_at-window lo n i buf h = omega (
  arith,
  get_or-window lo n i buf 0,
  get_or-window lo n (i + 1) buf 0,
  get_or-window lo n (i + 2) buf 0,
  get_or-window lo n (i + 3) buf 0,
  ap (λ k. get_or buf k 0) (let e : lo + i + 1 ≡ lo + (i + 1) = omega arith in e),
  ap (λ k. get_or buf k 0) (let e : lo + i + 2 ≡ lo + (i + 2) = omega arith in e),
  ap (λ k. get_or buf k 0) (let e : lo + i + 3 ≡ lo + (i + 3) = omega arith in e),
)

pub tv_slice :
    (lo hi : ℕ) (buf : Bytes)
    → hi ≤ length buf
    → lo + 8 ≡ hi
    → (slice lo hi buf >>= from_slice) ≡ ok (tv_at lo buf)
unfolding tv_at
tv_slice lo hi buf fits h = rw (slice_fits lo hi buf (omega arith) fits) (
    from_slice_fits _ (omega (arith, length-window lo (hi - lo) buf))
    ∙ unfold tv_at in
      ap₂ (λ a b. ok (record { sec = of_u32 a; usec = of_u32 b }))
        (u32_at-window lo (hi - lo) 0 buf (omega arith)
          ∙ ap (λ k. u32_at k buf) (let e : lo + 0 ≡ lo = omega arith in e))
        (u32_at-window lo (hi - lo) 4 buf (omega arith)))
