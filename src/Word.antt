-- ===== src/Word.antt =====
-- Rust's fixed-width integers. An `i32` or an `i64` is an integer in range, a `u8`, `u16` or `u32` a
-- number in range.
use snapcast_client.Prelude.{
  ℕ, ◌+◌, ◌-◌, ◌%◌, ◌^◌, ◌≤◌, ◌<◌, ◌≡◌, ◌&&◌, arith, ltb, leb, if◌then◌else◌, ℤ, pos, negsuc,
  pos_part, neg_part,
}
use native.Mathlib.Decide.{dec_lt}
use snapcast_client.Outcome.{Outcome, ok, panic}

-- How the crate was built: with overflow checks (`cargo build`), or without (`--release`).
pub data Profile : Type 0 where
  debug release : Profile

abbrev pub IsU8 : ℕ → Type 0
IsU8 n = n < 2 ^ 8

abbrev pub IsU16 : ℕ → Type 0
IsU16 n = n < 2 ^ 16

abbrev pub IsU32 : ℕ → Type 0
IsU32 n = n < 2 ^ 32

abbrev pub IsI32 : ℤ → Type 0
IsI32 z = (pos_part z < 2 ^ 31) × (neg_part z ≤ 2 ^ 31)

abbrev pub IsI64 : ℤ → Type 0
IsI64 z = (pos_part z < 2 ^ 63) × (neg_part z ≤ 2 ^ 63)

-- The bit pattern of an integer at a width of 32 bits, and the `i32` with a given pattern.
abbrev pub to_u32 : ℤ → ℕ
to_u32 (pos n) = n % 2 ^ 32
to_u32 (negsuc n) = 2 ^ 32 - 1 - n % 2 ^ 32

abbrev pub of_u32 : ℕ → ℤ
of_u32 w = if ltb w (2 ^ 31) then pos w else negsuc (2 ^ 32 - 1 - w)

abbrev pub to_u64 : ℤ → ℕ
to_u64 (pos n) = n % 2 ^ 64
to_u64 (negsuc n) = 2 ^ 64 - 1 - n % 2 ^ 64

abbrev pub of_u64 : ℕ → ℤ
of_u64 w = if ltb w (2 ^ 63) then pos w else negsuc (2 ^ 64 - 1 - w)

-- `z as i32`
unfoldable pub as_i32 : ℤ → ℤ
as_i32 z = of_u32 (to_u32 z)

-- What an operation does whose true result does not fit.
abbrev pub overflow : Profile → ℤ → Outcome ℤ
overflow debug wrapped = panic
overflow release wrapped = ok wrapped

-- The result of an `i32` (an `i64`) operation whose true result is `z`.
unfoldable pub i32 : Profile → ℤ → Outcome ℤ
i32 p z =
    if ltb (pos_part z) (2 ^ 31) && leb (neg_part z) (2 ^ 31)
    then ok z
    else overflow p (of_u32 (to_u32 z))

unfoldable pub i64 : Profile → ℤ → Outcome ℤ
i64 p z =
    if ltb (pos_part z) (2 ^ 63) && leb (neg_part z) (2 ^ 63)
    then ok z
    else overflow p (of_u64 (to_u64 z))

pub i32_fits : (p : Profile) (z : ℤ) → IsI32 z → i32 p z ≡ ok z
unfolding i32
i32_fits p z h = ground arith

pub i64_fits : (p : Profile) (z : ℤ) → IsI64 z → i64 p z ≡ ok z
unfolding i64
i64_fits p z h = ground arith

pub i32_overflows : (z : ℤ) → ¬ IsI32 z → i32 debug z ≡ panic
unfolding i32
i32_overflows z h = ground arith

pub as_i32_fits : (z : ℤ) → IsI32 z → as_i32 z ≡ z
unfolding as_i32
as_i32_fits z h = ground arith

pub as_i32-IsI32 : (z : ℤ) → IsI32 (as_i32 z)
unfolding as_i32
as_i32-IsI32 z = ground arith

pub IsI32-dec : (z : ℤ) → Dec (IsI32 z)
IsI32-dec z = elim (dec_lt (pos_part z) (2 ^ 31)) [
  | yes p ↦ elim (dec_lt (neg_part z) (2 ^ 31 + 1)) [
    | yes q ↦ yes (p, omega arith)
    | no q ↦ no (λ h. q (omega arith))
  ]
  | no p ↦ no (λ h. p h.0)
]
