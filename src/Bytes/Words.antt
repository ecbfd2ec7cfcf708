-- ===== src/Bytes/Words.antt =====
-- The encodings of integers in bytes, there and back.
use snapcast_client.Prelude.{ℕ, ◌/◌, ◌%◌, ◌≡◌, arith, ℤ, pos, negsuc}
use snapcast_client.Prelude.{All}
use snapcast_client.Word.{IsU16, IsU32, IsI32, to_u32, of_u32}
use snapcast_client.Bytes.{of_u16_le, of_u32_le, u16_le, u32_le, IsByte}

pub u16_round : (v : ℕ) → IsU16 v → of_u16_le (v % 256) (v / 256 % 256) ≡ v
u16_round v h = omega arith

pub u32_round :
    (v : ℕ)
    → IsU32 v
    → of_u32_le (v % 256) (v / 256 % 256) (v / 65536 % 256) (v / 16777216 % 256) ≡ v
u32_round v h = omega arith

pub i32_round : (z : ℤ) → IsI32 z → of_u32 (to_u32 z) ≡ z
i32_round (pos n) h = ground arith
i32_round (negsuc n) h = ground arith

pub to_u32-IsU32 : (z : ℤ) → IsU32 (to_u32 z)
to_u32-IsU32 (pos n) = omega arith
to_u32-IsU32 (negsuc n) = omega arith

pub of_u32-IsI32 : (w : ℕ) → IsU32 w → IsI32 (of_u32 w)
of_u32-IsI32 w h = ground arith

pub u32_le-IsByte : (v : ℕ) → All IsByte (u32_le v)
u32_le-IsByte v = omega arith

pub u16_le-IsByte : (v : ℕ) → All IsByte (u16_le v)
u16_le-IsByte v = omega arith
