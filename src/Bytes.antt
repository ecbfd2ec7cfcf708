-- ===== src/Bytes.antt =====
-- Byte buffers: the integers in them (`from_le_bytes`, `to_le_bytes` and the `slice_to_*` helpers of
-- src/proto.rs), and Rust's slices, whose bounds checks panic.
pub mod Words
pub mod Slices
pub mod Counted
use snapcast_client.Prelude.{
  ℕ, ◌+◌, ◌-◌, ◌*◌, ◌/◌, ◌%◌, ◌^◌, ◌<◌, Bool, ◌&&◌, List, [], ◌∷◌, ◌++◌, leb, ◌==◌, if◌then◌else◌,
  ℤ, length, take, drop, get_elem?, none, some,
}
use snapcast_client.Outcome.{Outcome, ok, panic, ◌>>=◌, ◌>>◌, assert}
use snapcast_client.Word.{to_u32, of_u32}

abbrev pub Bytes : Type 0
Bytes = List ℕ

abbrev pub IsByte : ℕ → Type 0
IsByte b = b < 256

-- `u16::to_le_bytes`, `u32::to_le_bytes` and `i32::to_le_bytes`.
abbrev pub u16_le : ℕ → Bytes
u16_le v = (v % 256) ∷ (v / 256 % 256) ∷ []

abbrev pub u32_le : ℕ → Bytes
u32_le v = (v % 256) ∷ (v / 256 % 256) ∷ (v / 65536 % 256) ∷ (v / 16777216 % 256) ∷ []

abbrev pub i32_le : ℤ → Bytes
i32_le z = u32_le (to_u32 z)

-- `u16::from_le_bytes`, `u32::from_le_bytes` and `u32::from_be_bytes`.
abbrev pub of_u16_le : ℕ → ℕ → ℕ
of_u16_le a b = a + 256 * b

abbrev pub of_u32_le : ℕ → ℕ → ℕ → ℕ → ℕ
of_u32_le a b c d = a + 256 * b + 65536 * c + 16777216 * d

-- Each helper indexes its slice from 0 on, so a slice that is too short panics.
unfoldable pub slice_to_u16 : Bytes → Outcome ℕ
slice_to_u16 [] = panic
slice_to_u16 (a ∷ []) = panic
slice_to_u16 (a ∷ b ∷ _) = ok (of_u16_le a b)

unfoldable pub slice_to_u32 : Bytes → Outcome ℕ
slice_to_u32 [] = panic
slice_to_u32 (a ∷ []) = panic
slice_to_u32 (a ∷ b ∷ []) = panic
slice_to_u32 (a ∷ b ∷ c ∷ []) = panic
slice_to_u32 (a ∷ b ∷ c ∷ d ∷ _) = ok (of_u32_le a b c d)

unfoldable pub slice_to_u32be : Bytes → Outcome ℕ
slice_to_u32be [] = panic
slice_to_u32be (a ∷ []) = panic
slice_to_u32be (a ∷ b ∷ []) = panic
slice_to_u32be (a ∷ b ∷ c ∷ []) = panic
slice_to_u32be (a ∷ b ∷ c ∷ d ∷ _) = ok (of_u32_le d c b a)

unfoldable pub slice_to_i32 : Bytes → Outcome ℤ
unfolding slice_to_u32
slice_to_i32 s = do w ← slice_to_u32 s; ok (of_u32 w)

-- `buf[lo..hi]`
unfoldable pub slice : ℕ → ℕ → Bytes → Outcome Bytes
slice lo hi buf = do assert (leb lo hi && leb hi (length buf)); ok (take (hi - lo) (drop lo buf))

-- `buf[lo..hi].copy_from_slice(src)`
unfoldable pub copy_at : ℕ → ℕ → Bytes → Bytes → Outcome Bytes
copy_at lo hi src buf = do
  assert (leb lo hi && leb hi (length buf) && (length src == hi - lo))
  ok (take lo buf ++ (src ++ drop hi buf))
