-- ===== src/Bytes/Slices.antt =====
-- Slices that are in bounds: what they hold, and what the integers at a position are.
use snapcast_client.Prelude.{
  ℕ, zero, suc, ◌+◌, ◌-◌, ◌≤◌, ◌<◌, ◌≡◌, refl, ap, ◌∙◌, List, [], ◌∷◌, ◌++◌, arith, length, take,
  drop, get_or, length-take, length-drop, length-append, take-append, drop-append, le→leb, eq→==,
}
use snapcast_client.Outcome.{ok, panic, ◌>>=◌}
use snapcast_client.Word.{of_u32}
use snapcast_client.Bytes.{
  Bytes, of_u16_le, of_u32_le, slice, copy_at, slice_to_u16, slice_to_u32, slice_to_i32,
}

pub slice_fits :
    (lo hi : ℕ) (buf : Bytes)
    → lo ≤ hi
    → hi ≤ length buf
    → slice lo hi buf ≡ ok (take (hi - lo) (drop lo buf))
unfolding slice
slice_fits lo hi buf p q = rw (le→leb lo hi p, le→leb hi (length buf) q)

pub slice_panics : (lo hi : ℕ) (buf : Bytes) → length buf < hi → slice lo hi buf ≡ panic
unfolding slice
slice_panics lo hi buf p = ground arith

pub drop-drop {ℓ} : {A : Type ℓ} (m n : ℕ) (xs : List A) → drop m (drop n xs) ≡ drop (n + m) xs
drop-drop m zero xs = ap (λ k. drop k xs) (let e : m ≡ 0 + m = omega arith in e)
drop-drop zero (suc n) [] = ap (λ k. drop k []) (let e : suc n ≡ suc n + 0 = omega arith in e)
drop-drop (suc m) (suc n) [] =
    ap (λ k. drop k []) (let e : suc (n + suc m) ≡ suc n + suc m = omega arith in e)
drop-drop m (suc n) (x ∷ xs) =
    drop-drop m n xs
    ∙ ap (λ k. drop k (x ∷ xs)) (let e : suc (n + m) ≡ suc n + m = omega arith in e)

pub get_or-drop {ℓ} :
    {A : Type ℓ} (n i : ℕ) (xs : List A) (d : A) → get_or (drop n xs) i d ≡ get_or xs (n + i) d
get_or-drop zero i xs d = ap (λ k. get_or xs k d) (let e : i ≡ 0 + i = omega arith in e)
get_or-drop (suc n) i [] d = refl
get_or-drop (suc n) i (x ∷ xs) d =
    get_or-drop n i xs d
    ∙ ap (λ k. get_or (x ∷ xs) k d) (let e : suc (n + i) ≡ suc n + i = omega arith in e)

-- The integer that starts at an offset of a buffer, little-endian; a byte past the end counts as 0.
abbrev pub u16_at : ℕ → Bytes → ℕ
u16_at i buf = of_u16_le (get_or buf i 0) (get_or buf (i + 1) 0)

abbrev pub u32_at : ℕ → Bytes → ℕ
u32_at i buf =
    of_u32_le (get_or buf i 0) (get_or buf (i + 1) 0) (get_or buf (i + 2) 0) (get_or buf (i + 3) 0)

get_or-take {ℓ} :
    {A : Type ℓ} (n i : ℕ) (xs : List A) (d : A) → i < n → get_or (take n xs) i d ≡ get_or xs i d
get_or-take zero i xs d h = absurd (omega arith)
get_or-take (suc n) i [] d h = refl
get_or-take (suc n) zero (x ∷ xs) d h = refl
get_or-take (suc n) (suc i) (x ∷ xs) d h = get_or-take n i xs d (omega arith)

-- The item of a window of a list.
pub get_or-window {ℓ} :
    {A : Type ℓ} (lo n i : ℕ) (xs : List A) (d : A)
    → i < n
    → get_or (take n (drop lo xs)) i d ≡ get_or xs (lo + i) d
get_or-window lo n i xs d h = get_or-take n i (drop lo xs) d h ∙ get_or-drop lo i xs d

pub length-window {ℓ} :
    {A : Type ℓ} (lo n : ℕ) (xs : List A) → lo + n ≤ length xs → length (take n (drop lo xs)) ≡ n
length-window lo n xs h = omega (arith, length-take n (drop lo xs), length-drop lo xs)

slice_to_u16_fits : (s : Bytes) → 2 ≤ length s → slice_to_u16 s ≡ ok (u16_at 0 s)
unfolding slice_to_u16
slice_to_u16_fits [] h = absurd (omega arith)
slice_to_u16_fits (a ∷ []) h = absurd (omega arith)
slice_to_u16_fits (a ∷ b ∷ s) h = refl

pub slice_to_u32_fits : (s : Bytes) → 4 ≤ length s → slice_to_u32 s ≡ ok (u32_at 0 s)
unfolding slice_to_u32
slice_to_u32_fits [] h = absurd (omega arith)
slice_to_u32_fits (a ∷ []) h = absurd (omega arith)
slice_to_u32_fits (a ∷ b ∷ []) h = absurd (omega arith)
slice_to_u32_fits (a ∷ b ∷ c ∷ []) h = absurd (omega arith)
slice_to_u32_fits (a ∷ b ∷ c ∷ d ∷ s) h = refl

u16_at-window : (lo n : ℕ) (buf : Bytes) → 2 ≤ n → u16_at 0 (take n (drop lo buf)) ≡ u16_at lo buf
u16_at-window lo n buf h = omega (
  arith,
  get_or-window lo n 0 buf 0,
  get_or-window lo n 1 buf 0,
  ap (λ k. get_or buf k 0) (let e : lo + 0 ≡ lo = omega arith in e),
)

u32_at-window : (lo n : ℕ) (buf : Bytes) → 4 ≤ n → u32_at 0 (take n (drop lo buf)) ≡ u32_at lo buf
u32_at-window lo n buf h = omega (
  arith,
  get_or-window lo n 0 buf 0,
  get_or-window lo n 1 buf 0,
  get_or-window lo n 2 buf 0,
  get_or-window lo n 3 buf 0,
  ap (λ k. get_or buf k 0) (let e : lo + 0 ≡ lo = omega arith in e),
)

module _ (lo hi : ℕ) (buf : Bytes) (fits : hi ≤ length buf) where
  -- The integer in a slice that is in bounds is the one at the slice's start.
  pub u16_slice : lo + 2 ≤ hi → (slice lo hi buf >>= slice_to_u16) ≡ ok (u16_at lo buf)
  u16_slice h = rw (slice_fits lo hi buf (omega arith) fits) (
      slice_to_u16_fits _ (omega (arith, length-window lo (hi - lo) buf))
      ∙ ap ok (u16_at-window lo (hi - lo) buf (omega arith)))

  pub u32_slice : lo + 4 ≤ hi → (slice lo hi buf >>= slice_to_u32) ≡ ok (u32_at lo buf)
  u32_slice h = rw (slice_fits lo hi buf (omega arith) fits) (
      slice_to_u32_fits _ (omega (arith, length-window lo (hi - lo) buf))
      ∙ ap ok (u32_at-window lo (hi - lo) buf (omega arith)))

  pub i32_slice : lo + 4 ≤ hi → (slice lo hi buf >>= slice_to_i32) ≡ ok (of_u32 (u32_at lo buf))
  unfolding slice_to_i32
  i32_slice h =
      rw
        (
          slice_fits lo hi buf (omega arith) fits,
          slice_to_u32_fits (take (hi - lo) (drop lo buf))
              (omega (arith, length-window lo (hi - lo) buf)),
        )
        (ap (λ w. ok (of_u32 w)) (u32_at-window lo (hi - lo) buf (omega arith)))

-- Writing just behind a prefix replaces as many bytes as are written.
pub copy_next :
    (pre src out : Bytes)
    → length src ≤ length out
    → copy_at (length pre) (length pre + length src) src (pre ++ out)
      ≡ ok (pre ++ (src ++ drop (length src) out))
unfolding copy_at
copy_next pre src out h = rw (
  le→leb (length pre) (length pre + length src) (omega arith),
  le→leb (length pre + length src) (length (pre ++ out)) (omega (arith, length-append pre out)),
  eq→== (length src) (length pre + length src - length pre) (omega arith),
  take-append pre out,
  ← drop-drop (length src) (length pre) (pre ++ out),
  drop-append pre out,
)
