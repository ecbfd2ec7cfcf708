-- ===== src/TimeVal/Normalize.antt =====
-- `normalize` against a closed form: which value its two loops compute, and when they overflow.
use snapcast_client.Prelude.{
  ℕ, zero, suc, ◌+◌, ◌-◌, ◌*◌, ◌/◌, ◌%◌, ◌^◌, ◌≤◌, ◌<◌, ◌≡◌, ◌∙◌, arith, lt→ltb, ℤ, pos, negsuc,
  pos_part, neg_part, ◌+ℤ◌, ◌-ℤ◌, +ℤ_parts, int_laws, ◌≤ℤ◌, eq_of_parts,
}
use snapcast_client.Outcome.{ok, panic, ◌>>=◌}
use snapcast_client.Word.{Profile, debug, IsI32, i32, i32_fits, i32_overflows, IsI32-dec}
use mathlib.Core.Path.{ap₂}
use native.Mathlib.Decide.{dec_lt}
use snapcast_client.TimeVal.{TimeVal, carry_up, borrow_down, normalize, normalize_fuel}
use snapcast_client.TimeVal.Micros.{IsTimeVal, micros, micros_parts}

-- How many seconds the loops move out of a count of microseconds, and what they leave.
abbrev pub carry : ℤ → ℤ
carry (pos n) = pos ((n - 1) / 1000000)
carry (negsuc n) = negsuc (n / 1000000)

abbrev pub rest : ℤ → ℤ
rest (pos n) = pos (n - (n - 1) / 1000000 * 1000000)
rest (negsuc n) = pos (999999 - n % 1000000)

abbrev pub normal : TimeVal → TimeVal
normal tv = record { sec = tv.sec +ℤ carry tv.usec; usec = rest tv.usec }

pub micros-normal : (tv : TimeVal) → micros (normal tv) ≡ micros tv
micros-normal tv = eq_of_parts (micros (normal tv)) (micros tv) (
    omega (
      arith,
      micros_parts tv,
      micros_parts (normal tv),
      +ℤ_parts tv.sec (carry tv.usec),
      moved tv.usec,
    ))
  where
    moved :
        (u : ℤ)
        → pos_part (carry u) * 1000000 + pos_part (rest u) + neg_part u
          ≡ neg_part (carry u) * 1000000 + neg_part (rest u) + pos_part u
    moved (pos n) = omega arith
    moved (negsuc n) = omega arith

carry_up_stop :
    (p : Profile) (f : ℕ) (s : ℤ) (n : ℕ)
    → n ≤ 1000000
    → carry_up p (suc f) (record { sec = s; usec = pos n }) ≡ ok (record { sec = s; usec = pos n })
unfolding carry_up
carry_up_stop p f s n h = ground arith

carry_up_step :
    (p : Profile) (f : ℕ) (s : ℤ) (n : ℕ)
    → 1000000 < n
    → n < 2 ^ 31
    → carry_up p (suc f) (record { sec = s; usec = pos n }) ≡ (
        i32 p (s +ℤ pos 1) >>= λ sec. carry_up p f (record { sec = sec; usec = pos (n - 1000000) }))
unfolding carry_up
carry_up_step p f s n h hn = rw (
  carry_up,
  lt→ltb (1000000 + 0) (n + 0) (omega arith),
  less,
  i32_fits p (pos (n - 1000000)) (omega arith),
)
  where
    less : pos n -ℤ pos 1000000 ≡ pos (n - 1000000)
    less = omega int_laws

module _ (p : Profile) where
  carry_up_lem :
      (f : ℕ) (s : ℤ) (n : ℕ)
      → IsI32 s
      → n < 2 ^ 31
      → (n - 1) / 1000000 < f
      → IsI32 (s +ℤ carry (pos n))
      → carry_up p f (record { sec = s; usec = pos n })
        ≡ ok (normal (record { sec = s; usec = pos n }))
  carry_up_lem zero s n hs hn hf hc = absurd (omega arith)
  carry_up_lem (suc f) s n hs hn hf hc = elim (dec_lt 1000000 n) [
    | yes more ↦
        carry_up_step p f s n more hn
        ∙ rw (i32_fits p (s +ℤ pos 1) (omega int_laws)) (
            carry_up_lem f (s +ℤ pos 1) (n - 1000000) (omega int_laws) (omega arith) (omega arith)
              (omega int_laws)
            ∙ ap₂ (λ a b. ok (record { sec = a; usec = pos b })) (omega int_laws) (omega arith))
    | no done ↦
        carry_up_stop p f s n (omega arith)
        ∙ ap₂ (λ a b. ok (record { sec = a; usec = pos b })) (omega int_laws) (omega arith)
  ]

carry_up_panics :
    (f : ℕ) (s : ℤ) (n : ℕ)
    → IsI32 s
    → n < 2 ^ 31
    → (n - 1) / 1000000 < f
    → ¬ IsI32 (s +ℤ carry (pos n))
    → carry_up debug f (record { sec = s; usec = pos n }) ≡ panic
carry_up_panics zero s n hs hn hf hc = absurd (omega arith)
carry_up_panics (suc f) s n hs hn hf hc = elim (dec_lt 1000000 n) [
  | yes more ↦ carry_up_step debug f s n more hn ∙ elim (IsI32-dec (s +ℤ pos 1)) [
    | yes fits ↦ rw (i32_fits debug (s +ℤ pos 1) fits) (
        carry_up_panics f (s +ℤ pos 1) (n - 1000000) fits (omega arith) (omega arith)
          (λ h. hc (omega int_laws)))
    | no over ↦ rw (i32_overflows (s +ℤ pos 1) over)
  ]
  | no done ↦ absurd (hc (omega int_laws))
]

borrow_down_stop :
    (p : Profile) (f : ℕ) (s : ℤ) (n : ℕ)
    → borrow_down p (suc f) (record { sec = s; usec = pos n })
      ≡ ok (record { sec = s; usec = pos n })
unfolding borrow_down
borrow_down_stop p f s n = ground arith

borrow_down_step :
    (p : Profile) (f : ℕ) (s : ℤ) (n : ℕ)
    → n < 2 ^ 31
    → borrow_down p (suc f) (record { sec = s; usec = negsuc n }) ≡ (
        i32 p (s -ℤ pos 1) >>= λ sec.
        borrow_down p f (record { sec = sec; usec = negsuc n +ℤ pos 1000000 }))
unfolding borrow_down
borrow_down_step p f s n hn = rw (
  borrow_down,
  lt→ltb (0 + 0) (0 + suc n) (omega arith),
  i32_fits p (negsuc n +ℤ pos 1000000) (omega int_laws),
)

-- One second up from `negsuc n`: still below zero, or done.
up_more : (n : ℕ) → 1000000 ≤ n → negsuc n +ℤ pos 1000000 ≡ negsuc (n - 1000000)
up_more n h = omega int_laws

up_last : (n : ℕ) → n < 1000000 → negsuc n +ℤ pos 1000000 ≡ pos (999999 - n)
up_last n h = omega int_laws

module _ (p : Profile) where
  borrow_down_lem :
      (f : ℕ) (s : ℤ) (n : ℕ)
      → IsI32 s
      → n < 2 ^ 31
      → n / 1000000 + 1 < f
      → IsI32 (s +ℤ carry (negsuc n))
      → borrow_down p f (record { sec = s; usec = negsuc n })
        ≡ ok (normal (record { sec = s; usec = negsuc n }))
  borrow_down_lem zero s n hs hn hf hc = absurd (omega arith)
  borrow_down_lem (suc zero) s n hs hn hf hc = absurd (omega arith)
  borrow_down_lem (suc (suc f)) s n hs hn hf hc =
      borrow_down_step p (suc f) s n hn
      ∙ rw (i32_fits p (s -ℤ pos 1) (omega int_laws)) (elim (dec_lt n 1000000) [
        | yes last ↦ rw (up_last n last) (
            borrow_down_stop p f (s -ℤ pos 1) (999999 - n)
            ∙ ap₂ (λ a b. ok (record { sec = a; usec = pos b })) (omega int_laws) (omega arith))
        | no more ↦ rw (up_more n (omega arith)) (
            borrow_down_lem (suc f) (s -ℤ pos 1) (n - 1000000) (omega int_laws) (omega arith)
              (omega arith) (omega int_laws)
            ∙ ap₂ (λ a b. ok (record { sec = a; usec = pos b })) (omega int_laws) (omega arith))
      ])

borrow_down_panics :
    (f : ℕ) (s : ℤ) (n : ℕ)
    → IsI32 s
    → n < 2 ^ 31
    → n / 1000000 + 1 < f
    → ¬ IsI32 (s +ℤ carry (negsuc n))
    → borrow_down debug f (record { sec = s; usec = negsuc n }) ≡ panic
borrow_down_panics zero s n hs hn hf hc = absurd (omega arith)
borrow_down_panics (suc f) s n hs hn hf hc =
    borrow_down_step debug f s n hn ∙ elim (IsI32-dec (s -ℤ pos 1)) [
      | yes fits ↦ rw (i32_fits debug (s -ℤ pos 1) fits) (elim (dec_lt n 1000000) [
        | yes last ↦ absurd (hc (omega int_laws))
        | no more ↦ rw (up_more n (omega arith)) (
            borrow_down_panics f (s -ℤ pos 1) (n - 1000000) fits (omega arith) (omega arith)
              (λ h. hc (omega int_laws)))
      ])
      | no over ↦ rw (i32_overflows (s -ℤ pos 1) over)
    ]

carry_up_skip :
    (p : Profile) (f : ℕ) (s : ℤ) (n : ℕ)
    → carry_up p (suc f) (record { sec = s; usec = negsuc n })
      ≡ ok (record { sec = s; usec = negsuc n })
unfolding carry_up
carry_up_skip p f s n = ground arith

normalize_pair :
    (p : Profile) (s u : ℤ)
    → IsI32 s
    → IsI32 u
    → IsI32 (s +ℤ carry u)
    → normalize p (record { sec = s; usec = u }) ≡ ok (normal (record { sec = s; usec = u }))
unfolding normalize
normalize_pair p s (pos n) hs hu hc = rw (
  carry_up_lem p normalize_fuel s n hs hu.0 (omega arith) hc,
  borrow_down_stop p 2148 (s +ℤ carry (pos n)) (n - (n - 1) / 1000000 * 1000000),
)
normalize_pair p s (negsuc n) hs hu hc = rw (
  carry_up_skip p 2148 s n,
  borrow_down_lem p normalize_fuel s n hs (omega arith) (omega arith) hc,
)

normalize_pair_panics :
    (s u : ℤ)
    → IsI32 s
    → IsI32 u
    → ¬ IsI32 (s +ℤ carry u)
    → normalize debug (record { sec = s; usec = u }) ≡ panic
unfolding normalize
normalize_pair_panics s (pos n) hs hu hc =
    rw (carry_up_panics normalize_fuel s n hs hu.0 (omega arith) hc)
normalize_pair_panics s (negsuc n) hs hu hc = rw (
  carry_up_skip debug 2148 s n,
  borrow_down_panics normalize_fuel s n hs (omega arith) (omega arith) hc,
)

-- In both builds, `normalize` gives the closed form `normal` for every `i32` pair whose normalized
-- second count fits an `i32`; so it ends within its fuel.
pub normalize-normal :
    (p : Profile) (tv : TimeVal)
    → IsTimeVal tv
    → IsI32 (normal tv).sec
    → normalize p tv ≡ ok (normal tv)
normalize-normal p tv h fits = normalize_pair p tv.sec tv.usec h.0 h.1 fits

-- With overflow checks, `normalize` panics on every `i32` pair whose normalized second count does
-- not fit an `i32`.
pub normalize_overflow :
    (tv : TimeVal) → IsTimeVal tv → ¬ IsI32 (normal tv).sec → normalize debug tv ≡ panic
normalize_overflow tv h over = normalize_pair_panics tv.sec tv.usec h.0 h.1 over

-- The normalized pair stands for the same instant, and its microseconds are from 0 to 1000000: the
-- upper end is attained, since the first loop stops at it.
pub normal_bounds :
    (tv : TimeVal)
    → (micros (normal tv) ≡ micros tv)
      × (pos 0 ≤ℤ (normal tv).usec)
      × ((normal tv).usec ≤ℤ pos 1000000)
normal_bounds tv = (micros-normal tv, low tv.usec, high tv.usec)
  where
    low : (u : ℤ) → pos 0 ≤ℤ rest u
    low (pos n) = omega arith
    low (negsuc n) = omega arith

    high : (u : ℤ) → rest u ≤ℤ pos 1000000
    high (pos n) = omega arith
    high (negsuc n) = omega arith

-- In both builds, `normalize` ends and gives a pair for the same instant with microseconds from 0 to
-- 1000000, for every `i32` pair that is 2148 seconds away from the ends of the range of `i32`.
pub normalize_instant :
    (p : Profile) (tv : TimeVal)
    → IsTimeVal tv
    → pos_part tv.sec + 2148 < 2 ^ 31
    → neg_part tv.sec + 2148 ≤ 2 ^ 31
    → (t : TimeVal) × (normalize p tv ≡ ok t)
      × (micros t ≡ micros tv)
      × (pos 0 ≤ℤ t.usec)
      × (t.usec ≤ℤ pos 1000000)
normalize_instant p tv h above below =
    let (same, low, high) = normal_bounds tv in
    (normal tv, normalize-normal p tv h (omega (int_laws, small tv.usec h.1)), same, low, high)
  where
    small : (u : ℤ) → IsI32 u → (pos_part (carry u) ≤ 2148) × (neg_part (carry u) ≤ 2148)
    small (pos n) hu = omega arith
    small (negsuc n) hu = omega arith

-- A pair with a whole, positive number of seconds in its microseconds keeps one of them there: the
-- normalized microseconds are 1000000, not 0.
pub normalize_whole_seconds :
    (p : Profile) (s : ℤ) (k : ℕ)
    → IsI32 s
    → IsI32 (s +ℤ pos k)
    → k < 2147
    → normalize p (record { sec = s; usec = pos (1000000 * (k + 1)) })
      ≡ ok (record { sec = s +ℤ pos k; usec = pos 1000000 })
normalize_whole_seconds p s k hs hk small =
    normalize_pair p s (pos (1000000 * (k + 1))) hs (omega arith) (rw whole hk)
    ∙ ap₂ (λ a b. ok (record { sec = s +ℤ pos a; usec = pos b })) whole (omega arith)
  where
    whole : (1000000 * (k + 1) - 1) / 1000000 ≡ k
    whole = omega arith
