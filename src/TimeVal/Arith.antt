-- ===== src/TimeVal/Arith.antt =====
-- `add` and `sub` of src/proto.rs on pairs whose second counts stay in range.
use snapcast_client.Prelude.{
  ℕ, ◌+◌, ◌^◌, ◌≤◌, ◌<◌, ◌≡◌, ◌∙◌, arith, ℤ, pos, negsuc, pos_part, neg_part, ◌+ℤ◌, ◌-ℤ◌, int_laws,
  +ℤ_parts, -ℤ_parts, eq_of_parts,
}
use snapcast_client.Outcome.{ok}
use snapcast_client.Word.{Profile, i32_fits}
use snapcast_client.TimeVal.{TimeVal, add, sub}
use snapcast_client.TimeVal.Micros.{micros, micros_parts}
use snapcast_client.TimeVal.Normalize.{carry, rest, normal, micros-normal, normalize-normal}

-- At most `k` seconds and a million microseconds, in both directions.
pub record IsShort (k : ℕ) (tv : TimeVal) : Type 0 where
  pub sec_above : pos_part tv.sec ≤ k
  pub sec_below : neg_part tv.sec ≤ k
  pub usec_above : pos_part tv.usec ≤ 1000000
  pub usec_below : neg_part tv.usec ≤ 1000000

-- The microseconds are not negative.
abbrev pub IsForward : TimeVal → Type 0
IsForward tv = neg_part tv.usec ≡ 0

-- The results of `sub` and `add` where nothing overflows.
unfoldable pub difference : TimeVal → TimeVal → TimeVal
difference a b = normal (record { sec = a.sec -ℤ b.sec; usec = a.usec -ℤ b.usec })

unfoldable pub total : TimeVal → TimeVal → TimeVal
total a b = normal (record { sec = a.sec +ℤ b.sec; usec = a.usec +ℤ b.usec })

-- The loops move up to two seconds of a sum or a difference of such microseconds.
carry_bounds :
    (u : ℤ)
    → pos_part u ≤ 2000000
    → neg_part u ≤ 2000000
    → (pos_part (carry u) ≤ 1) × (neg_part (carry u) ≤ 2)
carry_bounds (pos n) h k = omega arith
carry_bounds (negsuc n) h k = omega arith

rest_bounds : (u : ℤ) → (pos_part (rest u) ≤ 1000000) × (neg_part (rest u) ≡ 0)
rest_bounds (pos n) = omega arith
rest_bounds (negsuc n) = omega arith

module _ (j k : ℕ) (a b : TimeVal) (ha : IsShort j a) (hb : IsShort k b) where
  pub difference-IsShort : IsShort (j + k + 2) (difference a b)
  unfolding difference
  difference-IsShort =
      omega (int_laws, carry_bounds (a.usec -ℤ b.usec), rest_bounds (a.usec -ℤ b.usec))

  pub total-IsShort : IsShort (j + k + 2) (total a b)
  unfolding total
  total-IsShort = omega (int_laws, carry_bounds (a.usec +ℤ b.usec), rest_bounds (a.usec +ℤ b.usec))

  pub sub-difference : (p : Profile) → j + k + 2 < 2 ^ 31 → sub p a b ≡ ok (difference a b)
  unfolding sub difference
  sub-difference p h =
      rw
        (
          i32_fits p (a.sec -ℤ b.sec) (omega int_laws),
          i32_fits p (a.usec -ℤ b.usec) (omega int_laws),
        )
        (normalize-normal p _ (omega int_laws) (omega (int_laws, carry_bounds (a.usec -ℤ b.usec))))

  pub add-total : (p : Profile) → j + k + 2 < 2 ^ 31 → add p a b ≡ ok (total a b)
  unfolding add total
  add-total p h =
      rw
        (
          i32_fits p (a.sec +ℤ b.sec) (omega int_laws),
          i32_fits p (a.usec +ℤ b.usec) (omega int_laws),
        )
        (normalize-normal p _ (omega int_laws) (omega (int_laws, carry_bounds (a.usec +ℤ b.usec))))

pub difference-IsForward : (a b : TimeVal) → IsForward (difference a b)
unfolding difference
difference-IsForward a b = omega (arith, rest_bounds (a.usec -ℤ b.usec))

pub total-IsForward : (a b : TimeVal) → IsForward (total a b)
unfolding total
total-IsForward a b = omega (arith, rest_bounds (a.usec +ℤ b.usec))

pub micros-difference : (a b : TimeVal) → micros (difference a b) ≡ micros a -ℤ micros b
unfolding difference
micros-difference a b =
    micros-normal _
    ∙ eq_of_parts _ _ (
        omega (
          arith,
          micros_parts a,
          micros_parts b,
          micros_parts (record { sec = a.sec -ℤ b.sec; usec = a.usec -ℤ b.usec }),
          -ℤ_parts a.sec b.sec,
          -ℤ_parts a.usec b.usec,
          -ℤ_parts (micros a) (micros b),
        ))

pub micros-total : (a b : TimeVal) → micros (total a b) ≡ micros a +ℤ micros b
unfolding total
micros-total a b =
    micros-normal _
    ∙ eq_of_parts _ _ (
        omega (
          arith,
          micros_parts a,
          micros_parts b,
          micros_parts (record { sec = a.sec +ℤ b.sec; usec = a.usec +ℤ b.usec }),
          +ℤ_parts a.sec b.sec,
          +ℤ_parts a.usec b.usec,
          +ℤ_parts (micros a) (micros b),
        ))
