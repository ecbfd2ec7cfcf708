-- ===== src/TimeVal/Canonical.antt =====
-- Pairs with less than a million microseconds: one for each instant.
use snapcast_client.Prelude.{
  ℕ, ◌+◌, ◌*◌, ◌^◌, ◌≤◌, ◌<◌, ◌≡◌, ap, ◌∙◌, arith, ℤ, pos, negsuc, pos_part, neg_part, int_laws,
  rem_trunc,
}
use snapcast_client.Outcome.{ok}
use snapcast_client.Word.{Profile}
use snapcast_client.TimeVal.{TimeVal, normalize, from_micros}
use snapcast_client.TimeVal.Micros.{
  IsMicros, micros, micros_parts, from_micros-eq, div_trunc_parts, rem_trunc_parts,
  from_micros-IsTimeVal, micros-from_micros,
}
use snapcast_client.TimeVal.Normalize.{carry, rest, normal, micros-normal, normalize-normal}
use snapcast_client.TimeVal.Arith.{IsShort}

abbrev pub IsCanonical : TimeVal → Type 0
IsCanonical tv = (neg_part tv.usec ≡ 0) × (pos_part tv.usec < 1000000)

pub canonical_unique : (a b : TimeVal) → IsCanonical a → IsCanonical b → micros a ≡ micros b → a ≡ b
canonical_unique a b ha hb e = λ i. record { sec = secs i; usec = usecs i }
  where
    secs : a.sec ≡ b.sec
    secs = omega (int_laws, micros_parts a, micros_parts b, ap pos_part e, ap neg_part e)

    usecs : a.usec ≡ b.usec
    usecs = omega (int_laws, micros_parts a, micros_parts b, ap pos_part e, ap neg_part e)

-- Less than `k` + 1 seconds, in both directions.
abbrev pub IsWithin : ℕ → ℤ → Type 0
IsWithin k us = (pos_part us < (k + 1) * 1000000) × (neg_part us < (k + 1) * 1000000)

pub from_micros-IsShort : (k : ℕ) (us : ℤ) → k < 2 ^ 31 → IsWithin k us → IsShort k (from_micros us)
from_micros-IsShort k us hk h =
    rw (from_micros-eq us (omega arith)) (omega (arith, div_trunc_parts us, rem_trunc_parts us))

-- The seconds and microseconds of a count of microseconds, rounded down.
pub floor_micros : ℤ → TimeVal
floor_micros us = normal (from_micros us)

rest_small :
    (u : ℤ)
    → pos_part u < 1000000
    → neg_part u < 1000000
    → (neg_part (rest u) ≡ 0) × (pos_part (rest u) < 1000000)
rest_small (pos n) h k = omega arith
rest_small (negsuc n) h k = omega arith

pub floor_micros-IsCanonical : (us : ℤ) → IsMicros us → IsCanonical (floor_micros us)
unfolding floor_micros
floor_micros-IsCanonical us h =
    rw (from_micros-eq us h) (omega (arith, rem_trunc_parts us, rest_small (rem_trunc us 1000000)))

pub micros-floor_micros : (us : ℤ) → IsMicros us → micros (floor_micros us) ≡ us
unfolding floor_micros
micros-floor_micros us h = micros-normal (from_micros us) ∙ micros-from_micros us h

carry_small :
    (u : ℤ)
    → pos_part u < 1000000
    → neg_part u < 1000000
    → (pos_part (carry u) ≡ 0) × (neg_part (carry u) ≤ 1)
carry_small (pos n) h k = omega arith
carry_small (negsuc n) h k = omega arith

pub floor_micros-IsShort :
    (k : ℕ) (us : ℤ) → k < 2 ^ 31 → IsWithin k us → IsShort (k + 1) (floor_micros us)
unfolding floor_micros
floor_micros-IsShort k us hk h = rw (from_micros-eq us (omega arith)) (
    omega (
      int_laws,
      div_trunc_parts us,
      rem_trunc_parts us,
      rest_small (rem_trunc us 1000000),
      carry_small (rem_trunc us 1000000),
    ))

-- In both builds `TimeVal::from_micros(us).normalize()` is the pair of whole seconds, rounded down,
-- and the microseconds above them, for every count of less than 2 ^ 31 - 1 seconds.
pub normalize-from_micros :
    (p : Profile) (us : ℤ)
    → IsWithin 2147483646 us
    → (normalize p (from_micros us) ≡ ok (floor_micros us))
      × IsCanonical (floor_micros us)
      × (micros (floor_micros us) ≡ us)
unfolding floor_micros
normalize-from_micros p us h =
    let short = floor_micros-IsShort 2147483646 us (omega arith) h in
    (
      normalize-normal p (from_micros us) (from_micros-IsTimeVal us)
          (omega (arith, short.sec_above, short.sec_below)),
      floor_micros-IsCanonical us (omega arith),
      micros-floor_micros us (omega arith),
    )
