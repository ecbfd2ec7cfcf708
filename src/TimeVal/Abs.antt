-- ===== src/TimeVal/Abs.antt =====
-- What `abs` and `div` do, against the instants that they should give.
use snapcast_client.Prelude.{
  ℕ, ◌+◌, ◌-◌, ◌*◌, ◌/◌, ◌%◌, ◌^◌, ◌<◌, ◌≡◌, ◌≢◌, ap, arith, pos, negsuc, pos_part, neg_part, ◌+ℤ◌,
  ◌-ℤ◌, int_laws, parts_apart, ◌<ℤ◌,
}
use snapcast_client.Outcome.{ok}
use snapcast_client.Word.{Profile, i32}
use snapcast_client.TimeVal.{TimeVal, abs, abs_i32, div, div_i32}
use snapcast_client.TimeVal.Micros.{micros, micros_parts}

-- `abs` mirrors the microseconds of a pair that is not negative: seconds `s` and microseconds `u`
-- become `s` and 1000000 - `u`, so every instant but those at a whole or a half second is changed.
pub abs_mirrors :
    (p : Profile) (s u : ℕ)
    → s < 2 ^ 31
    → 0 < u
    → u < 1000000
    → (abs p (record { sec = pos s; usec = pos u })
        ≡ ok (record { sec = pos s; usec = pos (1000000 - u) }))
      × (u ≢ 500000
          → micros (record { sec = pos s; usec = pos (1000000 - u) })
            ≢ micros (record { sec = pos s; usec = pos u }))
unfolding abs abs_i32 i32 ◌-ℤ◌
abs_mirrors p s u hs hu h = (
  ground arith,
  λ odd e. odd (
      omega (
        arith,
        ap pos_part e,
        ap neg_part e,
        micros_parts (record { sec = pos s; usec = pos (1000000 - u) }),
        micros_parts (record { sec = pos s; usec = pos u }),
        parts_apart (micros (record { sec = pos s; usec = pos u })),
      )),
)

-- A pair of minus one second and `u` microseconds, which stands for an instant below 0, is mapped
-- to a pair for the same instant: the sign is not dropped.
pub abs_keeps_sign :
    (p : Profile) (u : ℕ)
    → u < 1000000
    → (t : TimeVal) × (abs p (record { sec = negsuc 0; usec = pos u }) ≡ ok t)
      × (micros t ≡ micros (record { sec = negsuc 0; usec = pos u }))
      × (micros t <ℤ pos 0)
unfolding abs i32 ◌-ℤ◌
abs_keeps_sign p u h = (
  record { sec = pos 0; usec = negsuc (999999 - u) },
  ground arith,
  omega (int_laws, before, after),
  omega (int_laws, after),
)
  where
    before :
        pos_part (micros (record { sec = negsuc 0; usec = pos u })) + 1000000
        ≡ neg_part (micros (record { sec = negsuc 0; usec = pos u })) + u
    before = omega (arith, micros_parts (record { sec = negsuc 0; usec = pos u }))

    after :
        pos_part (micros (record { sec = pos 0; usec = negsuc (999999 - u) })) + 1000000
        ≡ neg_part (micros (record { sec = pos 0; usec = negsuc (999999 - u) })) + u
    after = omega (arith, micros_parts (record { sec = pos 0; usec = negsuc (999999 - u) }))

-- Dividing an odd number of seconds by two loses half a second: for a pair with `2 * k + 1` seconds
-- and `u` microseconds, twice the quotient falls short of the pair by a second and the odd
-- microsecond.
pub div_two :
    (k u : ℕ)
    → 2 * k + 1 < 2 ^ 31
    → u < 2 ^ 31
    → (t : TimeVal) × (div (record { sec = pos (2 * k + 1); usec = pos u }) (pos 2) ≡ ok t)
      × (micros t +ℤ micros t +ℤ pos (1000000 + u % 2)
          ≡ micros (record { sec = pos (2 * k + 1); usec = pos u }))
unfolding div div_i32
div_two k u hk hu = (
  record { sec = pos k; usec = pos (u / 2) },
  ground arith,
  omega (
    int_laws,
    micros_parts (record { sec = pos k; usec = pos (u / 2) }),
    micros_parts (record { sec = pos (2 * k + 1); usec = pos u }),
  ),
)
