-- ===== src/Tests/Values.antt =====
-- The theorems on `TimeVal` and on headers at concrete values.
use snapcast_client.Prelude.{
  ◌≡◌, arith, ◌∷◌, take, drop, replicate, true, ◌↔◌, pos, negsuc, ◌+ℤ◌, ◌≤ℤ◌,
}
use snapcast_client.Outcome.{ok, panic}
use snapcast_client.Word.{debug, release}
use snapcast_client.Bytes.{Bytes}
use snapcast_client.TimeVal
use snapcast_client.TimeVal.{TimeVal, leb_tv}
use snapcast_client.TimeVal.Micros.{micros, to_micros-from_micros}
use snapcast_client.TimeVal.Normalize.{
  normalize_instant, normalize_overflow, normalize_whole_seconds,
}
use snapcast_client.TimeVal.Order.{leb_tv-micros}
use snapcast_client.Proto.Base
use snapcast_client.Proto.Base.{max_payload}
use snapcast_client.Proto.Base.Parse.{parsed, try_from-parsed}
use snapcast_client.Proto.Base.RoundTrip.{as_buf_split}
use snapcast_client.Tests.Fixtures.{at, header_of_time}

normalize_instant_example :
    (t : TimeVal) × (TimeVal.normalize release (record { sec = pos 3; usec = negsuc 1500000 })
      ≡ ok t)
    × (micros t ≡ micros (record { sec = pos 3; usec = negsuc 1500000 }))
    × (pos 0 ≤ℤ t.usec)
    × (t.usec ≤ℤ pos 1000000)
normalize_instant_example =
    normalize_instant release (record { sec = pos 3; usec = negsuc 1500000 }) (omega arith)
      (omega arith) (omega arith)

normalize_overflow_example : TimeVal.normalize debug (at 2147483647 1000001) ≡ panic
unfolding ◌+ℤ◌
normalize_overflow_example =
    normalize_overflow (at 2147483647 1000001) (omega arith) (λ h. omega arith)

to_micros-from_micros_example :
    TimeVal.to_micros debug (TimeVal.from_micros (negsuc 1500000)) ≡ ok (negsuc 1500000)
to_micros-from_micros_example = to_micros-from_micros debug (negsuc 1500000) (omega arith)

leb_tv-micros_example : (leb_tv (at 1 5) (at 2 3) ≡ true) ↔ (micros (at 1 5) ≤ℤ micros (at 2 3))
leb_tv-micros_example = leb_tv-micros (at 1 5) (at 2 3) (omega arith) (omega arith)

try_from-parsed_example : Base.try_from (4 ∷ 0 ∷ replicate 24 0) ≡ parsed (4 ∷ 0 ∷ replicate 24 0)
try_from-parsed_example = try_from-parsed (4 ∷ 0 ∷ replicate 24 0)

as_buf_split_example :
    (buf : Bytes) × (Base.as_buf header_of_time (replicate 8 0) ≡ ok buf)
    × (Base.try_from (take 26 buf) ≡ ok header_of_time)
    × (drop 26 buf ≡ replicate 8 0)
as_buf_split_example = as_buf_split header_of_time (replicate 8 0) (record {
  id_fits = omega arith;
  refers_to_fits = omega arith;
  sent_fits = omega arith;
  received_fits = omega arith;
  size_fits = omega arith;
})

normalize_whole_seconds_example :
    TimeVal.normalize debug (record { sec = negsuc 0; usec = pos 2000000 })
    ≡ ok (record { sec = pos 0; usec = pos 1000000 })
unfolding ◌+ℤ◌
normalize_whole_seconds_example =
    normalize_whole_seconds debug (negsuc 0) 1 (omega arith) (omega arith) (omega arith)
