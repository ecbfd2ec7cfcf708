-- ===== src/TimeVal/Millis.antt =====
-- `from_millis` of src/proto.rs on the milliseconds of a server's settings.
use snapcast_client.Prelude.{ℕ, ◌*◌, ◌≤◌, ◌≡◌, ◌∙◌, arith, pos, ◌*ℤ◌, int_laws}
use snapcast_client.Outcome.{ok}
use snapcast_client.Word.{Profile, as_i32, as_i32_fits, i32_fits}
use snapcast_client.TimeVal.{TimeVal, from_millis}
use snapcast_client.TimeVal.Micros.{micros, micros_parts}
use snapcast_client.TimeVal.Normalize.{normal, micros-normal, normalize-normal}
use snapcast_client.TimeVal.Arith.{IsShort}

-- The longest time that `from_millis` takes without an overflow.
abbrev pub max_millis : ℕ
max_millis = 2147483

thousandfold : (ms : ℕ) → pos ms *ℤ pos 1000 ≡ pos (ms * 1000)
unfolding ◌*ℤ◌
thousandfold ms = ground arith

pub from_millis-micros :
    (p : Profile) (ms : ℕ)
    → ms ≤ max_millis
    → (tv : TimeVal) × (from_millis p (as_i32 (pos ms)) ≡ ok tv)
      × (micros tv ≡ pos (ms * 1000))
      × IsShort 2148 tv
unfolding from_millis
from_millis-micros p ms h =
    let raw : TimeVal = record { sec = pos 0; usec = pos (ms * 1000) } in
    (
      normal raw,
      rw
          (
            as_i32_fits (pos ms) (omega arith),
            thousandfold ms,
            i32_fits p (pos (ms * 1000)) (omega arith),
          )
          (normalize-normal p raw (omega arith) (omega int_laws)),
      micros-normal raw ∙ (omega (int_laws, micros_parts raw)),
      omega int_laws,
    )
