-- ===== src/TimeVal.antt =====
-- `TimeVal` of src/proto.rs: seconds and microseconds, each an `i32`.
pub mod Micros
pub mod Normalize
pub mod Arith
pub mod Order
pub mod Millis
pub mod Abs
pub mod Wire
pub mod Canonical
use snapcast_client.Prelude.{
  ℕ, zero, suc, ◌+◌, ◌-◌, ◌*◌, ◌/◌, ◌%◌, ◌^◌, Bool, true, false, ◌||◌, ◌&&◌, ◌++◌, if◌then◌else◌,
  ltb, leb, ◌==◌, ℤ, pos, negsuc, ◌+ℤ◌, ◌-ℤ◌, ◌*ℤ◌, sub_ℕ, pos_part, neg_part, div_trunc, rem_trunc,
  ltb_ℤ, eqb_ℤ,
}
use snapcast_client.Outcome.{Outcome, Error, ok, err, panic, stuck, ◌>>=◌, ◌>>◌}
use snapcast_client.Word.{Profile, i32, i64, as_i32, to_u32}
use snapcast_client.Bytes.{Bytes, i32_le, slice, copy_at, slice_to_i32}

pub record TimeVal : Type 0 where
  pub sec : ℤ
  pub usec : ℤ

abbrev pub tv_zero : TimeVal
tv_zero = record { sec = pos 0; usec = pos 0 }

-- `derive(PartialOrd, Ord)`: the fields are compared in their order.
abbrev pub leb_tv : TimeVal → TimeVal → Bool
leb_tv a b =
    ltb_ℤ a.sec b.sec || (eqb_ℤ a.sec b.sec && (ltb_ℤ a.usec b.usec || eqb_ℤ a.usec b.usec))

unfoldable pub write : TimeVal → Bytes → Outcome Bytes
unfolding copy_at
write tv buf = do buf' ← copy_at 0 4 (i32_le tv.sec) buf; copy_at 4 8 (i32_le tv.usec) buf'

unfoldable pub from_micros : ℤ → TimeVal
from_micros us = record {
  sec = as_i32 (div_trunc us 1000000);
  usec = as_i32 (rem_trunc us 1000000);
}

unfoldable pub to_micros : Profile → TimeVal → Outcome ℤ
to_micros p tv = do us ← i64 p (tv.sec *ℤ pos 1000000); i64 p (us +ℤ tv.usec)

unfoldable pub as_buf : TimeVal → Bytes
as_buf tv = i32_le tv.sec ++ i32_le tv.usec

-- `i32::abs`
unfoldable pub abs_i32 : Profile → ℤ → Outcome ℤ
unfolding i32
abs_i32 p z = i32 p (pos (pos_part z + neg_part z))

unfoldable pub abs : Profile → TimeVal → Outcome TimeVal
unfolding abs_i32
abs p tv =
    if eqb_ℤ tv.sec (negsuc 0)
    then (do usec ← i32 p (tv.usec -ℤ pos 1000000); ok (record { sec = pos 0; usec = usec }))
    else (do
      sec ← abs_i32 p tv.sec
      usec ← if ltb_ℤ (pos 0) tv.usec then i32 p (pos 1000000 -ℤ tv.usec) else abs_i32 p tv.usec
      ok (record { sec = sec; usec = usec }))

-- The first `while` loop of `normalize`, on fuel.
pub carry_up : Profile → ℕ → TimeVal → Outcome TimeVal
carry_up p zero tv = stuck
carry_up p (suc fuel) tv = elim (ltb_ℤ (pos 1000000) tv.usec) [
  | true ↦ do
    usec ← i32 p (tv.usec -ℤ pos 1000000)
    sec ← i32 p (tv.sec +ℤ pos 1)
    carry_up p fuel (record { sec = sec; usec = usec })
  | false ↦ ok tv
]

-- The second `while` loop of `normalize`, on fuel.
pub borrow_down : Profile → ℕ → TimeVal → Outcome TimeVal
borrow_down p zero tv = stuck
borrow_down p (suc fuel) tv = elim (ltb_ℤ tv.usec (pos 0)) [
  | true ↦ do
    usec ← i32 p (tv.usec +ℤ pos 1000000)
    sec ← i32 p (tv.sec -ℤ pos 1)
    borrow_down p fuel (record { sec = sec; usec = usec })
  | false ↦ ok tv
]

-- An `i32` count of microseconds is less than 2148 seconds away from 0, so each loop tests at most
-- 2149 times.
abbrev pub normalize_fuel : ℕ
normalize_fuel = 2149

unfoldable pub normalize : Profile → TimeVal → Outcome TimeVal
normalize p tv = do tv' ← carry_up p normalize_fuel tv; borrow_down p normalize_fuel tv'

unfoldable pub from_millis : Profile → ℤ → Outcome TimeVal
from_millis p millis = do
  usec ← i32 p (millis *ℤ pos 1000)
  normalize p (record { sec = pos 0; usec = usec })

-- `(s.usec / 1000) as u16` of the normalized value.
unfoldable pub millis : Profile → TimeVal → Outcome ℕ
millis p tv = do
  s ← normalize p tv
  if eqb_ℤ s.sec (pos 0)
      then (if ltb_ℤ s.usec (pos 0)
          then err Error.usec_is_negative
          else ok (to_u32 (div_trunc s.usec 1000) % 2 ^ 16))
      else err Error.sec_is_not_zero

-- `TimeVal::from(&[u8])`
unfoldable pub from_slice : Bytes → Outcome TimeVal
from_slice buf = do
  sec ← slice 0 4 buf >>= slice_to_i32
  usec ← slice 4 8 buf >>= slice_to_i32
  ok (record { sec = sec; usec = usec })

-- `TimeVal::from(Duration)`, of a duration's whole seconds and the microseconds above them.
unfoldable pub from_duration : ℕ → ℕ → TimeVal
from_duration as_secs subsec_micros = record {
  sec = as_i32 (pos as_secs);
  usec = as_i32 (pos subsec_micros);
}

unfoldable pub add : Profile → TimeVal → TimeVal → Outcome TimeVal
add p a b = do
  sec ← i32 p (a.sec +ℤ b.sec)
  usec ← i32 p (a.usec +ℤ b.usec)
  normalize p (record { sec = sec; usec = usec })

unfoldable pub sub : Profile → TimeVal → TimeVal → Outcome TimeVal
sub p a b = do
  sec ← i32 p (a.sec -ℤ b.sec)
  usec ← i32 p (a.usec -ℤ b.usec)
  normalize p (record { sec = sec; usec = usec })

-- `/` on `i32`: the quotient is rounded towards zero. Division by zero and `i32::MIN / -1` panic in
-- every build. (`n / 0` of the model is 0, and one part of each integer is 0.)
unfoldable pub div_i32 : ℤ → ℤ → Outcome ℤ
div_i32 a b =
    let q =
      sub_ℕ (pos_part a / pos_part b + neg_part a / neg_part b)
        (pos_part a / neg_part b + neg_part a / pos_part b) in
    if eqb_ℤ b (pos 0) then panic else if ltb (pos_part q) (2 ^ 31) then ok q else panic

unfoldable pub div : TimeVal → ℤ → Outcome TimeVal
unfolding div_i32
div a other = do
  sec ← div_i32 a.sec other
  usec ← div_i32 a.usec other
  ok (record { sec = sec; usec = usec })
