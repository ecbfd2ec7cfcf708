-- ===== src/TimeVal/Order.antt =====
-- The derived order on `TimeVal`, against the order of the instants.
use snapcast_client.Prelude.{
  ◌+◌, ◌≡◌, arith, true, false, pos_part, neg_part, ◌≤ℤ◌, ◌<ℤ◌, ◌↔◌, ◌⊎◌, inl, inr,
}
use native.Mathlib.Decide.{dec_lt}
use snapcast_client.TimeVal.{TimeVal, leb_tv}
use snapcast_client.TimeVal.Micros.{micros, micros_parts}
use snapcast_client.TimeVal.Canonical.{IsCanonical}

-- The order without Booleans.
abbrev pub LeTv : TimeVal → TimeVal → Type 0
LeTv a b = (a.sec <ℤ b.sec) ⊎ (((a.sec ≤ℤ b.sec) × (b.sec ≤ℤ a.sec)) × (a.usec ≤ℤ b.usec))

pub leb_tv_iff : (a b : TimeVal) → (leb_tv a b ≡ true) ↔ LeTv a b
leb_tv_iff a b = (λ h. ground arith, λ h. ground arith)

pub leb_tv_total : (a b : TimeVal) → leb_tv a b ≡ false → leb_tv b a ≡ true
leb_tv_total a b h = ground arith

pub leb_tv_trans : (a b c : TimeVal) → leb_tv a b ≡ true → leb_tv b c ≡ true → leb_tv a c ≡ true
leb_tv_trans a b c h k =
    let x = (leb_tv_iff a b).0 h in let y = (leb_tv_iff b c).0 k in (leb_tv_iff a c).1 (omega arith)

-- Between pairs with less than a million microseconds, the derived order is the order of the instants.
pub leb_tv-micros :
    (a b : TimeVal) → IsCanonical a → IsCanonical b → (leb_tv a b ≡ true) ↔ (micros a ≤ℤ micros b)
leb_tv-micros a b ha hb = (
  λ h. (let x = (leb_tv_iff a b).0 h in omega (arith, micros_parts a, micros_parts b)),
  λ h. (leb_tv_iff a b).1 (by_seconds h),
)
  where
    by_seconds : micros a ≤ℤ micros b → LeTv a b
    by_seconds h =
        elim (dec_lt (pos_part a.sec + neg_part b.sec) (pos_part b.sec + neg_part a.sec)) [
          | yes earlier ↦ inl earlier
          | no later ↦ inr (omega (arith, micros_parts a, micros_parts b))
        ]
