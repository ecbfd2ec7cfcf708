-- ===== src/Client/Sync.antt =====
-- One exchange of Time messages: what `measure` makes of the four time stamps, and how far that is
-- from the true clock offset.
use snapcast_client.Prelude.{
  ℕ, ◌+◌, ◌-◌, ◌/◌, ◌^◌, ◌≡◌, ap, ◌∙◌, arith, ℤ, pos, pos_part, neg_part, ◌+ℤ◌, ◌-ℤ◌, ◌≤ℤ◌,
  int_laws, div_trunc, subst,
}
use snapcast_client.Outcome.{Outcome, ok, ◌>>=◌}
use snapcast_client.Word.{Profile}
use snapcast_client.TimeVal
use snapcast_client.TimeVal.{TimeVal, from_micros}
use snapcast_client.TimeVal.Micros.{IsMicros, micros, to_micros-eq, micros-from_micros}
use snapcast_client.TimeVal.Arith.{
  IsShort, difference, difference-IsShort, sub-difference, micros-difference,
}
use snapcast_client.TimeVal.Canonical.{
  IsCanonical, IsWithin, floor_micros, floor_micros-IsCanonical, from_micros-IsShort,
  normalize-from_micros, micros-floor_micros,
}
use snapcast_client.Proto.Base.{Base}
use snapcast_client.Client.Offsets.{CircularBuffer}
use snapcast_client.Client.{ClientMachine, measure}

-- Clocks up to 2 ^ 28 seconds, some eight years.
abbrev pub clock_seconds : ℕ
clock_seconds = 2 ^ 28

abbrev pub IsClock : ℤ → Type 0
IsClock us = IsWithin clock_seconds us

-- Twice the offset that the stamps show: (received - sent) on the way up less the same on the way
-- down.
pub twice_offset : ℤ → ℤ → ℤ → ℤ → ℤ
twice_offset client_sent server_received server_sent client_received =
    (server_received -ℤ client_sent) -ℤ (client_received -ℤ server_sent)

half_parts :
    (a : ℤ)
    → (pos_part (div_trunc a 2) ≡ pos_part a / 2) × (neg_part (div_trunc a 2) ≡ neg_part a / 2)
unfolding div_trunc
half_parts a = ground arith

weaken : (us : ℤ) → IsWithin 2147483646 us → IsMicros us
weaken us h = omega arith

from_micros_clock : (us : ℤ) → IsClock us → IsShort clock_seconds (from_micros us)
from_micros_clock us h = from_micros-IsShort clock_seconds us (omega arith) h

-- The body of `measure` over its four stamps.
abbrev exchange : Profile → TimeVal → TimeVal → TimeVal → TimeVal → Outcome TimeVal
exchange p sent received reply_sent reply_received = do
  c2s ← TimeVal.sub p received sent
  s2c ← TimeVal.sub p reply_received reply_sent
  diff ← TimeVal.sub p c2s s2c
  us ← TimeVal.to_micros p diff
  TimeVal.normalize p (from_micros (div_trunc us 2))

module _ (a b c d : ℤ) (ha : IsClock a) (hb : IsClock b) (hc : IsClock c) (hd : IsClock d) where
  up : TimeVal
  up = difference (from_micros b) (from_micros a)

  down : TimeVal
  down = difference (from_micros d) (from_micros c)

  up-IsShort : IsShort (clock_seconds + clock_seconds + 2) up
  unfolding up
  up-IsShort =
      difference-IsShort clock_seconds clock_seconds (from_micros b) (from_micros a)
        (from_micros_clock b hb) (from_micros_clock a ha)

  down-IsShort : IsShort (clock_seconds + clock_seconds + 2) down
  unfolding down
  down-IsShort =
      difference-IsShort clock_seconds clock_seconds (from_micros d) (from_micros c)
        (from_micros_clock d hd) (from_micros_clock c hc)

  both-IsShort : IsShort (2 ^ 30 + 6) (difference up down)
  both-IsShort = difference-IsShort (2 ^ 29 + 2) (2 ^ 29 + 2) up down up-IsShort down-IsShort

  micros-both : micros (difference up down) ≡ twice_offset a b c d
  unfolding up down twice_offset
  micros-both = rw (
    micros-difference,
    micros-difference,
    micros-difference,
    micros-from_micros a (omega arith),
    micros-from_micros b (omega arith),
    micros-from_micros c (omega arith),
    micros-from_micros d (omega arith),
  )

  twice_offset-IsWithin : IsWithin 2147483646 (div_trunc (twice_offset a b c d) 2)
  unfolding twice_offset
  twice_offset-IsWithin = omega (int_laws, half_parts (twice_offset a b c d))

  exchange-eq :
      (p : Profile)
      → exchange p (from_micros a) (from_micros b) (from_micros c) (from_micros d)
        ≡ ok (floor_micros (div_trunc (twice_offset a b c d) 2))
  unfolding up down
  exchange-eq p =
      rw
        (
          sub-difference clock_seconds clock_seconds (from_micros b) (from_micros a)
              (from_micros_clock b hb) (from_micros_clock a ha) p (omega arith),
          sub-difference clock_seconds clock_seconds (from_micros d) (from_micros c)
              (from_micros_clock d hd) (from_micros_clock c hc) p (omega arith),
          sub-difference (2 ^ 29 + 2) (2 ^ 29 + 2) up down up-IsShort down-IsShort p (omega arith),
          to_micros-eq p (difference up down) (omega (arith, both-IsShort)),
          micros-both,
        )
        (normalize-from_micros p _ twice_offset-IsWithin).0

module _ {B : Type 0} (ring : CircularBuffer B) (p : Profile) (m : ClientMachine B) (base : Base)
    (a b c d : ℤ) (client_sent : m.last_sent_time ≡ from_micros a)
    (server_received : base.received_tv ≡ from_micros b)
    (server_sent : base.sent_tv ≡ from_micros c) (ha : IsClock a) (hb : IsClock b) (hc : IsClock c)
    (hd : IsClock d) where
  -- In both builds `measure` gives the halved sum of the stamps, rounded towards zero and normalized.
  pub measure-eq :
      measure ring p m base (from_micros d) ≡ ok (floor_micros (div_trunc (twice_offset a b c d) 2))
  unfolding measure
  measure-eq =
      (λ i. exchange p (client_sent i) (server_received i) (server_sent i) (from_micros d))
      ∙ exchange-eq a b c d ha hb hc hd p

  pub measure-IsCanonical :
      (t : TimeVal) → measure ring p m base (from_micros d) ≡ ok t → IsCanonical t
  measure-IsCanonical t measured =
      let half = div_trunc (twice_offset a b c d) 2 in
      let computed = measure-eq in
      let e : floor_micros half ≡ t = cc in
      subst IsCanonical e
        (floor_micros-IsCanonical half (weaken half (twice_offset-IsWithin a b c d ha hb hc hd)))

-- The offset of an exchange: sent at `s` on the client's clock, `o` ahead on the server's, `up` and
-- `down` under way and `wait` in the server.
twice_offset_exchange :
    (s o : ℤ) (up_delay wait down_delay : ℕ)
    → twice_offset s
        (s +ℤ o +ℤ pos up_delay)
        (s +ℤ o +ℤ pos (up_delay + wait))
        (s +ℤ pos (up_delay + wait + down_delay))
      ≡ o +ℤ o +ℤ (pos up_delay -ℤ pos down_delay)
unfolding twice_offset
twice_offset_exchange s o up_delay wait down_delay = omega int_laws

module _ {B : Type 0} (ring : CircularBuffer B) (p : Profile) (m : ClientMachine B) (base : Base)
    (s o : ℤ) (up_delay wait down_delay : ℕ) (client_sent : m.last_sent_time ≡ from_micros s)
    (server_received : base.received_tv ≡ from_micros (s +ℤ o +ℤ pos up_delay))
    (server_sent : base.sent_tv ≡ from_micros (s +ℤ o +ℤ pos (up_delay + wait)))
    (sent_fits : IsClock s) (server_received_fits : IsClock (s +ℤ o +ℤ pos up_delay))
    (server_sent_fits : IsClock (s +ℤ o +ℤ pos (up_delay + wait)))
    (received_fits : IsClock (s +ℤ pos (up_delay + wait + down_delay))) where
  -- For stamps of less than 2 ^ 28 seconds, a reply that was `up_delay` and `down_delay` under way and
  -- `wait` in a server whose clock is `o` ahead gives a measurement that is off by half the
  -- difference of the delays, up to half a microsecond; if the delays are equal it is exactly `o`.
  pub measure_error :
      (t : TimeVal) × (measure ring p m base (from_micros (s +ℤ pos (up_delay + wait + down_delay)))
        ≡ ok t)
      × (micros t +ℤ micros t
          ≤ℤ o +ℤ o +ℤ pos (up_delay - down_delay + (down_delay - up_delay) + 1))
      × (o +ℤ o
          ≤ℤ micros t +ℤ micros t +ℤ pos (up_delay - down_delay + (down_delay - up_delay) + 1))
      × (up_delay ≡ down_delay → t ≡ floor_micros o)
  measure_error = (
    floor_micros half,
    measure-eq ring p m base s (s +ℤ o +ℤ pos up_delay) (s +ℤ o +ℤ pos (up_delay + wait))
        (s +ℤ pos (up_delay + wait + down_delay)) client_sent server_received server_sent sent_fits
        server_received_fits server_sent_fits received_fits,
    rw same (omega (int_laws, value)),
    rw same (omega (int_laws, value)),
    λ e. ap floor_micros (omega (int_laws, value, e)),
  )
    where
      half : ℤ
      half =
          div_trunc
            (twice_offset s (s +ℤ o +ℤ pos up_delay) (s +ℤ o +ℤ pos (up_delay + wait))
              (s +ℤ pos (up_delay + wait + down_delay)))
            2

      same : micros (floor_micros half) ≡ half
      same = micros-floor_micros half (
          weaken half (
            twice_offset-IsWithin s (s +ℤ o +ℤ pos up_delay) (s +ℤ o +ℤ pos (up_delay + wait))
              (s +ℤ pos (up_delay + wait + down_delay)) sent_fits server_received_fits
              server_sent_fits received_fits))

      value :
          (pos_part half ≡ pos_part (o +ℤ o +ℤ (pos up_delay -ℤ pos down_delay)) / 2)
          × (neg_part half ≡ neg_part (o +ℤ o +ℤ (pos up_delay -ℤ pos down_delay)) / 2)
      value = rw (← twice_offset_exchange s o up_delay wait down_delay) (half_parts _)

  -- The measurement is one pair for each instant.
  pub measure_near :
      (t : TimeVal) × (measure ring p m base (from_micros (s +ℤ pos (up_delay + wait + down_delay)))
        ≡ ok t)
      × IsCanonical t
      × (micros t +ℤ micros t
          ≤ℤ o +ℤ o +ℤ pos (up_delay - down_delay + (down_delay - up_delay) + 1))
      × (o +ℤ o
          ≤ℤ micros t +ℤ micros t +ℤ pos (up_delay - down_delay + (down_delay - up_delay) + 1))
  measure_near =
      let (t, measured, above, below, _) = measure_error in
      (
        t,
        measured,
        measure-IsCanonical ring p m base s (s +ℤ o +ℤ pos up_delay)
            (s +ℤ o +ℤ pos (up_delay + wait)) (s +ℤ pos (up_delay + wait + down_delay)) client_sent
            server_received server_sent sent_fits server_received_fits server_sent_fits
            received_fits t measured,
        above,
        below,
      )
