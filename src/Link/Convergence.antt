-- ===== src/Link/Convergence.antt =====
-- A sequence of exchanges between a new client and a server, with equal delays in both directions.
use snapcast_client.Prelude.{
  ℕ, suc, ◌+◌, ◌≤◌, ◌<◌, ◌≡◌, refl, sym, ap, ◌∙◌, arith, true, eq→==, inl, inr, ◌⊎◌, List, [], ◌∷◌,
  length, ℤ, int_laws, subst,
}
use native.Mathlib.Decide.{dec_lt}
use snapcast_client.Outcome.{ok, ◌>>=◌}
use snapcast_client.Word.{Profile}
use snapcast_client.TimeVal.{TimeVal}
use snapcast_client.TimeVal.Micros.{micros}
use snapcast_client.TimeVal.Canonical.{
  canonical_unique, floor_micros, floor_micros-IsCanonical, micros-floor_micros,
}
use snapcast_client.Proto.Settings.{ServerSettings, SettingsJson}
use snapcast_client.Proto.Hello.{HelloJson}
use snapcast_client.Framing
use snapcast_client.Client
use snapcast_client.Client.{ClientMachine, synchronized, is_due, record_offset}
use snapcast_client.Client.Offsets.{CircularBuffer, latency_samples}
use snapcast_client.Client.Reply.{waiting}
use snapcast_client.Client.Sync.{IsClock}
use snapcast_client.Client.Record.{new-IsSampled}
use snapcast_client.Link.{Trip, exchange}
use snapcast_client.Link.Trips.{
  IsNear, AreTrips, exchanges, IsSettled, next, exchange-IsNear, trip_settled, next-IsSettled,
}

module _ {B : Type 0} (ring : CircularBuffer B) (p : Profile) (settings_json : SettingsJson)
    (hello_json : HelloJson) (current : ServerSettings) (jitter : ℕ) (offset : ℤ) where
  exchanges-IsSettled :
      (k last : ℕ) (m : ClientMachine B) (ts : List Trip)
      → IsSettled ring p settings_json hello_json current jitter offset k last m
      → AreTrips jitter offset k last ts
      → (m' : ClientMachine B) × (end : ℕ) × (exchanges ring p settings_json hello_json current
            offset m ts
          ≡ ok m')
        × IsSettled ring p settings_json hello_json current jitter offset (k + length ts) end m'
  unfolding exchanges
  exchanges-IsSettled k last m [] s h = (
    m,
    last,
    refl,
    subst (λ n. IsSettled ring p settings_json hello_json current jitter offset n last m)
        (omega arith) s,
  )
  exchanges-IsSettled k last m (t ∷ ts) s ((soon, spaced, close, c1, c2, c3, c4, hr), h) =
      let (tv, near, run_one) =
        exchange-IsNear ring p settings_json hello_json current jitter offset m t s.sampled
          (trip_settled ring p settings_json hello_json current jitter offset k last m t s c1 c2 c3
            c4 hr soon spaced)
          close in
      let (m', end, run, s') =
        exchanges-IsSettled (k + 1) t.sent_us
          (next ring p settings_json hello_json current jitter offset m t tv) ts
          (next-IsSettled ring p settings_json hello_json current jitter offset k last m t tv s
            near)
          h in
      let waits : m ≡ waiting m = λ i. record m { framing = s.waits i } in
      (
        m',
        end,
        ap
              (λ x. exchange ring p settings_json hello_json current offset x t >>= λ m'.
                exchanges ring p settings_json hello_json current offset m' ts)
              waits
            ∙ ap (λ o. o >>= λ m'. exchanges ring p settings_json hello_json current offset m' ts)
                run_one
            ∙ run,
        subst (λ n. IsSettled ring p settings_json hello_json current jitter offset n end m')
            (let e : k + 1 + length ts ≡ k + suc (length ts) = omega arith in e) s',
      )

  -- Where no delays differ, what is near is the offset itself.
  exact_or_jitter :
      Dec (0 < jitter)
      → (tv : TimeVal) → IsNear jitter offset tv
      → IsClock offset
      → (0 < jitter) ⊎ (tv ≡ floor_micros offset)
  exact_or_jitter (yes some_jitter) tv near small = inl some_jitter
  exact_or_jitter (no none) tv near small = inr (
      canonical_unique tv (floor_micros offset) near.0
        (floor_micros-IsCanonical offset (omega (arith, small)))
        ((let e : micros tv ≡ offset = omega (int_laws, near.1, near.2) in e)
          ∙ sym (micros-floor_micros offset (omega (arith, small)))))

  -- At least twenty exchanges of a new client with a greeted session, over a network whose delays
  -- in the two directions differ by at most `jitter` microseconds at each exchange and clocks
  -- within 2 ^ 28 seconds, each a millisecond after the one before, and a second once twenty are
  -- over: every request is sent and answered, and the client is synchronized, waits for a header,
  -- and has the offset of the server's clock but for half of `jitter` and half a microsecond, and
  -- exactly that offset where the delays are always equal.
  pub offset_converges :
      (ts : List Trip)
      → latency_samples ≤ length ts
      → AreTrips jitter offset 0 0 ts
      → IsClock offset
      → (m : ClientMachine B) × (exchanges ring p settings_json hello_json current offset
            (Client.new ring)
            ts
          ≡ ok m)
        × (synchronized ring m ≡ true)
        × (m.framing ≡ Framing.new)
        × IsNear jitter offset m.clock_offset
        × (0 < jitter ⊎ m.clock_offset ≡ floor_micros offset)
  unfolding synchronized
  offset_converges ts enough h small =
      let (m, end, run, s) = exchanges-IsSettled 0 0 (Client.new ring) ts start h in
      let near = s.settled (omega arith) in
      (
        m,
        run,
        eq→== (length (ring.iter m.latency_buf)) (length m.sorted_latency_buf)
            (omega (arith, s.count, s.sampled.places)),
        s.waits,
        near,
        exact_or_jitter (dec_lt 0 jitter) m.clock_offset near small,
      )
    where
      start : IsSettled ring p settings_json hello_json current jitter offset 0 0 (Client.new ring)
      start = record {
        waits = unfold Client.new in refl;
        sampled = new-IsSampled ring;
        count = unfold Client.new in ap length ring.iter-empty;
        near = unfold Client.new in rw (ring.iter-empty) tt;
        last_sent = unfold Client.new in refl;
        id_fits = unfold Client.new in (omega arith);
        settled = λ e. absurd (omega arith);
      }
