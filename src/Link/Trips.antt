-- ===== src/Link/Trips.antt =====
-- Sequences of exchanges between a new client and a server, and the offsets that they leave.
use snapcast_client.Prelude.{
  ℕ, zero, suc, ◌+◌, ◌-◌, ◌≤◌, ◌<◌, ◌≡◌, refl, sym, ap, arith, min, true, ne→==_false, inl, inr,
  ◌⊎◌, List, [], ◌∷◌, ◌++◌, length, drop, All, ℤ, pos, ◌+ℤ◌, ◌-ℤ◌, ◌≤ℤ◌, int_laws, subst,
  All-append, length-append, length-drop,
}
use snapcast_client.Outcome.{Outcome, ok, ◌>>=◌}
use snapcast_client.Word.{Profile, IsU16}
use snapcast_client.TimeVal.{TimeVal, from_micros}
use snapcast_client.TimeVal.Micros.{micros}
use snapcast_client.TimeVal.Canonical.{IsCanonical}
use snapcast_client.Proto.Time.{time_base}
use snapcast_client.Proto.Settings.{ServerSettings, SettingsJson}
use snapcast_client.Proto.Hello.{HelloJson}
use snapcast_client.Framing
use snapcast_client.Client.{ClientMachine, synchronized, is_due}
use snapcast_client.Client.Offsets.{CircularBuffer, latency_samples, keep_last}
use snapcast_client.Client.Reply.{waiting}
use snapcast_client.Client.Transmit.{sent_at}
use snapcast_client.Client.Sync.{IsClock, measure_near}
use snapcast_client.Client.Record.{
  IsSampled, after, after-IsSampled, record_offset-after, record_offset-All,
}
use snapcast_client.Link.{Trip, arrival, departure, return_us, exchange}
use snapcast_client.Link.Recovery.{IsTrip, exchange-recorded}

All-drop {κ} : {A : Type 0} (P : A → Type κ) (n : ℕ) (xs : List A) → All P xs → All P (drop n xs)
All-drop P zero xs h = h
All-drop P (suc n) [] h = tt
All-drop P (suc n) (x ∷ xs) h = All-drop P n xs h.1

-- An offset that is off by at most half of `jitter`, up to half a microsecond.
abbrev pub IsNear : ℕ → ℤ → TimeVal → Type 0
IsNear jitter offset tv =
    IsCanonical tv
    × (micros tv +ℤ micros tv ≤ℤ offset +ℤ offset +ℤ pos (jitter + 1))
    × (offset +ℤ offset ≤ℤ micros tv +ℤ micros tv +ℤ pos (jitter + 1))

-- Trips one after the other, with `k` before them and the last request at `last`: each has delays
-- that differ by at most `jitter`, clocks within 2 ^ 28 seconds and an id, and starts a millisecond
-- after the one before, or a second once twenty are over.
abbrev pub AreTrips : ℕ → ℤ → ℕ → ℕ → List Trip → Type 0
AreTrips jitter offset k last [] = Unit
AreTrips jitter offset k last (t ∷ ts) =
    ((last + 1000 ≤ t.sent_us)
      × (k < latency_samples ⊎ (last + 1000000 ≤ t.sent_us))
      × (t.up_delay - t.down_delay + (t.down_delay - t.up_delay) ≤ jitter)
      × IsClock (pos t.sent_us)
      × IsClock (arrival offset t)
      × IsClock (departure offset t)
      × IsClock (return_us t)
      × IsU16 t.reply_id)
    × AreTrips jitter offset (k + 1) t.sent_us ts

module _ {B : Type 0} (ring : CircularBuffer B) (p : Profile) (settings_json : SettingsJson)
    (hello_json : HelloJson) (current : ServerSettings) (offset : ℤ) where
  unfoldable pub exchanges : ClientMachine B → List Trip → Outcome (ClientMachine B)
  exchanges m [] = ok m
  exchanges m (t ∷ ts) =
      exchange ring p settings_json hello_json current offset m t >>= λ m'. exchanges m' ts

module _ {B : Type 0} (ring : CircularBuffer B) (p : Profile) (settings_json : SettingsJson)
    (hello_json : HelloJson) (current : ServerSettings) (jitter : ℕ) (offset : ℤ) where
  -- A machine after `k` exchanges, the last at `last`.
  pub record IsSettled (k last : ℕ) (m : ClientMachine B) : Type 0 where
    pub waits : m.framing ≡ Framing.new
    pub sampled : IsSampled ring m
    pub count : length (ring.iter m.latency_buf) ≡ min k latency_samples
    pub near : All (IsNear jitter offset) (ring.iter m.latency_buf)
    pub last_sent : m.last_time_sent_us ≡ pos last
    pub id_fits : IsU16 m.pkt_id
    pub settled : latency_samples ≤ k → IsNear jitter offset m.clock_offset

  -- The machine after an exchange that recorded an offset.
  pub next : ClientMachine B → Trip → TimeVal → ClientMachine B
  next m t tv = after ring (sent_at (waiting m) (pos t.sent_us)) tv

  -- An exchange records an offset that is near.
  pub exchange-IsNear :
      (m : ClientMachine B) (t : Trip)
      → IsSampled ring m
      → IsTrip ring p settings_json hello_json current offset m t
      → t.up_delay - t.down_delay + (t.down_delay - t.up_delay) ≤ jitter
      → (tv : TimeVal) × IsNear jitter offset tv
        × (exchange ring p settings_json hello_json current offset (waiting m) t ≡ ok (next m t tv))
  unfolding sent_at next
  exchange-IsNear m t sampled trip close =
      let m1 = sent_at (waiting m) (pos t.sent_us) in
      let (tv, measured, canonical, above, below) =
        measure_near ring p m1
          (time_base t.reply_id m.pkt_id (from_micros (departure offset t))
            (from_micros (arrival offset t)))
          (pos t.sent_us) offset t.up_delay t.wait t.down_delay refl refl refl trip.sent_fits
          trip.arrival_fits trip.departure_fits trip.return_fits in
      (
        tv,
        (canonical, omega (int_laws, above, below), omega (int_laws, above, below)),
        exchange-recorded ring p settings_json hello_json current offset m _ t tv trip.elapsed_fits
            trip.due trip.id_fits trip.reply_id_fits measured
            (record_offset-after ring m1 tv
              (record { places = sampled.places; within = sampled.within })),
      )

  due_later :
      (k last : ℕ) (m : ClientMachine B) (t : Trip)
      → IsSettled k last m
      → last + 1000 ≤ t.sent_us
      → (k < latency_samples ⊎ (last + 1000000 ≤ t.sent_us))
      → is_due ring (waiting m) (pos t.sent_us -ℤ m.last_time_sent_us) ≡ true
  unfolding is_due synchronized ◌-ℤ◌
  due_later k last m t s soon (inr later) = rw (s.last_sent) (ground arith)
  due_later k last m t s soon (inl early) =
      rw
        (
          s.last_sent,
          ne→==_false (length (ring.iter m.latency_buf)) (length m.sorted_latency_buf) short,
        )
        (ground arith)
    where
      short : ¬ (length (ring.iter m.latency_buf) ≡ length m.sorted_latency_buf)
      short e = absurd (omega (arith, e, s.sampled.places, s.count))

  pub trip_settled :
      (k last : ℕ) (m : ClientMachine B) (t : Trip)
      → IsSettled k last m
      → IsClock (pos t.sent_us)
      → IsClock (arrival offset t)
      → IsClock (departure offset t)
      → IsClock (return_us t)
      → IsU16 t.reply_id
      → last + 1000 ≤ t.sent_us
      → (k < latency_samples ⊎ (last + 1000000 ≤ t.sent_us))
      → IsTrip ring p settings_json hello_json current offset m t
  trip_settled k last m t s c1 c2 c3 c4 hr soon spaced = record {
    sent_fits = c1;
    arrival_fits = c2;
    departure_fits = c3;
    return_fits = c4;
    id_fits = s.id_fits;
    reply_id_fits = hr;
    elapsed_fits = rw (s.last_sent) (omega int_laws);
    due = due_later k last m t s soon spaced;
  }

  next-iter :
      (m : ClientMachine B) (t : Trip) (tv : TimeVal)
      → ring.iter (next m t tv).latency_buf
        ≡ keep_last latency_samples (ring.iter m.latency_buf ++ (tv ∷ []))
  unfolding next after sent_at
  next-iter m t tv = ring.iter-push_back m.latency_buf tv

  kept-IsNear :
      (k last : ℕ) (m : ClientMachine B) (tv : TimeVal)
      → IsSettled k last m
      → IsNear jitter offset tv
      → All
          (IsNear jitter offset)
          (keep_last latency_samples (ring.iter m.latency_buf ++ (tv ∷ [])))
  kept-IsNear k last m tv s h =
      All-drop (IsNear jitter offset)
        (length (ring.iter m.latency_buf ++ (tv ∷ [])) - latency_samples)
        (ring.iter m.latency_buf ++ (tv ∷ []))
        (All-append (IsNear jitter offset) (ring.iter m.latency_buf) (tv ∷ []) s.near (h, tt))

  next-offset :
      (k last : ℕ) (m : ClientMachine B) (t : Trip) (tv : TimeVal)
      → IsSettled k last m
      → IsNear jitter offset tv
      → 19 ≤ k
      → IsNear jitter offset (next m t tv).clock_offset
  unfolding next sent_at
  next-offset k last m t tv s h enough =
      let m1 = sent_at (waiting m) (pos t.sent_us) in
      let sampled : IsSampled ring m1 = record {
        places = s.sampled.places;
        within = s.sampled.within;
      } in
      let (m', recorded, holds) =
        record_offset-All ring (IsNear jitter offset) m1 tv sampled (omega (arith, s.count))
          (kept-IsNear k last m tv s h) in
      let computed = record_offset-after ring m1 tv sampled in
      let same : m' ≡ after ring m1 tv = cc in
      subst (λ (x : ClientMachine B). IsNear jitter offset x.clock_offset) same holds

  pub next-IsSettled :
      (k last : ℕ) (m : ClientMachine B) (t : Trip) (tv : TimeVal)
      → IsSettled k last m
      → IsNear jitter offset tv
      → IsSettled (k + 1) t.sent_us (next m t tv)
  next-IsSettled k last m t tv s h = record {
    waits = unfold next after sent_at in refl;
    sampled =
        unfold next sent_at in
        after-IsSampled ring (sent_at (waiting m) (pos t.sent_us)) tv
          (record { places = s.sampled.places; within = s.sampled.within });
    count = omega (
      arith,
      ap length (next-iter m t tv),
      length-drop (length (ring.iter m.latency_buf ++ (tv ∷ [])) - latency_samples)
          (ring.iter m.latency_buf ++ (tv ∷ [])),
      length-append (ring.iter m.latency_buf) (tv ∷ []),
      s.count,
    );
    near =
        subst (All (IsNear jitter offset)) (sym (next-iter m t tv)) (kept-IsNear k last m tv s h);
    last_sent = unfold next after sent_at in refl;
    id_fits = unfold next after sent_at in (omega arith);
    settled = λ enough. next-offset k last m t tv s h (omega arith);
  }
