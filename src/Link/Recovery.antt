-- ===== src/Link/Recovery.antt =====
-- What one exchange between a client and a server does to the client's machine.
use snapcast_client.Prelude.{
  ℕ, ◌+◌, ◌-◌, ◌≡◌, refl, arith, true, [], ◌∷◌, ◌++◌, take, drop, replicate, ℤ, pos, ◌+ℤ◌, ◌-ℤ◌,
  ◌≤ℤ◌,
}
use snapcast_client.Outcome.{ok}
use snapcast_client.Word.{Profile, IsU16, IsI64}
use snapcast_client.TimeVal
use snapcast_client.TimeVal.{TimeVal, from_micros, tv_zero}
use snapcast_client.TimeVal.Micros.{micros, IsTimeVal, from_micros-IsTimeVal}
use snapcast_client.TimeVal.Canonical.{floor_micros}
use snapcast_client.Proto.Base.{Base}
use snapcast_client.Proto.Base.RoundTrip.{header}
use snapcast_client.Proto.Time.{wire_size, time_base, as_buf_lem}
use snapcast_client.Proto.Settings.{ServerSettings, SettingsJson}
use snapcast_client.Proto.Hello.{HelloJson}
use snapcast_client.Server.Exchange.{time_request_read, time_base-IsBase}
use snapcast_client.Net.Writer.{serialize}
use snapcast_client.Net.Reader.{answers}
use snapcast_client.Client.Offsets.{CircularBuffer, latency_samples, keep_last}
use snapcast_client.Client.{ClientMachine, is_due, measure, record_offset}
use snapcast_client.Client.Transmit.{sent_at, request, poll_transmit_due}
use snapcast_client.Client.Reply
use snapcast_client.Client.Reply.{reply_recorded}
use snapcast_client.Client.Sync.{IsClock, measure_error}
use snapcast_client.Client.Record.{IsSampled, record_offset-IsSampled}
use snapcast_client.Link.{Trip, arrival, departure, return_us, exchange}

split_message :
    (b : Base) (tv : TimeVal)
    → (take 26 (header b ++ TimeVal.as_buf tv) ≡ header b)
      × (drop 26 (header b ++ TimeVal.as_buf tv) ≡ TimeVal.as_buf tv)
unfolding header TimeVal.as_buf
split_message b tv = (refl, refl)

sent_message :
    (id : ℕ) (tv : TimeVal)
    → take wire_size (request id tv ++ drop wire_size (replicate wire_size 0))
      ≡ header (time_base id 0 tv tv) ++ TimeVal.as_buf tv
unfolding request header TimeVal.as_buf
sent_message id tv = refl

module _ {B : Type 0} (ring : CircularBuffer B) (p : Profile) (settings_json : SettingsJson)
    (hello_json : HelloJson) (current : ServerSettings) (offset : ℤ) where
  -- The exchange comes to the measurement and to its recording.
  pub exchange-recorded :
      (m m' : ClientMachine B) (t : Trip) (tv : TimeVal)
      → IsI64 (pos t.sent_us -ℤ m.last_time_sent_us)
      → is_due ring (Reply.waiting m) (pos t.sent_us -ℤ m.last_time_sent_us) ≡ true
      → IsU16 m.pkt_id
      → IsU16 t.reply_id
      → let m1 = sent_at (Reply.waiting m) (pos t.sent_us) in
        measure ring p m1
            (time_base t.reply_id m.pkt_id
              (from_micros (departure offset t))
              (from_micros (arrival offset t)))
            (from_micros (return_us t))
          ≡ ok tv
        → record_offset ring m1 tv ≡ ok m'
        → exchange ring p settings_json hello_json current offset (Reply.waiting m) t ≡ ok m'
  unfolding exchange sent_at answers serialize
  exchange-recorded m m' t tv fits due hp hr measured recorded = rw (
    poll_transmit_due ring p (Reply.waiting m) (pos t.sent_us) (replicate wire_size 0) fits
        (omega arith) due,
    sent_message m.pkt_id stamp,
    (split_message (time_base m.pkt_id 0 stamp stamp) stamp).0,
    (split_message (time_base m.pkt_id 0 stamp stamp) stamp).1,
    (time_request_read hello_json m.pkt_id 0 stamp stamp stamp arrived arrived hp (omega arith) real
        real real).0,
    as_buf_lem t.reply_id m.pkt_id left arrived stamp,
    (split_message (time_base t.reply_id m.pkt_id left arrived) stamp).0,
    (split_message (time_base t.reply_id m.pkt_id left arrived) stamp).1,
    reply_recorded ring p settings_json (sent_at (Reply.waiting m) (pos t.sent_us)) m' t.reply_id
        m.pkt_id left arrived stamp tv (return_us t) (return_us t)
        (time_base-IsBase t.reply_id m.pkt_id left arrived hr hp
          (from_micros-IsTimeVal (departure offset t)) (from_micros-IsTimeVal (arrival offset t)))
        real measured recorded,
  )
    where
      stamp : TimeVal
      stamp = from_micros (pos t.sent_us)

      arrived : TimeVal
      arrived = from_micros (arrival offset t)

      left : TimeVal
      left = from_micros (departure offset t)

      real : IsTimeVal stamp
      real = from_micros-IsTimeVal (pos t.sent_us)

  -- The clocks and the ids of an exchange are in range, and a request is due.
  pub record IsTrip (m : ClientMachine B) (t : Trip) : Type 0 where
    pub sent_fits : IsClock (pos t.sent_us)
    pub arrival_fits : IsClock (arrival offset t)
    pub departure_fits : IsClock (departure offset t)
    pub return_fits : IsClock (return_us t)
    pub id_fits : IsU16 m.pkt_id
    pub reply_id_fits : IsU16 t.reply_id
    pub elapsed_fits : IsI64 (pos t.sent_us -ℤ m.last_time_sent_us)
    pub due : is_due ring (Reply.waiting m) (pos t.sent_us -ℤ m.last_time_sent_us) ≡ true

  -- One exchange over a network: a machine that waits for a header and has a request due, and a
  -- greeted session, with ids and the elapsed time in range and clocks below 2 ^ 28 seconds. The
  -- machine records one more offset, which is off by at most half the difference of the two delays,
  -- up to half a microsecond, and is exactly the offset of the server's clock if the delays are
  -- equal. Its buffer then holds the last twenty offsets.
  pub exchange_error :
      (m : ClientMachine B) (t : Trip)
      → IsSampled ring m
      → IsTrip m t
      → (m' : ClientMachine B) × (tv : TimeVal) × (exchange ring p settings_json hello_json current
            offset
            (Reply.waiting m)
            t
          ≡ ok m')
        × IsSampled ring m'
        × (ring.iter m'.latency_buf
            ≡ keep_last latency_samples (ring.iter m.latency_buf ++ (tv ∷ [])))
        × (micros tv +ℤ micros tv
            ≤ℤ offset
              +ℤ offset
              +ℤ pos (t.up_delay - t.down_delay + (t.down_delay - t.up_delay) + 1))
        × (offset +ℤ offset
            ≤ℤ micros tv
              +ℤ micros tv
              +ℤ pos (t.up_delay - t.down_delay + (t.down_delay - t.up_delay) + 1))
        × (t.up_delay ≡ t.down_delay → tv ≡ floor_micros offset)
  unfolding sent_at
  exchange_error m t sampled trip =
      let m1 = sent_at (Reply.waiting m) (pos t.sent_us) in
      let (tv, measured, above, below, exactly) =
        measure_error ring p m1
          (time_base t.reply_id m.pkt_id (from_micros (departure offset t))
            (from_micros (arrival offset t)))
          (pos t.sent_us) offset t.up_delay t.wait t.down_delay refl refl refl trip.sent_fits
          trip.arrival_fits trip.departure_fits trip.return_fits in
      let (m', recorded, sampled', known) =
        record_offset-IsSampled ring m1 tv
          (record { places = sampled.places; within = sampled.within }) in
      (
        m',
        tv,
        exchange-recorded m m' t tv trip.elapsed_fits trip.due trip.id_fits trip.reply_id_fits
            measured recorded,
        sampled',
        known,
        above,
        below,
        exactly,
      )
