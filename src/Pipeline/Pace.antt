-- ===== src/Pipeline/Pace.antt =====
-- The instants at which `pace` of server/src/pipeline.rs presents the chunks.
use snapcast_client.Prelude.{
  ℕ, zero, suc, ◌+◌, ◌*◌, ◌^◌, ◌≤◌, ◌≡◌, refl, ap, arith, Bool, true, false, some, Bool-cases, inl,
  inr, ℤ, pos, pos_part, neg_part, ◌+ℤ◌, ◌-ℤ◌, ◌*ℤ◌, ◌≤ℤ◌, ltb_ℤ, ltb_false→le, ltb→lt, int_laws,
}
use snapcast_client.Outcome.{ok}
use snapcast_client.Word.{Profile, IsI64, i64_fits}
use snapcast_client.Pipeline.{Pipeline, Codecs, anchor, pace, catch_up, sleep_us}

-- What the clock reads is within 2 ^ 60 microseconds.
abbrev pub IsReading : ℤ → Type 0
IsReading us = (pos_part us ≤ 2 ^ 60) × (neg_part us ≤ 2 ^ 60)

mul_bound : (n c : ℕ) → c ≤ 60000 → n * c ≤ n * 60000
mul_bound zero c h = omega arith
mul_bound (suc n) c h = omega (arith, mul_bound n c h)

mul_pos : (n c : ℕ) → pos n *ℤ pos c ≡ pos (n * c)
unfolding ◌*ℤ◌
mul_pos n c = ground arith

-- A chunk's length later.
pub due_next : (us a : ℤ) (n c : ℕ) → us ≡ a +ℤ pos (n * c) → us +ℤ pos c ≡ a +ℤ pos ((n + 1) * c)
due_next us a n c e = omega (int_laws, ap pos_part e, ap neg_part e)

module _ {S R E : Type 0} (codecs : Codecs S R E) where
  -- The next chunk is due at `due`, and there is room for the count of `room` more.
  abbrev pub IsDue : (ℕ → ℤ) → ℕ → Pipeline S R E → ℤ → Type 0
  IsDue clock room s due =
      (n : ℕ) × (s.chunks_since_anchor ≡ pos n)
      × (n + room ≤ 2 ^ 40)
      × (s.chunk_ms ≤ 60)
      × IsReading (anchor clock s.t0_us s.clock_reads).0
      × (due ≡ (anchor clock s.t0_us s.clock_reads).0 +ℤ pos (n * (s.chunk_ms * 1000)))

  module _ (p : Profile) (clock : ℕ → ℤ) (instants : ℕ → ℕ → ℕ × ℕ) where
    -- Only the anchor, the count and the readings of `s` are replaced.
    abbrev pub repaced : Pipeline S R E → Pipeline S R E → Pipeline S R E
    repaced s s' = record s {
      t0_us = s'.t0_us;
      chunks_since_anchor = s'.chunks_since_anchor;
      clock_reads = s'.clock_reads;
    }

    -- What `pace` gives when the next chunk is due at `due`.
    abbrev pub IsPaced : ℕ → Pipeline S R E → ℤ → Pipeline S R E × (ℤ × ℤ) → Type 0
    IsPaced room s due (s', (target, slept)) =
        IsDue clock room s' target
        × (due ≤ℤ target)
        × (clock (anchor clock s.t0_us s.clock_reads).1 -ℤ target ≤ℤ pos (s.chunk_ms * 1000))
        × (target ≤ℤ clock ((anchor clock s.t0_us s.clock_reads).1 + 1) +ℤ slept)
        × (s' ≡ repaced s s')

    sleep_us_fits :
        (target now : ℤ)
        → IsI64 (target -ℤ now)
        → (slept : ℤ) × (sleep_us codecs p clock instants target now ≡ ok slept)
          × (target ≤ℤ now +ℤ slept)
    sleep_us_fits target now fits = elim (Bool-cases (ltb_ℤ now target)) [
      | inl before ↦ (target -ℤ now, rw (before) (i64_fits p (target -ℤ now) fits), omega int_laws)
      | inr after ↦ (pos 0, rw after refl, let le = ltb_false→le _ _ after in omega int_laws)
    ]

    -- The anchor, and how often the clock was read by then.
    abbrev start : Pipeline S R E → ℤ × ℕ
    start s = anchor clock s.t0_us s.clock_reads

    abbrev chunk_us : Pipeline S R E → ℕ
    chunk_us s = s.chunk_ms * 1000

    abbrev caught_up : Pipeline S R E → ℤ → Bool → Pipeline S R E × ℤ
    caught_up s due late =
        catch_up codecs p clock instants
          (record s { t0_us = some (start s).0; clock_reads = (start s).1 + 2 }) due
          (clock (start s).1) late

    pace-eq :
        (s : Pipeline S R E) (n : ℕ) (due : ℤ)
        → s.chunks_since_anchor ≡ pos n
        → due ≡ (start s).0 +ℤ pos (n * chunk_us s)
        → IsI64 (pos (n * chunk_us s))
        → IsI64 due
        → IsI64 (clock (start s).1 -ℤ due)
        → (late : Bool) → ltb_ℤ (pos (chunk_us s)) (clock (start s).1 -ℤ due) ≡ late
        → (slept : ℤ)
        → sleep_us codecs p clock instants (caught_up s due late).1 (clock ((start s).1 + 1))
          ≡ ok slept
        → pace codecs p clock instants s
          ≡ ok ((caught_up s due late).0, ((caught_up s due late).1, slept))
    unfolding pace
    pace-eq s n due count e h1 h2 h3 true eq slept hs =
        rw
          (
            count,
            mul_pos n (chunk_us s),
            i64_fits p _ h1,
            ← e,
            i64_fits p due h2,
            i64_fits p _ h3,
            eq,
            hs,
          )
          refl
    pace-eq s n due count e h1 h2 h3 false eq slept hs =
        rw
          (
            count,
            mul_pos n (chunk_us s),
            i64_fits p _ h1,
            ← e,
            i64_fits p due h2,
            i64_fits p _ h3,
            eq,
            hs,
          )
          refl

    caught_up_kept :
        (s : Pipeline S R E) (due : ℤ) (late : Bool)
        → (caught_up s due late).0 ≡ repaced s (caught_up s due late).0
    caught_up_kept s due true = refl
    caught_up_kept s due false = refl

    pace_late :
        (room : ℕ) (s : Pipeline S R E) (due : ℤ)
        → ((k : ℕ) → IsReading (clock k))
        → IsDue clock room s due
        → (late : Bool) → ltb_ℤ (pos (chunk_us s)) (clock (start s).1 -ℤ due) ≡ late
        → IsI64 ((caught_up s due late).1 -ℤ clock ((start s).1 + 1))
          × IsDue clock room (caught_up s due late).0 (caught_up s due late).1
          × (due ≤ℤ (caught_up s due late).1)
          × (clock (start s).1 -ℤ (caught_up s due late).1 ≤ℤ pos (chunk_us s))
    pace_late room s due readings (n, count, small, ms, anchored, e) true eq =
        let now = clock (start s).1 in
        let after = clock ((start s).1 + 1) in
        (
          omega (int_laws, readings (start s).1, readings ((start s).1 + 1)),
          (0, refl, omega arith, ms, readings (start s).1, omega int_laws),
          let lt = ltb→lt _ _ eq in omega int_laws,
          omega int_laws,
        )
    pace_late room s due readings (n, count, small, ms, anchored, e) false eq =
        let bound = mul_bound n (chunk_us s) (omega arith) in
        (
          omega (int_laws, ap pos_part e, ap neg_part e, readings ((start s).1 + 1)),
          (n, count, small, ms, anchored, e),
          omega int_laws,
          let le = ltb_false→le _ _ eq in omega int_laws,
        )

    -- While the clock reads times within 2 ^ 60 microseconds and at most 2 ^ 40 chunks follow an
    -- anchor, `pace` gives a target in both profiles. It is not before the instant that was due, at
    -- most a chunk before the reading, and not after the end of the sleep; a chunk's length after
    -- the target the next one is due; and nothing else of the pipeline is changed.
    pub pace_due :
        (room : ℕ) (s : Pipeline S R E) (due : ℤ)
        → ((k : ℕ) → IsReading (clock k))
        → IsDue clock room s due
        → (r : Pipeline S R E × (ℤ × ℤ)) × (pace codecs p clock instants s ≡ ok r)
          × IsPaced room s due r
    pace_due room s due readings (n, count, small, ms, anchored, e) =
        let late = ltb_ℤ (pos (chunk_us s)) (clock (start s).1 -ℤ due) in
        let bound = mul_bound n (chunk_us s) (omega arith) in
        let r = caught_up s due late in
        let (fits, next, kept, soon) =
          pace_late room s due readings (n, count, small, ms, anchored, e) late refl in
        let (slept, hs, awake) = sleep_us_fits r.1 (clock ((start s).1 + 1)) fits in
        (
          (r.0, (r.1, slept)),
          pace-eq s n due count e (omega arith) (omega (int_laws, ap pos_part e, ap neg_part e))
              (omega (int_laws, ap pos_part e, ap neg_part e, readings (start s).1)) late refl slept
              hs,
          (next, kept, soon, awake, caught_up_kept s due late),
        )
