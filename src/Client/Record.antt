-- ===== src/Client/Record.antt =====
-- The offsets that `process_packet` of src/client.rs records, and the clock offset it takes from them.
use snapcast_client.Prelude.{
  ℕ, ◌+◌, ◌-◌, ◌/◌, ◌≤◌, ◌<◌, ◌≡◌, refl, sym, ap, ◌∙◌, arith, true, false, le→leb, eq→==, min, List,
  [], ◌∷◌, ◌++◌, length, drop, get_or, length-append, length-drop, append-nil, All,
}
use mathlib.Core.List.{Perm}
use snapcast_client.Outcome.{ok}
use snapcast_client.TimeVal.{TimeVal, leb_tv, tv_zero}
use snapcast_client.Bytes.Slices.{get_or-drop}
use snapcast_client.TimeVal.Order.{leb_tv_total}
use snapcast_client.Client.Offsets.{
  CircularBuffer, latency_samples, keep_last, insert, sort, median,
}
use snapcast_client.Client.{ClientMachine, record_offset, synchronized, new}
use snapcast_client.Client.Median.{
  IsSorted, sort-IsSorted, sort-perm, length-sort, All-sort, overwrite-eq, get_elem?-get_or,
  All-get_or, drop-all,
}

module _ {B : Type 0} (ring : CircularBuffer B) where
  -- The sorted copy has its twenty places, and the buffer does not hold more.
  pub record IsSampled (m : ClientMachine B) : Type 0 where
    pub places : length m.sorted_latency_buf ≡ latency_samples
    pub within : length (ring.iter m.latency_buf) ≤ latency_samples

  pub new-IsSampled : IsSampled (new ring)
  unfolding new
  new-IsSampled = record { places = refl; within = rw (ring.iter-empty) (omega arith) }

  -- The offsets that are known after one more.
  pub samples : ClientMachine B → TimeVal → List TimeVal
  samples m offset = keep_last latency_samples (ring.iter m.latency_buf ++ (offset ∷ []))

  length-samples :
      (m : ClientMachine B) (offset : TimeVal)
      → length (samples m offset) ≡ min latency_samples (length (ring.iter m.latency_buf) + 1)
  unfolding samples
  length-samples m offset = omega (
    arith,
    length-drop (length (ring.iter m.latency_buf ++ (offset ∷ [])) - latency_samples)
        (ring.iter m.latency_buf ++ (offset ∷ [])),
    length-append (ring.iter m.latency_buf) (offset ∷ []),
  )

  -- The sorted copy after one more offset.
  pub filled : ClientMachine B → TimeVal → List TimeVal
  filled m offset = samples m offset ++ drop (length (samples m offset)) m.sorted_latency_buf

  length-filled :
      (m : ClientMachine B) (offset : TimeVal)
      → IsSampled m
      → length (filled m offset) ≡ latency_samples
  unfolding filled
  length-filled m offset h = omega (
    arith,
    length-append (samples m offset) (drop (length (samples m offset)) m.sorted_latency_buf),
    length-drop (length (samples m offset)) m.sorted_latency_buf,
    length-samples m offset,
  )

  -- The place of the median in the sorted copy.
  pub middle : ClientMachine B → TimeVal → ℕ
  middle m offset = latency_samples - length (samples m offset) + length (samples m offset) / 2

  -- The machine after one more offset.
  unfoldable pub after : ClientMachine B → TimeVal → ClientMachine B
  after m offset = record m {
    latency_buf = ring.push_back m.latency_buf offset;
    sorted_latency_buf = sort (filled m offset);
    clock_offset = get_or (sort (filled m offset)) (middle m offset) tv_zero;
  }

  iter-push :
      (m : ClientMachine B) (offset : TimeVal)
      → ring.iter (ring.push_back m.latency_buf offset) ≡ samples m offset
  unfolding samples
  iter-push m offset = ring.iter-push_back m.latency_buf offset

  median-eq :
      (sorted : List TimeVal) (count : ℕ)
      → length sorted ≡ latency_samples
      → 0 < count
      → count ≤ latency_samples
      → median sorted count ≡ ok (get_or sorted (latency_samples - count + count / 2) tv_zero)
  unfolding median
  median-eq sorted count e pos_count le = rw (
    le→leb count (length sorted) (omega arith),
    get_elem?-get_or nz (length nz / 2) (omega (arith, length-nz)),
    get_or-drop (length sorted - count) (length nz / 2) sorted tv_zero,
    length-nz,
    e,
  )
    where
      nz : List TimeVal
      nz = drop (length sorted - count) sorted

      length-nz : length nz ≡ count
      length-nz = omega (arith, length-drop (length sorted - count) sorted)

  pub record_offset-after :
      (m : ClientMachine B) (offset : TimeVal)
      → IsSampled m
      → record_offset ring m offset ≡ ok (after m offset)
  unfolding record_offset after filled middle
  record_offset-after m offset h = rw (
    iter-push m offset,
    overwrite-eq (samples m offset) m.sorted_latency_buf (omega (arith, length-samples m offset)),
    median-eq (sort (filled m offset)) (length (samples m offset))
        (length-sort (filled m offset) ∙ length-filled m offset h)
        (omega (arith, length-samples m offset)) (omega (arith, length-samples m offset)),
  )

  pub after-IsSampled :
      (m : ClientMachine B) (offset : TimeVal) → IsSampled m → IsSampled (after m offset)
  unfolding after
  after-IsSampled m offset h = record {
    places = length-sort (filled m offset) ∙ length-filled m offset h;
    within = rw (iter-push m offset) (omega (arith, length-samples m offset));
  }

  -- On a machine with twenty places in its sorted copy and at most twenty offsets, which a new one
  -- is, one more offset is always recorded: neither an index nor a subtraction of lengths panics,
  -- and the machine that comes out is such a machine again, whose buffer holds the last twenty
  -- offsets.
  pub record_offset-IsSampled :
      (m : ClientMachine B) (offset : TimeVal)
      → IsSampled m
      → (m' : ClientMachine B) × (record_offset ring m offset ≡ ok m')
        × IsSampled m'
        × (ring.iter m'.latency_buf
            ≡ keep_last latency_samples (ring.iter m.latency_buf ++ (offset ∷ [])))
  unfolding after samples
  record_offset-IsSampled m offset h = (
    after m offset,
    record_offset-after m offset h,
    after-IsSampled m offset h,
    iter-push m offset,
  )

  -- On a machine with twenty places in its sorted copy and at most twenty offsets, once nineteen
  -- offsets are known and one more is recorded, the machine is synchronized, its sorted copy is the
  -- last twenty offsets in order, and the clock offset is the one at place 10 of these.
  pub record_offset-median :
      (m : ClientMachine B) (offset : TimeVal)
      → IsSampled m
      → 19 ≤ length (ring.iter m.latency_buf)
      → (m' : ClientMachine B) × (record_offset ring m offset ≡ ok m')
        × (synchronized ring m' ≡ true)
        × Perm m'.sorted_latency_buf (ring.iter m'.latency_buf)
        × IsSorted m'.sorted_latency_buf
        × (m'.clock_offset ≡ get_or m'.sorted_latency_buf 10 tv_zero)
  unfolding after synchronized
  record_offset-median m offset h known = (
    after m offset,
    record_offset-after m offset h,
    eq→== (length (ring.iter (ring.push_back m.latency_buf offset)))
        (length (sort (filled m offset)))
        (ap length (iter-push m offset)
          ∙ full
          ∙ sym (length-sort (filled m offset) ∙ length-filled m offset h)),
    rw (iter-push m offset) (rw (← filled_full) (sort-perm (filled m offset))),
    sort-IsSorted (filled m offset),
    ap (λ k. get_or (sort (filled m offset)) k tv_zero) (unfold middle in omega (arith, full)),
  )
    where
      full : length (samples m offset) ≡ latency_samples
      full = omega (arith, length-samples m offset)

      filled_full : filled m offset ≡ samples m offset
      filled_full =
          unfold filled in
          ap (λ r. samples m offset ++ r)
            (drop-all m.sorted_latency_buf (length (samples m offset))
              (omega (arith, full, h.places)))
          ∙ append-nil (samples m offset)

  -- On a machine with twenty places in its sorted copy and nineteen or twenty offsets, whatever
  -- holds of each of the last twenty with one more holds of the clock offset that is then taken, so
  -- the clock offset lies in every range in which the twenty lie.
  pub record_offset-All {κ} :
      (P : TimeVal → Type κ) (m : ClientMachine B) (offset : TimeVal)
      → IsSampled m
      → 19 ≤ length (ring.iter m.latency_buf)
      → All P (keep_last latency_samples (ring.iter m.latency_buf ++ (offset ∷ [])))
      → (m' : ClientMachine B) × (record_offset ring m offset ≡ ok m') × P m'.clock_offset
  unfolding after
  record_offset-All P m offset h known all = (
    after m offset,
    record_offset-after m offset h,
    All-get_or P (sort (filled m offset)) (middle m offset)
        (unfold middle in
          omega (arith, full, length-sort (filled m offset), length-filled m offset h))
        (All-sort P (filled m offset) (rw filled_full (unfold samples in all))),
  )
    where
      full : length (samples m offset) ≡ latency_samples
      full = omega (arith, length-samples m offset)

      filled_full : filled m offset ≡ samples m offset
      filled_full =
          unfold filled in
          ap (λ r. samples m offset ++ r)
            (drop-all m.sorted_latency_buf (length (samples m offset))
              (omega (arith, full, h.places)))
          ∙ append-nil (samples m offset)

  -- The first offset of a new machine is not its own median when it is below zero: the zeros of the
  -- unfilled places are sorted behind it, and the clock offset is zero.
  pub first_offset_lost :
      (offset : TimeVal)
      → leb_tv tv_zero offset ≡ false
      → (m' : ClientMachine B) × (record_offset ring (new ring) offset ≡ ok m')
        × (ring.iter m'.latency_buf ≡ offset ∷ [])
        × (m'.clock_offset ≡ tv_zero)
  unfolding after
  first_offset_lost offset below = (
    after (new ring) offset,
    record_offset-after (new ring) offset new-IsSampled,
    iter-push (new ring) offset ∙ one,
    unfold filled middle new in
        rw one (unfold sort insert in rw (leb_tv_total tv_zero offset below)),
  )
    where
      one : samples (new ring) offset ≡ offset ∷ []
      one = unfold samples new in rw (ring.iter-empty)
