-- ===== src/Proto/Time.antt =====
-- `Time` of src/proto.rs.
use snapcast_client.Prelude.{
  ℕ, ◌+◌, ◌≤◌, ◌<◌, ◌≡◌, refl, arith, leb, length, replicate, [], ◌++◌, drop, le→leb, lt→leb_false,
  append-nil,
}
use snapcast_client.Outcome.{Outcome, Error, ok, err, ◌>>=◌, ◌>>◌, ensure}
use snapcast_client.Bytes.{Bytes, slice}
use snapcast_client.Bytes.Slices.{slice_fits}
use snapcast_client.TimeVal
use snapcast_client.TimeVal.{TimeVal}
use snapcast_client.TimeVal.Micros.{IsTimeVal}
use snapcast_client.TimeVal.Wire.{write-as_buf, from_slice-as_buf, tv_at, tv_slice}
use snapcast_client.Proto.MessageType
use snapcast_client.Proto.Base
use snapcast_client.Proto.Base.{Base, base_size}
use snapcast_client.Proto.Base.RoundTrip.{header, write-header}

pub record Time : Type 0 where
  pub latency : TimeVal

abbrev pub wire_size : ℕ
wire_size = base_size + 8

unfoldable pub try_from : Bytes → Outcome Time
try_from buf = do
  ensure (leb 8 (length buf)) Error.short_time_payload
  latency ← slice 0 8 buf >>= TimeVal.from_slice
  ok (record { latency = latency })

-- The new contents of `out`, and the number of bytes that were written.
unfoldable pub write : Bytes → ℕ → ℕ → TimeVal → TimeVal → TimeVal → Outcome (Bytes × ℕ)
write out id refers_to sent_tv received_tv latency = do
  payload ← TimeVal.write latency (replicate 8 0)
  Base.write
      (record {
        mtype = MessageType.time;
        id = id;
        refers_to = refers_to;
        sent_tv = sent_tv;
        received_tv = received_tv;
        size = length payload;
      })
      out payload

unfoldable pub as_buf : ℕ → ℕ → TimeVal → TimeVal → TimeVal → Outcome Bytes
as_buf id refers_to sent_tv received_tv latency = do
  (buf, _) ← write (replicate wire_size 0) id refers_to sent_tv received_tv latency
  ok buf

-- The header of a Time message.
abbrev pub time_base : ℕ → ℕ → TimeVal → TimeVal → Base
time_base id refers_to sent_tv received_tv = record {
  mtype = MessageType.time;
  id = id;
  refers_to = refers_to;
  sent_tv = sent_tv;
  received_tv = received_tv;
  size = 8;
}

-- `write` puts a header and the latency at the front of a buffer of at least 34 bytes.
pub write_lem :
    (out : Bytes) (id refers_to : ℕ) (sent_tv received_tv latency : TimeVal)
    → wire_size ≤ length out
    → write out id refers_to sent_tv received_tv latency
      ≡ ok (
        header (time_base id refers_to sent_tv received_tv)
            ++ (TimeVal.as_buf latency ++ drop wire_size out),
        wire_size,
      )
unfolding write TimeVal.as_buf
write_lem out id refers_to sent_tv received_tv latency h =
    rw (write-as_buf latency (replicate 8 0) (omega arith))
      (write-header (time_base id refers_to sent_tv received_tv) out (TimeVal.as_buf latency) h)

pub as_buf_lem :
    (id refers_to : ℕ) (sent_tv received_tv latency : TimeVal)
    → as_buf id refers_to sent_tv received_tv latency
      ≡ ok (header (time_base id refers_to sent_tv received_tv) ++ TimeVal.as_buf latency)
unfolding as_buf
as_buf_lem id refers_to sent_tv received_tv latency = rw (
  write_lem (replicate wire_size 0) id refers_to sent_tv received_tv latency (omega arith),
  append-nil,
)

-- On every payload `Time::try_from` answers: an error below eight bytes, else the pair at its front.
pub try_from-eq :
    (buf : Bytes)
    → ((length buf < 8) → try_from buf ≡ err Error.short_time_payload)
      × (8 ≤ length buf → try_from buf ≡ ok (record { latency = tv_at 0 buf }))
unfolding try_from
try_from-eq buf = (
  λ short. rw (lt→leb_false 8 (length buf) short),
  λ long. rw (le→leb 8 (length buf) long, tv_slice 0 8 buf long refl),
)

pub try_from-as_buf :
    (tv : TimeVal) → IsTimeVal tv → try_from (TimeVal.as_buf tv) ≡ ok (record { latency = tv })
unfolding try_from TimeVal.as_buf
try_from-as_buf tv h =
    rw (slice_fits 0 8 (TimeVal.as_buf tv) (omega arith) (omega arith), from_slice-as_buf tv [] h)
