-- ===== src/Link.antt =====
-- A client machine and a server session joined by a network with delays, as in the tests of
-- src/server.rs: the request of `poll_transmit`, the session's answer, the writer's reply, and the
-- client's measurement.
pub mod Recovery
pub mod Trips
pub mod Convergence
pub mod Cast
pub mod Heard
pub mod Session
use snapcast_client.Prelude.{
  ℕ, ◌+◌, ℤ, pos, ◌+ℤ◌, Option, none, some, List, [], ◌∷◌, take, drop, replicate, true,
}
use snapcast_client.Outcome.{Outcome, Error, ok, err, panic, ◌>>=◌}
use snapcast_client.Word.{Profile}
use snapcast_client.Bytes.{Bytes}
use snapcast_client.TimeVal.{TimeVal, from_micros}
use snapcast_client.Proto.Base.{base_size}
use snapcast_client.Proto.Time.{wire_size}
use snapcast_client.Proto.Settings.{ServerSettings, SettingsJson}
use snapcast_client.Proto.Hello.{HelloJson}
use snapcast_client.Server
use snapcast_client.Server.{SessionOutput}
use snapcast_client.Server.Exchange
use snapcast_client.Net.Writer.{serialize}
use snapcast_client.Net.Reader.{answers}
use snapcast_client.Client.Offsets.{CircularBuffer}
use snapcast_client.Client.{ClientMachine, Message, poll_transmit}
use snapcast_client.Client.Reply

-- What travels in one exchange: sent at `sent_us` on the client's clock, then `up_delay`, `wait` and
-- `down_delay` microseconds. The writer's id is `reply_id`.
pub record Trip : Type 0 where
  pub sent_us : ℕ
  pub up_delay : ℕ
  pub wait : ℕ
  pub down_delay : ℕ
  pub reply_id : ℕ

-- A request that was not sent, or one with no answer: the exchange does not go on.
abbrev pub or_stop {ℓ} : {A : Type ℓ} → Option A → Outcome A
or_stop none = panic
or_stop (some a) = ok a

abbrev pub first {ℓ} : {A : Type ℓ} → List A → Option A
first [] = none
first (x ∷ _) = some x

-- When the request arrives, and when the reply is written, on a server's clock that is `offset` ahead.
abbrev pub arrival : ℤ → Trip → ℤ
arrival offset t = pos t.sent_us +ℤ offset +ℤ pos t.up_delay

abbrev pub departure : ℤ → Trip → ℤ
departure offset t = pos t.sent_us +ℤ offset +ℤ pos (t.up_delay + t.wait)

-- When the reply is back, on the client's clock.
abbrev pub return_us : Trip → ℤ
return_us t = pos t.sent_us +ℤ pos (t.up_delay + t.wait + t.down_delay)

module _ {B : Type 0} (ring : CircularBuffer B) (p : Profile) (settings_json : SettingsJson)
    (hello_json : HelloJson) (current : ServerSettings) (offset : ℤ) where
  -- One exchange between a client and a greeted session that both wait for a header.
  unfoldable pub exchange : ClientMachine B → Trip → Outcome (ClientMachine B)
  exchange m t = do
    (m1, out, sent) ← poll_transmit ring p m (pos t.sent_us) (replicate wire_size 0)
    n ← or_stop sent
    let request = take n out
    let now = from_micros (arrival offset t)
    let (session, answer) =
        Exchange.feed hello_json (Exchange.waiting true) (take base_size request)
          (drop base_size request) now now
    output ← answer
    msg ← or_stop (first (answers current output))
    reply ← serialize settings_json t.reply_id (from_micros (departure offset t)) msg
    let (m2, heard) =
        Reply.feed ring p settings_json m1 (take base_size reply) (drop base_size reply)
          (return_us t) (return_us t)
    message ← heard
    ok m2
