-- ===== src/Client/Connected.antt =====
-- `ConnectedClient` of src/client.rs: the loop that drives a `ClientMachine` over a connection. The
-- bytes that arrive are an argument beside the client, and so is what the clock reads.
pub mod Transmits
pub mod Reads
pub mod Queue
pub mod Delivery
use snapcast_client.Prelude.{
  ℕ, zero, suc, ◌+◌, ◌-◌, ◌%◌, ◌^◌, Bool, true, false, if◌then◌else◌, leb, ◌==◌, Option, none, some,
  List, [], ◌∷◌, ◌++◌, length, take, drop, replicate, ℤ, pos,
}
use snapcast_client.Outcome.{Outcome, Error, ok, err, panic, stuck, ◌>>=◌}
use snapcast_client.Word.{Profile}
use snapcast_client.Bytes.{Bytes}
use snapcast_client.TimeVal.{TimeVal}
use snapcast_client.Proto.Base.{base_size}
use snapcast_client.Proto.Time.{wire_size}
use snapcast_client.Proto.Hello
use snapcast_client.Proto.Hello.{ClientHello, HelloJson}
use snapcast_client.Proto.Settings.{SettingsJson}
use snapcast_client.Framing.{Action, read_header, read_packet, header_received, packet_received}
use snapcast_client.Client
use snapcast_client.Client.{
  ClientMachine, Message, nothing, next_action, handle_event, poll_transmit, synchronized,
}
use snapcast_client.Client.Offsets.{CircularBuffer}

-- The bytes that arrive on the connection, in bursts: between one and the next the read timeout
-- passes, and after the last the peer has closed.
abbrev pub Incoming : Type 0
Incoming = List Bytes

pub data Read : Type 0 where
  filled : Bytes → Read
  would_block : Read
  failed : Read

-- A read that does not get all its bytes has consumed those that were there.
abbrev pub cut_short : Incoming → Read × Incoming
cut_short [] = (failed, [])
cut_short (burst ∷ later) = (would_block, burst ∷ later)

-- `read_exact` of a `TcpStream` with a read timeout.
unfoldable pub read_exact : ℕ → Incoming → Read × Incoming
read_exact n [] = (if n == 0 then filled [] else failed, [])
read_exact n (burst ∷ later) =
    if leb n (length burst) then (filled (take n burst), drop n burst ∷ later) else cut_short later

-- `sent` is what was written to the connection; `is_open` tells whether writes succeed.
pub record ConnectedClient (B : Type 0) : Type 0 where
  pub machine : ClientMachine B
  pub tx_buf : Bytes
  pub sent : Bytes
  pub is_open : Bool

unfoldable pub write_all : {B : Type 0} → Bytes → ConnectedClient B → Outcome (ConnectedClient B)
write_all bytes c =
    if c.is_open then ok (record c { sent = c.sent ++ bytes }) else err Error.connection_failed

-- The hello of a client, with the target's architecture and operating system: its name is "CoolClient"
-- and its version "0.17.1".
abbrev pub client_hello : Bytes → Bytes → Bytes → Bytes → ClientHello
client_hello arch os mac hostname = record {
  mac = mac;
  host_name = hostname;
  version = 48 ∷ 46 ∷ 49 ∷ 55 ∷ 46 ∷ 49 ∷ [];
  client_name = 67 ∷ 111 ∷ 111 ∷ 108 ∷ 67 ∷ 108 ∷ 105 ∷ 101 ∷ 110 ∷ 116 ∷ [];
  os = os;
  arch = arch;
  instance_number = 1;
  id = mac;
  snap_stream_protocol_version = 2;
}

module _ {B : Type 0} (ring : CircularBuffer B) where
  unfoldable pub new : Bool → ConnectedClient B
  new is_open = record {
    machine = Client.new ring;
    tx_buf = replicate wire_size 0;
    sent = [];
    is_open = is_open;
  }

  -- `Client::connect`: the hello is written at once.
  unfoldable pub connect :
      HelloJson → Bytes → Bytes → Bytes → Bytes → Bool → Outcome (ConnectedClient B)
  unfolding new write_all
  connect json arch os mac hostname is_open = do
    bytes ← Hello.as_buf json (client_hello arch os mac hostname)
    write_all bytes (new is_open)

  module _ (p : Profile) where
    -- The `while let` loop of `tick`, on fuel.
    pub transmit : ℕ → ConnectedClient B → ℤ → Outcome (ConnectedClient B)
    transmit zero c tx_now = stuck
    transmit (suc fuel) c tx_now = do
      (machine, tx_buf, sent) ← poll_transmit ring p c.machine tx_now c.tx_buf
      let c1 = record c { machine = machine; tx_buf = tx_buf }
      elim sent [
        | none ↦ ok c1
        | some n ↦ write_all (take n tx_buf) c1 >>= λ c2. transmit fuel c2 tx_now
      ]

    -- What a tick gives: the client, its message, and the bytes that are still to come.
    abbrev pub Ticked : Type 0
    Ticked = (ConnectedClient B × Message) × Incoming

    -- The client with the machine after an event, and the message of that.
    abbrev pub with_message :
        ConnectedClient B
        → ClientMachine B × Outcome Message
        → Outcome (ConnectedClient B × Message)
    with_message c (machine, outcome) = outcome >>= λ msg. ok (record c { machine = machine }, msg)

    module _ (json : SettingsJson) (tx_now rx_now : ℤ) where
      abbrev pub on_header_read :
          (ConnectedClient B → Incoming → Outcome Ticked)
          → ConnectedClient B
          → Read × Incoming
          → Outcome Ticked
      on_header_read again c (filled bytes, incoming) =
          with_message c (handle_event ring p json c.machine (header_received bytes) tx_now)
          >>= λ r. again r.0 incoming
      on_header_read again c (would_block, incoming) = ok ((c, nothing), incoming)
      on_header_read again c (failed, incoming) = err Error.connection_failed

      abbrev pub on_packet_read : ConnectedClient B → Read × Incoming → Outcome Ticked
      on_packet_read c (filled bytes, incoming) =
          with_message c (handle_event ring p json c.machine (packet_received bytes) rx_now)
          >>= λ r. ok (r, incoming)
      on_packet_read c (would_block, incoming) = ok ((c, nothing), incoming)
      on_packet_read c (failed, incoming) = err Error.connection_failed

      -- The `loop` of `tick`, on fuel.
      pub read_loop : ℕ → ConnectedClient B → Incoming → Outcome Ticked
      read_loop zero c incoming = stuck
      read_loop (suc fuel) c incoming = elim (next_action c.machine) [
        | read_header ↦ on_header_read (read_loop fuel) c (read_exact base_size incoming)
        | read_packet size ↦ on_packet_read c (read_exact size incoming)
      ]

      -- Two rounds are enough for each loop: after a request none is due, and after a header a packet
      -- is read.
      unfoldable pub tick : ConnectedClient B → Incoming → Outcome Ticked
      unfolding transmit read_loop
      tick c incoming = transmit 2 c tx_now >>= λ c1. read_loop 2 c1 incoming
