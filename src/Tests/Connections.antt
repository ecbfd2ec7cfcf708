-- ===== src/Tests/Connections.antt =====
-- The theorems on the reader of a connection at concrete inputs.
use snapcast_client.Prelude.{◌≡◌, refl, arith, inl, some, false, List, [], ◌∷◌}
use snapcast_client.Outcome.{ok}
use snapcast_client.Bytes.{Bytes, slice, slice_to_u16, slice_to_u32, slice_to_i32}
use snapcast_client.TimeVal
use snapcast_client.Framing
use snapcast_client.Proto.Base
use snapcast_client.Proto.Hello
use snapcast_client.Proto.MessageType
use snapcast_client.Proto.Message.{decode_c}
use snapcast_client.Server
use snapcast_client.Server.{hello}
use snapcast_client.Net.Registry.{Registry, new_handle, register, try_send, on_client}
use snapcast_client.Net.Connection.{Connection, Round, run_reader, on_output, unregister_mine, send}
use snapcast_client.Net.Connection.Safety.{NoPanic, run_reader-NoPanic}
use snapcast_client.Net.Connection.Leaving.{IsQuiet, IsLeft, run_reader_leaves}
use snapcast_client.Net.Connection.Second.{Has, second_hello_stays}
use snapcast_client.Tests.Fixtures
use snapcast_client.Tests.Fixtures.{hello_json, at}

abbrev undisturbed : Round
undisturbed = record {
  now = at 3 0;
  during_read = λ r. r;
  before_first = λ r. r;
  before_second = λ r. r;
  orphan_sends = false;
}

undisturbed-IsQuiet : IsQuiet undisturbed
undisturbed-IsQuiet = record {
  quiet_read = λ Q r h. h;
  quiet_first = λ Q r h. h;
  quiet_second = λ Q r h. h;
}

-- The header of a hello with six bytes, and these.
abbrev hello_bytes : Bytes
hello_bytes =
    5 ∷ 0 ∷ 0 ∷ 0 ∷ 0 ∷ 0 ∷ 0 ∷ 0 ∷ 0 ∷ 0 ∷ 0 ∷ 0 ∷ 0 ∷ 0 ∷ 0 ∷ 0 ∷ 0 ∷ 0 ∷ 0 ∷ 0 ∷ 0 ∷ 0 ∷ 6 ∷ 0
    ∷ 0 ∷ 0 ∷ 2 ∷ 0 ∷ 0 ∷ 0 ∷ 123 ∷ 125 ∷ []

abbrev rounds : List Round
rounds = undisturbed ∷ undisturbed ∷ undisturbed ∷ []

-- A registry with one client, of the id 4.
abbrev one_client : Registry
one_client = record { clients = (4, new_handle) ∷ []; volume = 50; next_id = 5; buffer_ms = 1000 }

run_reader-NoPanic_example : NoPanic (run_reader hello_json rounds one_client hello_bytes).1
run_reader-NoPanic_example = run_reader-NoPanic hello_json rounds one_client hello_bytes

run_reader_leaves_example :
    IsLeft (λ id. id ≡ 4) hello_json (run_reader hello_json rounds one_client hello_bytes)
run_reader_leaves_example =
    run_reader_leaves (λ id. id ≡ 4) hello_json rounds one_client hello_bytes
      (undisturbed-IsQuiet, (undisturbed-IsQuiet, (undisturbed-IsQuiet, tt))) (refl, tt)

-- A connection whose first hello registered that client.
abbrev greeted : Connection
greeted = record { session = Server.new; my_id = some 4; my_tx = some 4; registered = 4 ∷ [] }

second_answered : (on_output undisturbed greeted one_client (hello Fixtures.hello)).1 ≡ ok tt
unfolding on_output register on_client send try_send
second_answered = refl

second_hello_stays_example :
    Has 4
      (unregister_mine hello_json
        (on_output undisturbed greeted one_client (hello Fixtures.hello)).0.0.my_id
        (on_output undisturbed greeted one_client (hello Fixtures.hello)).0.1).clients
second_hello_stays_example =
    second_hello_stays 4 undisturbed (λ r h. h) (λ r h. h) hello_json greeted one_client
      Fixtures.hello (inl refl) (omega arith) second_answered

-- A whole connection: it registers the id 5 and unregisters it when the client has closed.
hello_registers : (run_reader hello_json rounds one_client hello_bytes).0.0.registered ≡ 5 ∷ []
unfolding run_reader Server.next_action Framing.next_action Server.handle_event Framing.on_header
    Base.try_from slice slice_to_u16 slice_to_u32 slice_to_i32 MessageType.try_from
    TimeVal.from_slice Framing.take_base decode_c Hello.try_from on_output register send try_send
    on_client
hello_registers = refl
