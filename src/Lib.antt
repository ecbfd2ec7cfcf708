-- ===== src/Lib.antt =====
-- A Snapcast client and server in Rust: the wire protocol, the two protocol machines, and a client
-- and a server that exchange messages with them.
--
-- Parts of the program, and the files that model them:
--   src/proto.rs       TimeVal (time values), Bytes (reads and writes of byte slices),
--                      Proto.MessageType, Proto.Base (the header of 26 bytes), Proto.Time, Proto.WireChunk,
--                      Proto.Codec, Proto.Settings, Proto.Hello, Proto.Message (decode and decode_c)
--   src/framing.rs     Framing: a header announces the length of the payload that follows it
--   src/server.rs      Server: ServerSession, one connected client seen from the server
--   src/client.rs      Client: ClientMachine, Client.Offsets, its buffer of clock offsets, and Client.Connected,
--                      the loop that drives it over a connection
--   server/src/net.rs  Net.Writer (run_writer), Net.Connection (run_reader and reader_loop), Net.Reader
--                      (the answers of reader_loop), and Net.Registry (the registered clients and their queues)
--   server/src/pipeline.rs  Pipeline: samples become paced, encoded chunks
--   server/src/sink.rs      Sink: the player's packets go to the pipeline; and the volume events of
--                      server/src/spotify.rs
--   src/decoder.rs     Decoder (the three decoders)
--   src/playback       Playback (the four back ends)
--   src/main.rs        Program: the loop over the messages, and the playback thread
--   src/mdns.rs        Mdns (build_query, skip_name, parse_response), Mdns.Discover (discover), and
--                      Mdns.Response, a writer of the messages that are parsed
-- Link joins a client machine, a network with delays, a session, the reader's answer and the writer
-- (Link.Trips a sequence of exchanges, Link.Cast what is sent after them, Link.Heard the way of a chunk to the
-- player, Link.Session all of it).
-- Prelude holds the shared names, lists over native numbers and integers; Word the machine integers;
-- Outcome what a call comes to. Tests holds the examples.
--
-- How they correspond. A struct is a record with its fields in the source's order, an enum a data type, and a
-- method a function of the same name; a From impl for bytes is from_slice, and a TryFrom impl is try_from. A method
-- that changes self gives the new value, beside its outcome where a call that fails leaves a changed
-- state. An Outcome is a value (ok), an anyhow error (err), a panic, or stuck, which is no Rust value: a
-- loop of the model without fuel. Reads of a clock are arguments. A large handler is cut at its match, and each
-- arm is a function (process_packet: on_message, on_time, on_wire_chunk, on_settings).
--
-- Bounds and fuel. An integer type has its range (IsU16, IsI32, ...), and i32 and i64 do what arithmetic
-- does in the two profiles: debug panics where it overflows, release wraps around. An `as` cast
-- wraps. A usize has 64 bits. Each loop of normalize tests at most 2149 times, since an i32 count of
-- microseconds is less than 2148 seconds from 0; normalize_fuel is that. The walk over a name of a response tests at most once for each byte and once beyond.
-- Where theorems speak of clocks, these are below 2 ^ 28 seconds, some eight years, from
-- their start.
--
-- Parameters. The crate circular-buffer is CircularBuffer: push_back appends and drops the front when
-- full, and iter goes from front to back. rubato and audiopus are Pipeline.Codecs, opus_embedded
-- and claxon Decoder.Crates, alsa and libpulse Playback.SoundApis. serde_json is SettingsJson and HelloJson. Sorting is an insertion
-- sort in place of the standard library's, which gives the same list, as equal pairs are the same.
--
-- Threads share the registry of the server and the decoder and player of the client. A thread is a
-- function or a relation on what it shares, and what the others do to that between its calls is an
-- argument of its rounds (Net.Connection.Round, Program.Received) or a step (Net.Registry.Bounds.Step). The
-- pipeline finds the registry as its last broadcast left it.
--
-- Not modelled: the inside of sockets, of the codecs and the resampler and of the sound systems, the
-- sessions of librespot, the sine source, the command lines, the advertisement, the accept loop and
-- the log. What a failing call leaves in a pipeline is not modelled either.
pub mod Prelude
pub mod Outcome
pub mod Word
pub mod Bytes
pub mod TimeVal
pub mod Proto
pub mod Framing
pub mod Server
pub mod Client
pub mod Net
pub mod Pipeline
pub mod Decoder
pub mod Playback
pub mod Program
pub mod Sink
pub mod Mdns
pub mod Link
pub mod Tests
