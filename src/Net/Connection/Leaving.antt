-- ===== src/Net/Connection/Leaving.antt =====
-- Which clients a connection of server/src/net.rs leaves in the registry when it ends.
use snapcast_client.Prelude.{
  ℕ, ◌≡◌, ◌≢◌, refl, sym, ◌∙◌, Bool, true, false, Bool-cases, inl, inr, ◌⊎◌, Option, none, some,
  List, [], ◌∷◌, All, length, take, drop, leb, first, ◌==◌, eq→==,
}
use snapcast_client.Outcome.{Outcome, ok, err, panic, stuck}
use snapcast_client.Bytes.{Bytes}
use snapcast_client.Proto.Hello.{HelloJson}
use snapcast_client.Framing.{Action, read_header, read_packet, header_received, packet_received}
use snapcast_client.Server.{ServerSession, SessionOutput, handle_event, next_action}
use snapcast_client.Net.Writer.{Outbound, settings, codec_header, time_reply}
use snapcast_client.Net.Registry.{
  Registry, Clients, ClientHandle, Sent, accepted, full, disconnected, register, unregister, remove,
  update, on_client, current_settings, try_send, sent_blocking,
}
use snapcast_client.Net.Registry.Bounds.{remove-All}
use snapcast_client.Net.Connection.Current.{SendFailed, IsCurrent, reader_loop-IsCurrent}
use snapcast_client.Net.Connection.{
  Connection, Round, Stepped, find, sent_to, send_to, send, after_send, on_output, welcome,
  send_codec, on_time_request, with_output, wanted, on_bytes, next_round, reader_loop, connected,
  run_reader, unregister_mine,
}

-- Every registered id has the property.
abbrev pub Ids : (ℕ → Type 0) → Registry → Type 0
Ids Q r = All (λ c. Q c.0) r.clients

-- The other threads may take clients away and change their queues, and add none.
abbrev pub AddsNone : (Registry → Registry) → Type 1
AddsNone f = (Q : ℕ → Type 0) (r : Registry) → Ids Q r → Ids Q (f r)

pub record IsQuiet (m : Round) : Type 1 where
  pub quiet_read : AddsNone m.during_read
  pub quiet_first : AddsNone m.before_first
  pub quiet_second : AddsNone m.before_second

abbrev pub Among : ℕ → List ℕ → Type 0
Among id [] = ⊥
Among id (x ∷ xs) = (id ≡ x) ⊎ Among id xs

All-map :
    (Q R : ℕ → Type 0) (cs : Clients)
    → ((id : ℕ) → Q id → R id)
    → All (λ c. Q c.0) cs
    → All (λ c. R c.0) cs
All-map Q R [] f h = tt
All-map Q R (c ∷ cs) f h = (f c.0 h.0, All-map Q R cs f h.1)

update-All :
    (Q : ℕ → Type 0) (id : ℕ) (f : ClientHandle → ClientHandle) (cs : Clients)
    → All (λ c. Q c.0) cs
    → All (λ c. Q c.0) (update id f cs)
unfolding update
update-All Q id f [] h = tt
update-All Q id f (c ∷ cs) h = elim (Bool-cases (c.0 == id)) [
  | inl same ↦ rw same (h.0, update-All Q id f cs h.1)
  | inr other ↦ rw other (h.0, update-All Q id f cs h.1)
]

-- An id that is removed is gone, and the others keep their property.
remove-gone :
    (Q : ℕ → Type 0) (id : ℕ) (cs : Clients)
    → All (λ c. Q c.0) cs
    → All (λ c. Q c.0 × (id ≢ c.0)) (remove id cs)
unfolding remove
remove-gone Q id [] h = tt
remove-gone Q id (c ∷ cs) h = elim (Bool-cases (c.0 == id)) [
  | inl same ↦ rw same (remove-gone Q id cs h.1)
  | inr other ↦ rw other ((h.0, differs other), remove-gone Q id cs h.1)
]
  where
    differs : (c.0 == id) ≡ false → id ≢ c.0
    differs other e = let t = eq→== c.0 id (sym e) in cc

-- The registry of a call that gives one.
abbrev IdsIn : (ℕ → Type 0) → Outcome Registry → Type 0
IdsIn Q (ok r) = Ids Q r
IdsIn Q (err e) = Unit
IdsIn Q panic = Unit
IdsIn Q stuck = Unit

send-Ids :
    (Q : ℕ → Type 0) (orphan_sends : Bool) (id : ℕ) (msg : Outbound) (r : Registry)
    → Ids Q r
    → IdsIn Q (send orphan_sends id msg r)
unfolding send on_client
send-Ids Q orphan_sends id msg r h = by_client (find id r.clients)
  where
    by_sent : (t : Sent) → IdsIn Q (sent_to id msg r t)
    by_sent (accepted queue) = update-All Q id (sent_blocking msg) r.clients h
    by_sent full = tt
    by_sent disconnected = tt

    by_orphan : (b : Bool) → IdsIn Q (send_to b id msg r none)
    by_orphan true = h
    by_orphan false = tt

    by_client : (o : Option ClientHandle) → IdsIn Q (send_to orphan_sends id msg r o)
    by_client none = by_orphan orphan_sends
    by_client (some x) = by_sent (try_send x msg)

-- The clients are those from before, which have `P`, and those that the connection has registered.
module _ (P : ℕ → Type 0) where
  abbrev pub Known : Connection → ℕ → Type 0
  Known c id = P id ⊎ Among id c.registered

  abbrev IsKnown : Stepped → Type 0
  IsKnown ((c, r), result) = Ids (Known c) r

  after_send-IsKnown :
      (c : Connection) (r : Registry) (o : Outcome Registry) (rest : Registry → Stepped)
      → Ids (Known c) r
      → IdsIn (Known c) o
      → ((r' : Registry) → Ids (Known c) r' → IsKnown (rest r'))
      → IsKnown (after_send c r o rest)
  after_send-IsKnown c r (ok r') rest h n k = k r' n
  after_send-IsKnown c r (err e) rest h n k = h
  after_send-IsKnown c r panic rest h n k = h
  after_send-IsKnown c r stuck rest h n k = h

  welcome-IsKnown :
      (m : Round) (c : Connection) (id : ℕ) (r : Registry)
      → IsQuiet m
      → Ids (Known c) r
      → IsKnown (welcome m c id r)
  welcome-IsKnown m c id r q h =
      let r1 = m.before_first r in
      let h1 = q.quiet_first (Known c) r h in
      let msg = settings (current_settings r1) in
      after_send-IsKnown c r1 (send m.orphan_sends id msg r1) (send_codec m c id) h1
        (send-Ids (Known c) m.orphan_sends id msg r1 h1)
        (λ r2 h2.
          let r3 = m.before_second r2 in
          let h3 = q.quiet_second (Known c) r2 h2 in
          after_send-IsKnown c r3 (send m.orphan_sends id codec_header r3)
            (λ r4. ((record c { my_id = some id; my_tx = some id }, r4), ok tt)) h3
            (send-Ids (Known c) m.orphan_sends id codec_header r3 h3) (λ r4 h4. h4))

  register-Ids :
      (c : Connection) (r : Registry)
      → Ids (Known c) r
      → Ids (Known (record c { registered = (register r).1 ∷ c.registered })) (register r).0
  unfolding register
  register-Ids c r h = (
    inr (inl refl),
    remove-All (λ x. Known (record c { registered = r.next_id ∷ c.registered }) x.0) r.next_id
        r.clients (All-map (Known c) _ r.clients (λ id k. older id k) h),
  )
    where
      older : (id : ℕ) → Known c id → Known (record c { registered = r.next_id ∷ c.registered }) id
      older id (inl x) = inl x
      older id (inr x) = inr (inr x)

  on_output-IsKnown :
      (m : Round) (c : Connection) (r : Registry) (out : SessionOutput)
      → IsQuiet m
      → Ids (Known c) r
      → IsKnown (on_output m c r out)
  unfolding on_output
  on_output-IsKnown m c r SessionOutput.none q h = h
  on_output-IsKnown m c r (SessionOutput.hello x) q h =
      welcome-IsKnown m (record c { registered = (register r).1 ∷ c.registered }) (register r).1
        (register r).0 q (register-Ids c r h)
  on_output-IsKnown m c r (SessionOutput.time_request id sent received) q h = by_tx c.my_tx
    where
      by_tx : (tx : Option ℕ) → IsKnown (on_time_request m c r (time_reply id sent received) tx)
      by_tx none = h
      by_tx (some tx) =
          after_send-IsKnown c r (send m.orphan_sends tx (time_reply id sent received) r)
            (λ r'. ((c, r'), ok tt)) h
            (send-Ids (Known c) m.orphan_sends tx (time_reply id sent received) r h) (λ r' h'. h')

  with_output-IsKnown :
      (c : Connection) (r : Registry) (x : ServerSession × Outcome SessionOutput)
      (rest : Connection → SessionOutput → Stepped)
      → Ids (Known c) r
      → ((out : SessionOutput) → IsKnown (rest (record c { session = x.0 }) out))
      → IsKnown (with_output c r x rest)
  with_output-IsKnown c r (s, ok out) rest h k = k out
  with_output-IsKnown c r (s, err e) rest h k = h
  with_output-IsKnown c r (s, panic) rest h k = h
  with_output-IsKnown c r (s, stuck) rest h k = h

  module _ (json : HelloJson) where
    on_bytes-IsKnown :
        (m : Round) (c : Connection) (r : Registry) (bytes : Bytes) (a : Action)
        → IsQuiet m
        → Ids (Known c) r
        → IsKnown (on_bytes json m c r bytes a)
    on_bytes-IsKnown m c r bytes read_header q h =
        with_output-IsKnown c r (handle_event json c.session (header_received bytes) m.now)
          (λ c1 out. ((c1, r), ok tt)) h (λ out. h)
    on_bytes-IsKnown m c r bytes (read_packet size) q h =
        let x = handle_event json c.session (packet_received bytes) m.now in
        with_output-IsKnown c r x (λ c1 out. on_output m c1 r out) h
          (λ out. on_output-IsKnown m (record c { session = x.0 }) r out q h)

    next_round-IsKnown :
        (again : Connection → Registry → Stepped) (x : Stepped)
        → IsKnown x
        → ((c : Connection) (r : Registry) → Ids (Known c) r → IsKnown (again c r))
        → IsKnown (next_round json again x)
    next_round-IsKnown again ((c, r), ok u) h k = k c r h
    next_round-IsKnown again ((c, r), err e) h k = h
    next_round-IsKnown again ((c, r), panic) h k = h
    next_round-IsKnown again ((c, r), stuck) h k = h

    reader_loop-IsKnown :
        (ms : List Round) (c : Connection) (r : Registry) (incoming : Bytes)
        → All IsQuiet ms
        → Ids (Known c) r
        → IsKnown (reader_loop json ms c r incoming)
    unfolding reader_loop
    reader_loop-IsKnown [] c r incoming q h = h
    reader_loop-IsKnown (m ∷ ms) c r incoming q h =
        let h1 = q.0.quiet_read (Known c) r h in
        let size = wanted (next_action c.session) in
        elim (Bool-cases (leb size (length incoming))) [
          | inr short ↦ rw (short, reader_loop) h1
          | inl enough ↦
              rw (enough, reader_loop)
                (next_round-IsKnown (λ c2 r2. reader_loop json ms c2 r2 (drop size incoming))
                  (on_bytes json m c (m.during_read r) (take size incoming) (next_action c.session))
                  (on_bytes-IsKnown m c (m.during_read r) (take size incoming)
                    (next_action c.session) q.0 h1)
                  (λ c2 r2 h2. reader_loop-IsKnown ms c2 r2 (drop size incoming) q.1 h2))
        ]

    -- What a connection leaves behind.
    pub record IsLeft (x : Stepped) : Type 0 where
      pub left : Ids (λ id. Known x.0.0 id × (x.0.0.my_id ≢ some id)) x.0.1
      pub latest_gone : SendFailed x.1 ⊎ Ids (λ id. first x.0.0.registered ≢ some id) x.0.1

    unregistered :
        (c : Connection) (r : Registry) (mine : Option ℕ)
        → Ids (Known c) r
        → Ids (λ id. Known c id × (mine ≢ some id)) (unregister_mine json mine r)
    unfolding unregister
    unregistered c r none h = All-map (Known c) _ r.clients (λ id k. (k, λ e. cc)) h
    unregistered c r (some id) h =
        All-map (λ x. Known c x × (id ≢ x)) _ (remove id r.clients) (λ x k. (k.0, λ e. k.1 (cc)))
          (remove-gone (Known c) id r.clients h)

    latest_unregistered :
        (x : Stepped) (r : Registry)
        → Ids (λ id. Known x.0.0 id × (x.0.0.my_id ≢ some id)) r
        → IsCurrent x
        → SendFailed x.1 ⊎ Ids (λ id. first x.0.0.registered ≢ some id) r
    latest_unregistered x r h (inl failed) = inl failed
    latest_unregistered x r h (inr mine) = inr (
        All-map (λ id. Known x.0.0 id × (x.0.0.my_id ≢ some id)) _ r.clients
          (λ id k e. k.1 (mine ∙ e)) h)

    -- Whatever bytes a client sends, if the other threads add no client: each client in the
    -- registry that the connection leaves was there before it, or is one that it has registered
    -- itself, and none of them is the one whose id it keeps. Unless the connection ended in a send
    -- to a client that failed or waited for ever, the client that it registered last, for its last
    -- hello, is not among them.
    pub run_reader_leaves :
        (ms : List Round) (r : Registry) (incoming : Bytes)
        → All IsQuiet ms
        → Ids P r
        → IsLeft (run_reader json ms r incoming)
    unfolding run_reader
    run_reader_leaves ms r incoming q h =
        let x = reader_loop json ms (connected json) r incoming in
        let left = unregistered x.0.0 x.0.1 x.0.0.my_id (
          reader_loop-IsKnown ms (connected json) r incoming q
            (All-map P _ r.clients (λ id k. inl k) h)) in
        record {
          left = left;
          latest_gone =
              latest_unregistered x (unregister_mine json x.0.0.my_id x.0.1) left
                (reader_loop-IsCurrent json ms (connected json) r incoming refl);
        }
