-- ===== src/Net/Connection/Second.antt =====
-- A second hello on a connection of server/src/net.rs.
use snapcast_client.Prelude.{
  ℕ, ◌≡◌, ◌≢◌, refl, sym, ◌∙◌, subst, Bool, true, false, Bool-cases, inl, inr, ◌⊎◌, Option, none,
  some, [], ◌∷◌, ◌==◌, ne→==_false,
}
use snapcast_client.Outcome.{Outcome, ok, err, panic, stuck}
use snapcast_client.Proto.Hello.{ClientHello, HelloJson}
use snapcast_client.Server.{hello}
use snapcast_client.Net.Writer.{Outbound, settings, codec_header}
use snapcast_client.Net.Registry.{
  Registry, Clients, ClientHandle, Sent, accepted, full, disconnected, register, unregister, remove,
  update, on_client, current_settings, try_send, sent_blocking,
}
use snapcast_client.Net.Connection.{
  Connection, Round, Stepped, find, sent_to, send_to, send, after_send, on_output, welcome,
  send_codec, unregister_mine,
}

-- The client is registered.
abbrev pub Has : ℕ → Clients → Type 0
Has a [] = ⊥
Has a (c ∷ cs) = (c.0 ≡ a) ⊎ Has a cs

-- What the other threads do leaves the client where it is.
abbrev pub KeepsClient : ℕ → (Registry → Registry) → Type 0
KeepsClient a f = (r : Registry) → Has a r.clients → Has a (f r).clients

update-Has :
    (a id : ℕ) (f : ClientHandle → ClientHandle) (cs : Clients) → Has a cs → Has a (update id f cs)
unfolding update
update-Has a id f [] h = h
update-Has a id f (c ∷ cs) (inl e) = elim (Bool-cases (c.0 == id)) [
  | inl same ↦ rw same (inl e)
  | inr other ↦ rw other (inl e)
]
update-Has a id f (c ∷ cs) (inr h) = elim (Bool-cases (c.0 == id)) [
  | inl same ↦ rw same (inr (update-Has a id f cs h))
  | inr other ↦ rw other (inr (update-Has a id f cs h))
]

remove-Has : (a id : ℕ) (cs : Clients) → a ≢ id → Has a cs → Has a (remove id cs)
unfolding remove
remove-Has a id [] ne h = h
remove-Has a id (c ∷ cs) ne (inl e) = rw (ne→==_false c.0 id (λ same. ne (sym e ∙ same))) (inl e)
remove-Has a id (c ∷ cs) ne (inr h) = elim (Bool-cases (c.0 == id)) [
  | inl same ↦ rw same (remove-Has a id cs ne h)
  | inr other ↦ rw other (inr (remove-Has a id cs ne h))
]

abbrev HasIn : ℕ → Outcome Registry → Type 0
HasIn a (ok r) = Has a r.clients
HasIn a (err e) = Unit
HasIn a panic = Unit
HasIn a stuck = Unit

send-Has :
    (a : ℕ) (orphan_sends : Bool) (id : ℕ) (msg : Outbound) (r : Registry)
    → Has a r.clients
    → HasIn a (send orphan_sends id msg r)
unfolding send on_client
send-Has a orphan_sends id msg r h = by_client (find id r.clients)
  where
    by_sent : (t : Sent) → HasIn a (sent_to id msg r t)
    by_sent (accepted queue) = update-Has a id (sent_blocking msg) r.clients h
    by_sent full = tt
    by_sent disconnected = tt

    by_orphan : (b : Bool) → HasIn a (send_to b id msg r none)
    by_orphan true = h
    by_orphan false = tt

    by_client : (o : Option ClientHandle) → HasIn a (send_to orphan_sends id msg r o)
    by_client none = by_orphan orphan_sends
    by_client (some x) = by_sent (try_send x msg)

-- If it succeeds: the client is still there, and `id` is the one that is unregistered in the end.
abbrev Welcomed : ℕ → ℕ → Stepped → Type 0
Welcomed a id ((c, r), ok u) = Has a r.clients × (c.my_id ≡ some id)
Welcomed a id ((c, r), err e) = Unit
Welcomed a id ((c, r), panic) = Unit
Welcomed a id ((c, r), stuck) = Unit

after_send-Welcomed :
    (a id : ℕ) (c : Connection) (r : Registry) (o : Outcome Registry) (rest : Registry → Stepped)
    → HasIn a o
    → ((r' : Registry) → Has a r'.clients → Welcomed a id (rest r'))
    → Welcomed a id (after_send c r o rest)
after_send-Welcomed a id c r (ok r') rest h k = k r' h
after_send-Welcomed a id c r (err e) rest h k = tt
after_send-Welcomed a id c r panic rest h k = tt
after_send-Welcomed a id c r stuck rest h k = tt

module _ (a : ℕ) (m : Round) (first : KeepsClient a m.before_first)
    (second : KeepsClient a m.before_second) where
  welcome-Welcomed :
      (c : Connection) (id : ℕ) (r : Registry) → Has a r.clients → Welcomed a id (welcome m c id r)
  welcome-Welcomed c id r h =
      let r1 = m.before_first r in
      let msg = settings (current_settings r1) in
      after_send-Welcomed a id c r1 (send m.orphan_sends id msg r1) (send_codec m c id)
        (send-Has a m.orphan_sends id msg r1 (first r h))
        (λ r2 h2.
          let r3 = m.before_second r2 in
          after_send-Welcomed a id c r3 (send m.orphan_sends id codec_header r3)
            (λ r4. ((record c { my_id = some id; my_tx = some id }, r4), ok tt))
            (send-Has a m.orphan_sends id codec_header r3 (second r2 h2)) (λ r4 h4. (h4, refl)))

  left_behind :
      (json : HelloJson) (id : ℕ) (x : Stepped)
      → a ≢ id
      → x.1 ≡ ok tt
      → Welcomed a id x
      → Has a (unregister_mine json x.0.0.my_id x.0.1).clients
  unfolding unregister
  left_behind json id ((c, r), ok u) ne e (h, mine) =
      subst (λ o. Has a (unregister_mine json o r).clients) (sym mine)
        (remove-Has a id r.clients ne h)
  left_behind json id ((c, r), err x) ne e w = absurd (cc)
  left_behind json id ((c, r), panic) ne e w = absurd (cc)
  left_behind json id ((c, r), stuck) ne e w = absurd (cc)

  -- A client that is registered when a hello is answered in full, and that the other threads leave
  -- where it is: it is still registered when the connection is unregistered, also where it is the
  -- client that the same connection registered at its first hello.
  pub second_hello_stays :
      (json : HelloJson) (c : Connection) (r : Registry) (h : ClientHello)
      → Has a r.clients
      → a ≢ r.next_id
      → (on_output m c r (hello h)).1 ≡ ok tt
      → Has a
          (unregister_mine json
            (on_output m c r (hello h)).0.0.my_id
            (on_output m c r (hello h)).0.1).clients
  unfolding on_output register
  second_hello_stays json c r h there ne answered =
      left_behind json r.next_id
        (welcome m (record c { registered = r.next_id ∷ c.registered }) r.next_id (register r).0) ne
        answered
        (welcome-Welcomed (record c { registered = r.next_id ∷ c.registered }) r.next_id
          (register r).0 (inr (remove-Has a r.next_id r.clients ne there)))
