-- ===== src/Net/Registry/Bounds.antt =====
-- The queues and the ids of the registry of server/src/net.rs, over the steps of the server's threads.
use snapcast_client.Prelude.{
  ℕ, ◌+◌, ◌*◌, ◌≤◌, ◌<◌, ◌≡◌, refl, subst, ap, arith, Bool-cases, inl, inr, List, [], ◌∷◌, length,
  length-append, All, ltb, ltb→lt, ◌==◌,
}
use snapcast_client.Outcome.{Outcome, ok, err, panic, stuck, ◌>>=◌}
use snapcast_client.Word.{Profile}
use snapcast_client.Net.Writer.{EncodedChunk, Outbound, chunk}
use snapcast_client.Net.Registry
use snapcast_client.Net.Registry.{
  Registry, ClientHandle, Clients, Sent, accepted, full, disconnected, or_insert, channel_slots,
  remove, register, unregister, disconnect, try_send, on_sent, offer, offer_all, disconnect_all,
  twice_u32, broadcast_chunk, update, received, stopped, sent_blocking, on_client,
  broadcast_settings,
}

-- An id below the next one, and at most sixteen messages in the queue.
abbrev pub IsClient : ℕ → ℕ × ClientHandle → Type 0
IsClient next_id c = (c.0 < next_id) × (length c.1.queue ≤ channel_slots)

abbrev pub IsRegistry : Registry → Type 0
IsRegistry r = All (IsClient r.next_id) r.clients

-- What the server's threads do to the registry.
pub data Step : Registry → Registry → Type 0 where
  registers : (r : Registry) → Step r (register r).0
  unregisters : (id : ℕ) (r : Registry) → Step r (unregister id r)
  broadcasts :
      (p : Profile) (reads : ℕ → ℕ × ℕ) (ec : EncodedChunk) {r r' : Registry}
      → broadcast_chunk p reads r ec ≡ ok r'
      → Step r r'
  sends : (id : ℕ) (msg : Outbound) (r : Registry) → Step r (on_client id (sent_blocking msg) r)
  sets_volume : (volume : ℕ) (r : Registry) → Step r (broadcast_settings volume r).0
  receives : (id : ℕ) (r : Registry) → Step r (on_client id received r)
  stops : (id : ℕ) (r : Registry) → Step r (on_client id stopped r)

-- A change of one queue that keeps it within the limit.
abbrev Keeps : (ClientHandle → ClientHandle) → Type 0
Keeps f = (h : ClientHandle) → length h.queue ≤ channel_slots → length (f h).queue ≤ channel_slots

update-IsClient :
    (n id : ℕ) (f : ClientHandle → ClientHandle) (cs : Clients)
    → Keeps f
    → All (IsClient n) cs
    → All (IsClient n) (update id f cs)
unfolding update
update-IsClient n id f [] k h = tt
update-IsClient n id f (c ∷ cs) k h = elim (Bool-cases (c.0 == id)) [
  | inl same ↦ rw same ((h.0.0, k c.1 h.0.1), update-IsClient n id f cs k h.1)
  | inr other ↦ rw other (h.0, update-IsClient n id f cs k h.1)
]

received-Keeps : Keeps received
received-Keeps h le = by_queue h.queue refl
  where
    by_queue : (q : List Outbound) → h.queue ≡ q → length (received h).queue ≤ channel_slots
    by_queue [] e = rw e (omega (arith, ap length e))
    by_queue (msg ∷ rest) e = rw e (omega (arith, ap length e))

sent_blocking-Keeps : (msg : Outbound) → Keeps (sent_blocking msg)
unfolding try_send
sent_blocking-Keeps msg h le = elim (Bool-cases h.alive) [
  | inr dead ↦ rw dead le
  | inl live ↦ rw live (elim (Bool-cases (ltb (length h.queue) channel_slots)) [
    | inl room ↦ rw room (omega (arith, length-append h.queue (msg ∷ []), ltb→lt _ _ room))
    | inr crowded ↦ rw crowded le
  ])
]

pub remove-All {κ} :
    (P : ℕ × ClientHandle → Type κ) (id : ℕ) (cs : Clients) → All P cs → All P (remove id cs)
unfolding remove
remove-All P id [] h = tt
remove-All P id (c ∷ cs) h = elim (Bool-cases (c.0 == id)) [
  | inl same ↦ rw same (remove-All P id cs h.1)
  | inr other ↦ rw other (h.0, remove-All P id cs h.1)
]

raise : (n : ℕ) (cs : Clients) → All (IsClient n) cs → All (IsClient (n + 1)) cs
raise n [] h = tt
raise n (c ∷ cs) h = ((omega arith, h.0.1), raise n cs h.1)

register-IsRegistry : (r : Registry) → IsRegistry r → IsRegistry (register r).0
unfolding register
register-IsRegistry r h = (
  (omega arith, omega arith),
  raise r.next_id (remove r.next_id r.clients)
      (remove-All (IsClient r.next_id) r.next_id r.clients h),
)

offer-bounded :
    (limit : ℕ) (reads : ℕ × ℕ) (msg : Outbound) (h : ClientHandle)
    → length h.queue ≤ channel_slots
    → length (offer limit reads msg h).0.queue ≤ channel_slots
unfolding offer try_send
offer-bounded limit reads msg h le = elim (Bool-cases h.alive) [
  | inr dead ↦ rw dead le
  | inl live ↦ rw live (elim (Bool-cases (ltb (length h.queue) channel_slots)) [
    | inl room ↦ rw room (omega (arith, length-append h.queue (msg ∷ []), ltb→lt _ _ room))
    | inr crowded ↦ rw crowded le
  ])
]

offer_all-IsClient :
    (limit : ℕ) (reads : ℕ → ℕ × ℕ) (msg : Outbound) (n : ℕ) (cs : Clients)
    → All (IsClient n) cs
    → All (IsClient n) (offer_all limit reads msg cs).0
unfolding offer_all
offer_all-IsClient limit reads msg n [] h = tt
offer_all-IsClient limit reads msg n (c ∷ cs) h = (
  (h.0.0, offer-bounded limit (reads c.0) msg c.1 h.0.1),
  offer_all-IsClient limit reads msg n cs h.1,
)

disconnect_all-IsRegistry :
    (ids : List ℕ) (r : Registry) → IsRegistry r → IsRegistry (disconnect_all ids r)
unfolding disconnect_all disconnect
disconnect_all-IsRegistry [] r h = h
disconnect_all-IsRegistry (id ∷ ids) r h =
    disconnect_all-IsRegistry ids (disconnect id r) (remove-All (IsClient r.next_id) id r.clients h)

broadcast-IsRegistry :
    (p : Profile) (reads : ℕ → ℕ × ℕ) (r : Registry) (ec : EncodedChunk) {r' : Registry}
    → IsRegistry r
    → broadcast_chunk p reads r ec ≡ ok r'
    → IsRegistry r'
unfolding broadcast_chunk
broadcast-IsRegistry p reads r ec {r'} h = by_limit (twice_u32 p r.buffer_ms)
  where
    sent : ℕ → Clients × List ℕ
    sent limit_ms = offer_all (limit_ms * 1000000) reads (chunk ec) r.clients

    by_limit :
        (m : Outcome ℕ)
        → (m >>= λ limit_ms.
            ok (disconnect_all (sent limit_ms).1 (record r { clients = (sent limit_ms).0 })))
          ≡ ok r'
        → IsRegistry r'
    by_limit (ok l) e =
        subst IsRegistry
          (let f : disconnect_all (sent l).1 (record r { clients = (sent l).0 }) ≡ r' = cc in f)
          (disconnect_all-IsRegistry (sent l).1 (record r { clients = (sent l).0 })
            (offer_all-IsClient (l * 1000000) reads (chunk ec) r.next_id r.clients h))
    by_limit (err x) e = absurd (let f : ⊥ = cc in f)
    by_limit panic e = absurd (let f : ⊥ = cc in f)
    by_limit stuck e = absurd (let f : ⊥ = cc in f)

-- The registries that a server comes to.
pub data Reach (buffer_ms volume : ℕ) : Registry → Type 0 where
  start : Reach buffer_ms volume (Registry.new buffer_ms volume)
  step : {r r' : Registry} → Reach buffer_ms volume r → Step r r' → Reach buffer_ms volume r'

Step-IsRegistry : {r r' : Registry} → Step r r' → IsRegistry r → IsRegistry r'
unfolding unregister on_client broadcast_settings
Step-IsRegistry (registers r) h = register-IsRegistry r h
Step-IsRegistry (unregisters id r) h = remove-All (IsClient r.next_id) id r.clients h
Step-IsRegistry (broadcasts p reads ec {r} e) h = broadcast-IsRegistry p reads r ec h e
Step-IsRegistry (sends id msg r) h =
    update-IsClient r.next_id id (sent_blocking msg) r.clients (sent_blocking-Keeps msg) h
Step-IsRegistry (sets_volume volume r) h = h
Step-IsRegistry (receives id r) h = update-IsClient r.next_id id received r.clients received-Keeps h
Step-IsRegistry (stops id r) h = update-IsClient r.next_id id stopped r.clients (λ c le. le) h

-- In every registry that a server comes to by registering, unregistering, broadcasting chunks,
-- changing the volume, sending control messages, and by what the writers take, no queue holds more
-- than sixteen messages, and the next id is above every id in use.
pub registry_bounded :
    {buffer_ms volume : ℕ} {r : Registry} → Reach buffer_ms volume r → IsRegistry r
unfolding Registry.new
registry_bounded start = tt
registry_bounded (step r s) = Step-IsRegistry s (registry_bounded r)
