-- ===== src/Net/Registry.antt =====
-- `Registry` of server/src/net.rs: the clients that are registered, each with its bounded queue. A
-- client's socket is not modelled, and each call holds the lock for as long as the source does.
pub mod Bounds
pub mod Offer
use snapcast_client.Prelude.{
  ℕ, ◌+◌, ◌-◌, ◌*◌, ◌%◌, ◌^◌, Bool, true, false, not, if◌then◌else◌, ltb, ◌==◌, Option, none, some,
  List, [], ◌∷◌, ◌++◌, length, map,
}
use snapcast_client.Outcome.{Outcome, ok, panic, ◌>>=◌}
use snapcast_client.Word.{Profile, debug, release}
use snapcast_client.Proto.Settings.{ServerSettings}
use snapcast_client.Net.Writer.{EncodedChunk, Outbound, chunk, settings}

abbrev pub channel_slots : ℕ
channel_slots = 16

-- `tx` is the queue of its channel and whether the receiving writer is alive. Instants are counts of
-- nanoseconds.
pub record ClientHandle : Type 0 where
  pub queue : List Outbound
  pub alive : Bool
  pub full_since : Option ℕ
  pub dropped : ℕ

abbrev pub Clients : Type 0
Clients = List (ℕ × ClientHandle)

-- The fields of `Registry` and of its `Inner`. The map of clients is a list of pairs.
pub record Registry : Type 0 where
  pub clients : Clients
  pub volume : ℕ
  pub next_id : ℕ
  pub buffer_ms : ℕ

unfoldable pub new : ℕ → ℕ → Registry
new buffer_ms initial_volume = record {
  clients = [];
  volume = initial_volume;
  next_id = 0;
  buffer_ms = buffer_ms;
}

unfoldable pub current_settings : Registry → ServerSettings
current_settings r = record {
  buffer_ms = r.buffer_ms;
  latency = 0;
  muted = false;
  volume = r.volume;
}

-- `HashMap::remove` and `HashMap::insert`
unfoldable pub remove : ℕ → Clients → Clients
remove id [] = []
remove id (c ∷ cs) = let rest = remove id cs in if c.0 == id then rest else c ∷ rest

abbrev pub new_handle : ClientHandle
new_handle = record { queue = []; alive = true; full_since = none; dropped = 0 }

-- The registry with one more client, and its id. An id is a `u64`, which does not run out.
unfoldable pub register : Registry → Registry × ℕ
unfolding remove
register r =
    let id = r.next_id in
    (record r { next_id = id + 1; clients = (id, new_handle) ∷ remove id r.clients }, id)

unfoldable pub unregister : ℕ → Registry → Registry
unfolding remove
unregister id r = record r { clients = remove id r.clients }

unfoldable pub disconnect : ℕ → Registry → Registry
unfolding remove
disconnect id r = record r { clients = remove id r.clients }

-- `try_send` of a bounded channel of the standard library.
pub data Sent : Type 0 where
  accepted : List Outbound → Sent
  full : Sent
  disconnected : Sent

unfoldable pub try_send : ClientHandle → Outbound → Sent
try_send h msg =
    if not h.alive
    then disconnected
    else if ltb (length h.queue) channel_slots
    then accepted (h.queue ++ (msg ∷ []))
    else full

-- `get_or_insert_with`
abbrev pub or_insert : Option ℕ → ℕ → ℕ
or_insert none now = now
or_insert (some since) now = since

-- The arms of the `match`, with the handle after it and whether its id is pushed to `wedged`. The
-- clock is read twice in the second arm.
abbrev pub on_sent : ℕ → ℕ × ℕ → ClientHandle → Sent → ClientHandle × Bool
on_sent limit reads h (accepted queue) = (record h { queue = queue; full_since = none }, false)
on_sent limit reads h full =
    let since = or_insert h.full_since reads.0 in
    (record h { dropped = h.dropped + 1; full_since = some since }, ltb limit (reads.1 - since))
on_sent limit reads h disconnected = (h, true)

unfoldable pub offer : ℕ → ℕ × ℕ → Outbound → ClientHandle → ClientHandle × Bool
unfolding try_send
offer limit reads msg h = on_sent limit reads h (try_send h msg)

-- The loop over the clients; `reads` is what the clock reads at each.
unfoldable pub offer_all : ℕ → (ℕ → ℕ × ℕ) → Outbound → Clients → Clients × List ℕ
unfolding offer
offer_all limit reads msg [] = ([], [])
offer_all limit reads msg (c ∷ cs) =
    let (h, is_wedged) = offer limit (reads c.0) msg c.1 in
    let (rest, wedged) = offer_all limit reads msg cs in
    ((c.0, h) ∷ rest, if is_wedged then c.0 ∷ wedged else wedged)

unfoldable pub disconnect_all : List ℕ → Registry → Registry
unfolding disconnect
disconnect_all [] r = r
disconnect_all (id ∷ ids) r = disconnect_all ids (disconnect id r)

-- `self.buffer_ms * 2`, a product of `u32`.
abbrev pub twice_u32 : Profile → ℕ → Outcome ℕ
twice_u32 debug n = if ltb (n * 2) (2 ^ 32) then ok (n * 2) else panic
twice_u32 release n = ok (n * 2 % 2 ^ 32)

unfoldable pub broadcast_chunk : Profile → (ℕ → ℕ × ℕ) → Registry → EncodedChunk → Outcome Registry
unfolding offer_all disconnect_all
broadcast_chunk p reads r ec = do
  limit_ms ← twice_u32 p r.buffer_ms
  let (clients, wedged) = offer_all (limit_ms * 1000000) reads (chunk ec) r.clients
  ok (disconnect_all wedged (record r { clients = clients }))

-- What the threads do to one client's queue.
unfoldable pub update : ℕ → (ClientHandle → ClientHandle) → Clients → Clients
update id f [] = []
update id f (c ∷ cs) = let rest = update id f cs in (if c.0 == id then (c.0, f c.1) else c) ∷ rest

-- `rx.recv()` of the writer takes the first message.
abbrev pub received : ClientHandle → ClientHandle
received h = elim h.queue [ [] ↦ h | msg ∷ rest ↦ record h { queue = rest } ]

-- A writer whose socket fails drops its end of the channel.
abbrev pub stopped : ClientHandle → ClientHandle
stopped h = record h { alive = false }

-- A blocking `tx.send` goes through when there is room.
abbrev pub on_sent_blocking : ClientHandle → Sent → ClientHandle
on_sent_blocking h (accepted queue) = record h { queue = queue }
on_sent_blocking h full = h
on_sent_blocking h disconnected = h

abbrev pub sent_blocking : Outbound → ClientHandle → ClientHandle
sent_blocking msg h = on_sent_blocking h (try_send h msg)

unfoldable pub on_client : ℕ → (ClientHandle → ClientHandle) → Registry → Registry
unfolding update
on_client id f r = record r { clients = update id f r.clients }

-- The registry with the new volume, and the messages that are then sent with blocking sends.
unfoldable pub broadcast_settings : ℕ → Registry → Registry × List (ℕ × Outbound)
unfolding current_settings
broadcast_settings volume r =
    let r' = record r { volume = volume } in
    (r', map (λ c. (c.0, settings (current_settings r'))) r'.clients)
