-- ===== src/Mdns/Discover.antt =====
-- `discover` of src/mdns.rs. What the socket gives at each turn, and the clock's reading before it,
-- are arguments.
use snapcast_client.Prelude.{
  ℕ, ◌+◌, ◌≤◌, ◌<◌, ◌≡◌, refl, ap, arith, ltb, if◌then◌else◌, Option, none, some, List, [], ◌∷◌,
  ◌++◌, take, All, ◌⊎◌, inl, inr, lt→ltb, le→ltb_false,
}
use native.Mathlib.Decide.{dec_lt}
use snapcast_client.Outcome.{Outcome, Error, ok, err, panic, stuck, ◌>>◌}
use snapcast_client.Bytes.{Bytes}
use snapcast_client.Mdns.{Attempt, found, missing, SocketAddr, build_query, parse_response}
use snapcast_client.Mdns.Names.{Answers, parse_response-Answers}

-- `recv_from`: the bytes of a datagram, the end of the read timeout, or another error.
pub data Received : Type 0 where
  datagram : Bytes → Received
  timed_out failed : Received

-- The length of the buffer. Linux cuts a longer datagram.
abbrev pub buf_size : ℕ
buf_size = 1500

abbrev pub answer : Attempt SocketAddr → Outcome (Option SocketAddr) → Outcome (Option SocketAddr)
answer (found addr) rest = ok (some addr)
answer missing rest = rest
answer Attempt.panic rest = panic
answer Attempt.stuck rest = stuck

-- The `match` on what was received; `rest` is what the next turns come to.
abbrev pub on_received : Received → Outcome (Option SocketAddr) → Outcome (Option SocketAddr)
on_received (datagram bytes) rest = answer (parse_response (take buf_size bytes)) rest
on_received timed_out rest = ok none
on_received failed rest = err Error.connection_failed

unfoldable pub receive_loop : ℕ → List (ℕ × Received) → Outcome (Option SocketAddr)
receive_loop deadline [] = stuck
receive_loop deadline ((now, got) ∷ rounds) =
    let rest = receive_loop deadline rounds in
    if ltb now deadline then on_received got rest else ok none

-- `send` opens the socket and sends the query; `start` is the reading before the loop.
unfoldable pub discover :
    (Bytes → Outcome (Unit {0})) → Bytes → ℕ → ℕ → List (ℕ × Received) → Outcome (Option SocketAddr)
unfolding receive_loop
discover send service timeout start rounds =
    send (build_query service) >> receive_loop (start + timeout) rounds

-- A turn before the deadline, with a datagram that has no address.
abbrev pub IsSilent : ℕ → ℕ × Received → Type 0
IsSilent deadline (now, got) =
    (now < deadline)
    × (bytes : Bytes) × (got ≡ datagram bytes)
    × (parse_response (take buf_size bytes) ≡ missing)

-- What a turn that ends the loop gives.
abbrev pub Decides : ℕ → ℕ × Received → Outcome (Option SocketAddr) → Type 0
Decides deadline (now, got) result =
    ((deadline ≤ now) × (result ≡ ok none))
    ⊎ ((now < deadline)
        × (((got ≡ timed_out) × (result ≡ ok none))
            ⊎ ((got ≡ failed) × (result ≡ err Error.connection_failed))
            ⊎ ((bytes : Bytes) × (addr : SocketAddr) × (got ≡ datagram bytes)
                × (parse_response (take buf_size bytes) ≡ found addr)
                × (result ≡ ok (some addr)))))

-- Turns without an address come before one that ends the loop.
pub record IsDecided (deadline : ℕ) (rounds : List (ℕ × Received))
    (result : Outcome (Option SocketAddr)) : Type 0 where
  pub before : List (ℕ × Received)
  pub turn : ℕ × Received
  pub after : List (ℕ × Received)
  pub rounds_split : rounds ≡ before ++ (turn ∷ after)
  pub silent : All (IsSilent deadline) before
  pub decides : Decides deadline turn result

now-IsDecided :
    (deadline : ℕ) (turn : ℕ × Received) (after : List (ℕ × Received))
    (result : Outcome (Option SocketAddr))
    → Decides deadline turn result
    → IsDecided deadline (turn ∷ after) result
now-IsDecided deadline turn after result d = record {
  before = [];
  turn = turn;
  after = after;
  rounds_split = refl;
  silent = tt;
  decides = d;
}

later-IsDecided :
    (deadline : ℕ) (turn : ℕ × Received) (rounds : List (ℕ × Received))
    (result : Outcome (Option SocketAddr))
    → IsSilent deadline turn
    → IsDecided deadline rounds result
    → IsDecided deadline (turn ∷ rounds) result
later-IsDecided deadline turn rounds result quiet d = record {
  before = turn ∷ d.before;
  turn = d.turn;
  after = d.after;
  rounds_split = ap (λ r. turn ∷ r) d.rounds_split;
  silent = (quiet, d.silent);
  decides = d.decides;
}

on_received-IsDecided :
    (deadline now : ℕ) (got : Received) (rounds : List (ℕ × Received))
    (rest : Outcome (Option SocketAddr))
    → now < deadline
    → IsDecided deadline rounds rest
    → IsDecided deadline ((now, got) ∷ rounds) (on_received got rest)
on_received-IsDecided deadline now (datagram bytes) rounds rest h d =
    by_answer (parse_response (take buf_size bytes)) refl
      (parse_response-Answers (take buf_size bytes))
  where
    by_answer :
        (a : Attempt SocketAddr)
        → parse_response (take buf_size bytes) ≡ a
        → Answers a
        → IsDecided deadline ((now, datagram bytes) ∷ rounds) (answer a rest)
    by_answer (found addr) e k =
        now-IsDecided deadline (now, datagram bytes) rounds (ok (some addr))
          (inr (h, inr (inr (bytes, addr, refl, e, refl))))
    by_answer missing e k =
        later-IsDecided deadline (now, datagram bytes) rounds rest (h, bytes, refl, e) d
    by_answer Attempt.panic e k = absurd k
    by_answer Attempt.stuck e k = absurd k
on_received-IsDecided deadline now timed_out rounds rest h d =
    now-IsDecided deadline (now, timed_out) rounds (ok none) (inr (h, inl (refl, refl)))
on_received-IsDecided deadline now failed rounds rest h d =
    now-IsDecided deadline (now, failed) rounds (err Error.connection_failed)
      (inr (h, inr (inl (refl, refl))))

loop-IsDecided :
    (deadline late : ℕ) (got : Received) (rounds : List (ℕ × Received))
    → deadline ≤ late
    → (let all = rounds ++ ((late, got) ∷ []) in IsDecided deadline all (receive_loop deadline all))
unfolding receive_loop
loop-IsDecided deadline late got [] h =
    rw (le→ltb_false late deadline h)
      (now-IsDecided deadline (late, got) [] (ok none) (inl (h, refl)))
loop-IsDecided deadline late got ((now, first) ∷ rounds) h = elim (dec_lt now deadline) [
  | yes soon ↦ rw (lt→ltb now deadline soon) (
      on_received-IsDecided deadline now first (rounds ++ ((late, got) ∷ []))
        (receive_loop deadline (rounds ++ ((late, got) ∷ []))) soon
        (loop-IsDecided deadline late got rounds h))
  | no passed ↦ rw (le→ltb_false now deadline (omega arith)) (
      now-IsDecided deadline (now, first) (rounds ++ ((late, got) ∷ [])) (ok none)
        (inl (omega arith, refl)))
]

-- The query is sent, and at the last of the given turns the clock is not before the deadline:
-- `discover` ends and does not panic. Some turn decides, and all turns before it are in time, with
-- a datagram without an address. A turn after the deadline or at a read timeout gives `None`,
-- another error of the socket is the result, and a datagram in time with an address gives that
-- address.
pub discover-IsDecided :
    (send : Bytes → Outcome (Unit {0})) (service : Bytes) (timeout start late : ℕ) (got : Received)
    (rounds : List (ℕ × Received))
    → send (build_query service) ≡ ok tt
    → start + timeout ≤ late
    → IsDecided
        (start + timeout)
        (rounds ++ ((late, got) ∷ []))
        (discover send service timeout start (rounds ++ ((late, got) ∷ [])))
unfolding discover
discover-IsDecided send service timeout start late got rounds sent h =
    rw sent (loop-IsDecided (start + timeout) late got rounds h)
