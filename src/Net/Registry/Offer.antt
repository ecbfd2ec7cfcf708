-- ===== src/Net/Registry/Offer.antt =====
-- What offers of chunks do to one client of the registry, over any sequence of events.
use snapcast_client.Prelude.{
  first, drop-append_le, drop_next, drop_all, ltb→lt, ltb_false→le, suc, Bool, not, if◌then◌else◌,
  ◌&&◌, Bool-cases, List, drop, length-drop, length-append, ap, sym, ◌∙◌, ℕ, ◌+◌, ◌-◌, ◌≤◌, ◌<◌,
  ◌≡◌, refl, arith, true, false, inl, inr, ◌⊎◌, none, some, [], ◌∷◌, ◌++◌, length, ltb, lt→ltb,
  le→ltb_false,
}
use snapcast_client.Net.Writer.{Outbound}
use snapcast_client.Net.Registry.{
  received, stopped, sent_blocking, new_handle, ClientHandle, or_insert, channel_slots, try_send,
  offer,
}
use native.Mathlib.Decide.{dec_lt}

-- What happens to one client: a chunk is offered to it, with what the clock reads, another message
-- is sent to it, its writer takes a message, and its writer stops.
pub data Event : Type 0 where
  offers : ℕ × ℕ → Outbound → Event
  sends : Outbound → Event
  takes : Event
  stops : Event

abbrev pub event : ℕ → Event → ClientHandle → ClientHandle
event limit (offers reads msg) h = (offer limit reads msg h).0
event limit (sends msg) h = sent_blocking msg h
event limit takes h = received h
event limit stops h = stopped h

pub run : ℕ → List Event → ClientHandle → ClientHandle
run limit [] h = h
run limit (e ∷ events) h = run limit events (event limit e h)

-- A count of the same events, without a queue: all messages that went through and how many of them
-- were taken, how many chunks were refused, and when those were that were refused since the last
-- chunk that went through.
pub record Tally : Type 0 where
  pub went : List Outbound
  pub taken : ℕ
  pub refused : ℕ
  pub streak : List ℕ
  pub live : Bool

abbrev pub has_room : Tally → Bool
has_room t = ltb (length t.went) (t.taken + 16)

abbrev pub counted : Event → Tally → Tally
counted (offers reads msg) t =
    if not t.live
    then t
    else if has_room t
    then record t { went = t.went ++ (msg ∷ []); streak = [] }
    else record t { refused = t.refused + 1; streak = t.streak ++ (reads.0 ∷ []) }
counted (sends msg) t = if t.live && has_room t then record t { went = t.went ++ (msg ∷ []) } else t
counted takes t = if ltb t.taken (length t.went) then record t { taken = suc t.taken } else t
counted stops t = record t { live = false }

pub tally : List Event → Tally → Tally
tally [] t = t
tally (e ∷ events) t = tally events (counted e t)

abbrev pub untouched : Tally
untouched = record { went = []; taken = 0; refused = 0; streak = []; live = true }

-- The client that a count describes.
abbrev pub handle_of : Tally → ClientHandle
handle_of t = record {
  queue = drop t.taken t.went;
  alive = t.live;
  full_since = first t.streak;
  dropped = t.refused;
}

first-append : (xs : List ℕ) (n : ℕ) → first (xs ++ (n ∷ [])) ≡ some (or_insert (first xs) n)
first-append [] n = refl
first-append (x ∷ xs) n = refl

-- Between none and sixteen messages wait.
abbrev IsTally : Tally → Type 0
IsTally t = (t.taken ≤ length t.went) × (length t.went ≤ t.taken + 16)

handle_room : (t : Tally) → IsTally t → ltb (length (handle_of t).queue) channel_slots ≡ has_room t
handle_room t h = elim (dec_lt (length t.went) (t.taken + 16)) [
  | yes room ↦
      lt→ltb (length (drop t.taken t.went)) 16 (omega (arith, length-drop t.taken t.went))
      ∙ sym (lt→ltb _ _ room)
  | no crowded ↦
      le→ltb_false (length (drop t.taken t.went)) 16 (omega (arith, length-drop t.taken t.went))
      ∙ sym (le→ltb_false (length t.went) (t.taken + 16) (omega arith))
]

abbrev IsCounted : ℕ → Event → Tally → Type 0
IsCounted limit e t =
    IsTally (counted e t) × (event limit e (handle_of t) ≡ handle_of (counted e t))

one_more :
    (t : Tally) (msg : Outbound)
    → IsTally t
    → length t.went < t.taken + 16
    → IsTally (record t { went = t.went ++ (msg ∷ []) })
one_more t msg h room = omega (arith, length-append t.went (msg ∷ []), h)

offers-IsCounted :
    (limit : ℕ) (reads : ℕ × ℕ) (msg : Outbound) (t : Tally)
    → IsTally t
    → IsCounted limit (offers reads msg) t
unfolding offer try_send
offers-IsCounted limit reads msg t h = elim (Bool-cases t.live) [
  | inr gone ↦ rw gone (h, λ i. record (handle_of t) { alive = gone i })
  | inl live ↦ elim (Bool-cases (has_room t)) [
    | inl room ↦
        rw (live, room, handle_room t h ∙ room, drop-append_le t.taken t.went (msg ∷ []) h.0)
          (
            one_more t msg h (ltb→lt _ _ room),
            λ i. record (handle_of t) {
              queue = drop t.taken t.went ++ (msg ∷ []);
              alive = live i;
              full_since = none;
            },
          )
    | inr crowded ↦
        rw (live, crowded, handle_room t h ∙ crowded, first-append t.streak reads.0)
          (
            h,
            λ i. record (handle_of t) {
              alive = live i;
              full_since = some (or_insert (first t.streak) reads.0);
              dropped = t.refused + 1;
            },
          )
  ]
]

sends-IsCounted :
    (limit : ℕ) (msg : Outbound) (t : Tally) → IsTally t → IsCounted limit (sends msg) t
unfolding try_send
sends-IsCounted limit msg t h = elim (Bool-cases t.live) [
  | inr gone ↦ rw gone (h, refl)
  | inl live ↦ elim (Bool-cases (has_room t)) [
    | inl room ↦
        rw (live, room, handle_room t h ∙ room, drop-append_le t.taken t.went (msg ∷ []) h.0)
          (one_more t msg h (ltb→lt _ _ room), refl)
    | inr crowded ↦ rw (live, crowded, handle_room t h ∙ crowded) (h, refl)
  ]
]

takes-IsCounted : (limit : ℕ) (t : Tally) → IsTally t → IsCounted limit takes t
takes-IsCounted limit t h = elim (dec_lt t.taken (length t.went)) [
  | yes waiting ↦
      let (x, next) = drop_next t.taken t.went waiting in
      rw (lt→ltb _ _ waiting, next) (omega (arith, waiting, h), refl)
  | no empty ↦
      rw (le→ltb_false t.taken (length t.went) (omega arith), drop_all t.taken t.went (omega arith))
        (h, refl)
]

event-IsCounted : (limit : ℕ) (e : Event) (t : Tally) → IsTally t → IsCounted limit e t
event-IsCounted limit (offers reads msg) t h = offers-IsCounted limit reads msg t h
event-IsCounted limit (sends msg) t h = sends-IsCounted limit msg t h
event-IsCounted limit takes t h = takes-IsCounted limit t h
event-IsCounted limit stops t h = (h, refl)

run-handle_of :
    (limit : ℕ) (events : List Event) (t : Tally)
    → IsTally t
    → IsTally (tally events t) × (run limit events (handle_of t) ≡ handle_of (tally events t))
unfolding run tally
run-handle_of limit [] t h = (h, refl)
run-handle_of limit (e ∷ events) t h =
    let (h', same) = event-IsCounted limit e t h in
    let (h'', rest) = run-handle_of limit events (counted e t) h' in
    (h'', ap (run limit events) same ∙ rest)

-- Whether the id of the client is pushed to `wedged` at the next offer: it is if its writer has
-- stopped, or if it has sixteen messages waiting and more than the limit has passed since the first
-- of the chunks refused in a row.
abbrev pub IsAnswered : ℕ → ℕ × ℕ → Tally → Bool → Type 0
IsAnswered limit reads t wedged =
    ((t.live ≡ false) × (wedged ≡ true))
    ⊎ ((t.live ≡ true) × (length t.went < t.taken + 16) × (wedged ≡ false))
    ⊎ ((t.live ≡ true)
        × (length t.went ≡ t.taken + 16)
        × ((since : ℕ) × (first (t.streak ++ (reads.0 ∷ [])) ≡ some since)
            × (((limit + since < reads.1) × (wedged ≡ true))
                ⊎ ((reads.1 ≤ limit + since) × (wedged ≡ false)))))

ltb-waited :
    (limit since now : ℕ)
    → ((limit + since < now) × (ltb limit (now - since) ≡ true))
      ⊎ ((now ≤ limit + since) × (ltb limit (now - since) ≡ false))
ltb-waited limit since now = elim (dec_lt limit (now - since)) [
  | yes past ↦ inl (omega arith, lt→ltb _ _ past)
  | no soon ↦ inr (omega arith, le→ltb_false _ _ (omega arith))
]

offer-IsAnswered :
    (limit : ℕ) (reads : ℕ × ℕ) (msg : Outbound) (t : Tally)
    → IsTally t
    → IsAnswered limit reads t (offer limit reads msg (handle_of t)).1
unfolding offer try_send
offer-IsAnswered limit reads msg t h = elim (Bool-cases t.live) [
  | inr gone ↦ rw gone (inl (refl, refl))
  | inl live ↦ elim (Bool-cases (has_room t)) [
    | inl room ↦ rw (live, handle_room t h ∙ room) (inr (inl (refl, ltb→lt _ _ room, refl)))
    | inr crowded ↦
        let many = ltb_false→le _ _ crowded in
        let since = or_insert (first t.streak) reads.0 in
        rw (live, handle_room t h ∙ crowded)
          (inr (
            inr (
              refl,
              omega (arith, h, many),
              (since, first-append t.streak reads.0, ltb-waited limit since reads.1),
            )))
  ]
]

-- Whatever happens to a registered client, from its registration on, in any order: offers of
-- chunks, other messages, its writer taking messages and its writer stopping. Its queue has all
-- the messages that went through but those that were taken, in their order, and never more than
-- sixteen. It counts the chunks that were refused, and `full_since` is when the first of those was
-- refused that no chunk has gone through after. At the next offer it is wedged if and only if its
-- writer has stopped, or sixteen messages wait and more than the limit has passed since that first
-- refusal, which is this offer itself if there was none before.
pub offers_counted :
    (limit : ℕ) (events : List Event) (reads : ℕ × ℕ) (msg : Outbound)
    → (run limit events new_handle ≡ handle_of (tally events untouched))
      × (length (run limit events new_handle).queue ≤ 16)
      × IsAnswered limit reads
          (tally events untouched)
          (offer limit reads msg (run limit events new_handle)).1
offers_counted limit events reads msg =
    let t = tally events untouched in
    let (h, run_same) = run-handle_of limit events untouched (omega arith) in
    let same : run limit events new_handle ≡ handle_of t = run_same in
    (
      same,
      rw same (omega (arith, h, length-drop t.taken t.went)),
      rw same (offer-IsAnswered limit reads msg t h),
    )
