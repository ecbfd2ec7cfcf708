-- ===== src/Program/Messages.antt =====
-- The loop of `main` in src/main.rs: what becomes of the client's messages.
use snapcast_client.Prelude.{
  ◌≡◌, refl, sym, ap, ◌∙◌, Bool, true, false, Option, some, List, [], ◌∷◌, ◌++◌, append-nil,
  append_assoc, All, if◌then◌else◌,
}
use snapcast_client.Outcome.{Error, ok, err, ◌>>=◌}
use snapcast_client.Bytes.{Bytes}
use snapcast_client.TimeVal.{TimeVal}
use snapcast_client.Client.{Message, expired, nothing, wire_chunk, server_settings, codec_header}
use snapcast_client.Decoder.{Crates, Decoder}
use snapcast_client.Playback.{SoundApis, Players}
use snapcast_client.Program.{Shared, Features, PlayerBackend, main_loop, make_decoder, make_player}

-- The chunks that came while the client was in sync, with their times.
pub forwarded : List (Bool × Message) → List (TimeVal × Bytes)
forwarded [] = []
forwarded ((true, wire_chunk wc at) ∷ msgs) = (at, wc.payload) ∷ forwarded msgs
forwarded ((true, expired late) ∷ msgs) = forwarded msgs
forwarded ((true, nothing) ∷ msgs) = forwarded msgs
forwarded ((true, server_settings v) ∷ msgs) = forwarded msgs
forwarded ((true, codec_header ch) ∷ msgs) = forwarded msgs
forwarded ((false, msg) ∷ msgs) = forwarded msgs

module _ {D U O : Type 0} (crates : Crates O) (apis : SoundApis D U) (features : Features)
    (opens : Bool) (backend : PlayerBackend) where
  -- The decoder and the player of a codec header can be opened.
  abbrev pub CanOpen : Bool × Message → Type 0
  CanOpen (in_sync, codec_header ch) =
      ((d : Decoder O) × (make_decoder crates apis features ch.metadata ≡ ok d))
      × ((pl : Players D U) × (make_player crates apis opens backend ch ≡ ok pl))
  CanOpen (in_sync, wire_chunk wc at) = Unit
  CanOpen (in_sync, expired late) = Unit
  CanOpen (in_sync, nothing) = Unit
  CanOpen (in_sync, server_settings v) = Unit

  -- The decoder in place after the messages.
  abbrev pub LastDecoder : List (Bool × Message) → Option (Decoder O) → Option (Decoder O) → Type 0
  LastDecoder [] before after = after ≡ before
  LastDecoder ((in_sync, codec_header ch) ∷ msgs) before after =
      (d : Decoder O) × (make_decoder crates apis features ch.metadata ≡ ok d)
      × LastDecoder msgs (some d) after
  LastDecoder ((in_sync, wire_chunk wc at) ∷ msgs) before after = LastDecoder msgs before after
  LastDecoder ((in_sync, expired late) ∷ msgs) before after = LastDecoder msgs before after
  LastDecoder ((in_sync, nothing) ∷ msgs) before after = LastDecoder msgs before after
  LastDecoder ((in_sync, server_settings v) ∷ msgs) before after = LastDecoder msgs before after

  -- While the playback thread receives and each codec header's decoder and player can be opened: the
  -- loop takes all messages, the channel has got just the chunks that came in sync, in their order and
  -- with their times, and the decoder in place is that of the last codec header.
  pub messages_forwarded :
      (msgs : List (Bool × Message)) (s : Shared D U O)
      → s.is_received ≡ true
      → All CanOpen msgs
      → (s' : Shared D U O) × (main_loop crates apis features opens backend msgs s ≡ ok s')
        × (s'.channel ≡ s.channel ++ forwarded msgs)
        × LastDecoder msgs s.dec s'.dec
  unfolding main_loop forwarded
  messages_forwarded [] s live can = (s, refl, sym (append-nil s.channel), refl)
  messages_forwarded ((in_sync, codec_header ch) ∷ msgs) s live (((d, hd), (pl, hp)), can) =
      let (s', run, sent, last) =
        messages_forwarded msgs (record s { dec = some d; player = some pl }) live can in
      (s', rw (hd, hp) run, sent ∙ kept in_sync, (d, hd, last))
    where
      kept :
          (b : Bool)
          → s.channel ++ forwarded msgs ≡ s.channel ++ forwarded ((b, codec_header ch) ∷ msgs)
      kept true = refl
      kept false = refl
  messages_forwarded ((true, wire_chunk wc at) ∷ msgs) s live can =
      let (s', run, sent, last) =
        messages_forwarded msgs (record s { channel = s.channel ++ ((at, wc.payload) ∷ []) }) live
          can.1 in
      (
        s',
        ap
              (λ b.
                (if b
                  then ok (record s { channel = s.channel ++ ((at, wc.payload) ∷ []) })
                  else err Error.channel_closed)
                >>= λ s1. main_loop crates apis features opens backend msgs s1)
              live
            ∙ run,
        sent ∙ append_assoc s.channel ((at, wc.payload) ∷ []) (forwarded msgs),
        last,
      )
  messages_forwarded ((false, wire_chunk wc at) ∷ msgs) s live can =
      messages_forwarded msgs s live can.1
  messages_forwarded ((true, expired late) ∷ msgs) s live can = messages_forwarded msgs s live can.1
  messages_forwarded ((false, expired late) ∷ msgs) s live can =
      messages_forwarded msgs s live can.1
  messages_forwarded ((true, nothing) ∷ msgs) s live can = messages_forwarded msgs s live can.1
  messages_forwarded ((false, nothing) ∷ msgs) s live can = messages_forwarded msgs s live can.1
  messages_forwarded ((true, server_settings v) ∷ msgs) s live can =
      messages_forwarded msgs s live can.1
  messages_forwarded ((false, server_settings v) ∷ msgs) s live can =
      messages_forwarded msgs s live can.1
