-- ===== src/Sink.antt =====
-- server/src/sink.rs: the sink that gives the player's samples to the pipeline, and the volume
-- events of server/src/spotify.rs.
pub mod Opened
pub mod Track
pub mod Volume
use snapcast_client.Prelude.{ℕ, ◌+◌, ◌*◌, ◌/◌, ◌%◌, ◌^◌, List, [], ◌∷◌, ◌++◌, map, ℤ}
use snapcast_client.Outcome.{Outcome, ok, ◌>>=◌}
use snapcast_client.Word.{Profile}
use snapcast_client.Net.Writer.{EncodedChunk, Outbound}
use snapcast_client.Net.Registry.{Registry, broadcast_settings}
use snapcast_client.Pipeline.{Pipeline, Codecs, push, reanchor, flush_with_silence}

pub data SourceEvent : Type 0 where
  started stopped paused track_changed : SourceEvent

-- `events` is what was sent to the channel. The buffer `interleaved` is cleared before each use.
pub record PipelineSink (S R E : Type 0) : Type 0 where
  pub pipeline : Pipeline S R E
  pub events : List SourceEvent

unfoldable pub new : {S R E : Type 0} → Pipeline S R E → PipelineSink S R E
new pipeline = record { pipeline = pipeline; events = [] }

-- The events of the player that its task handles.
pub data PlayerEvent : Type 0 where
  volume_changed : ℕ → PlayerEvent
  player_paused player_track_changed other : PlayerEvent

unfoldable pub volume_percent : ℕ → ℕ
volume_percent volume = (volume * 100 + 32767) / 65535 % 2 ^ 8

-- The registry, the settings that are then sent, and the events of the source.
unfoldable pub on_player_event :
    PlayerEvent → Registry → Registry × (List (ℕ × Outbound) × List SourceEvent)
unfolding volume_percent
on_player_event (volume_changed volume) r =
    let (r', messages) = broadcast_settings (volume_percent volume) r in (r', (messages, []))
on_player_event player_paused r = (r, ([], paused ∷ []))
on_player_event player_track_changed r = (r, ([], track_changed ∷ []))
on_player_event other r = (r, ([], []))

-- `F` is the type of the player's samples, and `narrow` makes them `f32`.
module _ {S R E F : Type 0} (codecs : Codecs S R E) (narrow : F → S) (p : Profile) (clock : ℕ → ℤ)
    (instants : ℕ → ℕ → ℕ × ℕ) where
  unfoldable pub start : PipelineSink S R E → PipelineSink S R E
  start s = record { pipeline = reanchor codecs s.pipeline; events = s.events ++ (started ∷ []) }

  -- The sink and the chunks that it made.
  unfoldable pub stop : PipelineSink S R E → Outcome (PipelineSink S R E × List EncodedChunk)
  stop s = do
    (pipeline, ecs) ← flush_with_silence codecs p clock instants s.pipeline
    ok (record { pipeline = pipeline; events = s.events ++ (stopped ∷ []) }, ecs)

  -- The samples of a packet, or the error of one that has none.
  unfoldable pub write :
      Outcome (List F) → PipelineSink S R E → Outcome (PipelineSink S R E × List EncodedChunk)
  write packet s = do
    samples ← packet
    (pipeline, ecs) ← push codecs p clock instants s.pipeline (map narrow samples)
    ok (record s { pipeline = pipeline }, ecs)

  -- The player writes one packet after the other.
  unfoldable pub writes :
      List (List F) → PipelineSink S R E → Outcome (PipelineSink S R E × List EncodedChunk)
  unfolding write
  writes [] s = ok (s, [])
  writes (samples ∷ packets) s = do
    (s1, ecs) ← write (ok samples) s
    (s2, ecs') ← writes packets s1
    ok (s2, ecs ++ ecs')

  -- A track: the player starts the sink, writes its packets and stops it.
  unfoldable pub play_track :
      List (List F) → PipelineSink S R E → Outcome (PipelineSink S R E × List EncodedChunk)
  unfolding start writes stop
  play_track packets s = do
    (s1, ecs) ← writes packets (start s)
    (s2, ecs') ← stop s1
    ok (s2, ecs ++ ecs')
