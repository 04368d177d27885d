-- ===== src/Examples/Turns.antt =====
-- crates/openlive-runtime/src/lib.rs at concrete observations, with floats in thousandths.
use openlive.Common.{ℕ, ◌≡◌, ◌≤◌, ◌⊎◌, ◌↔◌, false, none, List, [], ◌∷◌, arith, length}
use openlive.Common.Text.{Text, codes}
use openlive.Common.Float.{milli}
use openlive.Common.Result.{ok, err}
use openlive.Protocol.Interaction.{
  InteractionProfile, BackchannelLevel, InterruptionSensitivity, Observation, hard_yield,
  start_response,
}
use openlive.Protocol.Event.{EventEnvelope, RealtimeEvent}
use openlive.Protocol.Envelope.{new_with_id}
use openlive.Runtime.Chronos.{
  ChronosDecision, Chronos, user_pause, soft_ducked, default_config, new,
}
use openlive.Runtime.Chronos.Observe.{observe}
use openlive.Runtime.Chronos.Edges.{Follows, observe-Edge}
use openlive.Runtime.Chronos.Commit.{
  ActionIs, IsBargeIn, IsTurnEnd, hard_yield_iff, start_response_iff,
}
use openlive.Runtime.Chronos.Backchannels.{
  Call, observes, backchannels, IsSpaced, backchannels-IsSpaced,
}
use openlive.Runtime.Engine.{SessionEngine, RuntimeError, process, replay}
use openlive.Runtime.Engine.Timeline.{IsNext, Takes, Numbered, process_total}
use openlive.Runtime.Engine.Replay.{IsTimeline, replay_total}

abbrev profile : InteractionProfile
profile = record {
  backchannels = BackchannelLevel.minimal;
  pause_tolerance_ms = 700;
  interruption_sensitivity = InterruptionSensitivity.balanced;
}

-- Speech at a level, in thousandths, with a completion signal.
abbrev heard : ℕ → ℕ → Observation milli
heard speech completion = record {
  speech_probability = speech;
  echo_probability = 0;
  target_speaker_probability = 1000;
  turn_completion_confidence = completion;
  prosodic_finality = completion;
  semantic_completion = none;
}

abbrev ducked : Chronos milli
ducked = record {
  config = default_config milli;
  profile = profile;
  state = soft_ducked 9 1000000;
  last_backchannel_us = none;
}

abbrev paused : Chronos milli
paused = record ducked { state = user_pause 0 1000000 }

observe-Edge_example :
    Follows milli 1400000
      (soft_ducked 9 1000000)
      (observe milli ducked 3 1400000 (heard 900 0)).0.state
      (observe milli ducked 3 1400000 (heard 900 0)).1
observe-Edge_example = observe-Edge milli ducked 3 1400000 (heard 900 0)

hard_yield_iff_example :
    ActionIs milli hard_yield (observe milli ducked 3 1400000 (heard 900 0)).1
    ↔ IsBargeIn milli ducked 1400000 (heard 900 0)
hard_yield_iff_example = hard_yield_iff milli ducked 3 1400000 (heard 900 0)

start_response_iff_example :
    ActionIs milli start_response (observe milli paused 3 2000000 (heard 0 900)).1
    ↔ IsTurnEnd milli paused 2000000 (heard 0 900)
start_response_iff_example = start_response_iff milli paused 3 2000000 (heard 0 900)

abbrev yields : ChronosDecision milli
yields = record {
  action = hard_yield;
  confidence = 900;
  reversible = false;
  reason = codes "sustained target-like speech confirms interruption";
  evidence_event_ids = 3 ∷ [];
}

abbrev long_turn : List (Call milli)
long_turn =
    observes 4 6000000 (heard 900 100)
    ∷ observes 3 4000000 (heard 900 100)
    ∷ observes 2 2000000 (heard 900 100)
    ∷ observes 1 0 (heard 900 100)
    ∷ []

backchannels-IsSpaced_example :
    IsSpaced milli 3500 (backchannels milli (new milli (default_config milli) profile) long_turn)
unfolding default_config
backchannels-IsSpaced_example = backchannels-IsSpaced milli (default_config milli) profile long_turn

abbrev hash : ℕ → Text → ℕ
hash namespace name = length name

abbrev plain : ℕ → Text
plain n = []

abbrev envelope : ℕ → ℕ → EventEnvelope milli ℕ
envelope id t =
    new_with_id milli ℕ id 5 (codes "audio") id t (RealtimeEvent.observation (heard 900 0))

abbrev engine : SessionEngine milli
engine = record { session_id = 5; sequence = 0; last_media_time_us = 0; chronos = ducked }

process_total_example :
    (IsNext milli ℕ engine (envelope 1 1400000)
      × ((out : List (EventEnvelope milli ℕ)) × ((process milli ℕ hash plain engine
              (envelope 1 1400000)).1
            ≡ ok out)
          × Takes milli ℕ 5 0 (process milli ℕ hash plain engine (envelope 1 1400000)).0 out
          × ((process milli ℕ hash plain engine (envelope 1 1400000)).0.last_media_time_us
              ≡ (envelope 1 1400000).media_time_us)))
    ⊎ ((¬ IsNext milli ℕ engine (envelope 1 1400000))
        × ((e : RuntimeError) × (process milli ℕ hash plain engine (envelope 1 1400000)
              ≡ (engine, err e))))
process_total_example = process_total milli ℕ hash plain engine (envelope 1 1400000) (omega arith)

abbrev recorded : List (EventEnvelope milli ℕ)
recorded = envelope 1 0 ∷ envelope 2 1400000 ∷ []

replay_total_example :
    (IsTimeline milli ℕ 5 0 recorded
      × ((out : List (EventEnvelope milli ℕ)) × (replay milli ℕ hash plain 5
              (default_config milli)
              profile
              recorded
            ≡ ok out)
          × Numbered milli ℕ 5 0 out
          × (length out ≤ length recorded)))
    ⊎ ((¬ IsTimeline milli ℕ 5 0 recorded)
        × ((e : RuntimeError) × (replay milli ℕ hash plain 5 (default_config milli) profile recorded
              ≡ err e)))
replay_total_example =
    replay_total milli ℕ hash plain 5 (default_config milli) profile recorded (omega arith)
