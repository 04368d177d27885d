-- ===== src/Protocol/Interaction.antt =====
-- crates/openlive-protocol/src/lib.rs: the interaction profile, what is observed of the user, and
-- the decisions taken on it.
use openlive.Common.{ℕ, Bool, Option, List}
use openlive.Common.Text.{Text}
use openlive.Common.Float.{Float}

pub data BackchannelLevel : Type 0 where
  off minimal natural expressive : BackchannelLevel

pub data InterruptionSensitivity : Type 0 where
  conservative balanced responsive : InterruptionSensitivity

pub record InteractionProfile : Type 0 where
  pub backchannels : BackchannelLevel
  pub pause_tolerance_ms : ℕ
  pub interruption_sensitivity : InterruptionSensitivity

abbrev pub default_profile : InteractionProfile
default_profile = record {
  backchannels = BackchannelLevel.minimal;
  pause_tolerance_ms = 650;
  interruption_sensitivity = InterruptionSensitivity.balanced;
}

pub record Observation (F : Float) : Type 0 where
  pub speech_probability : F.F32
  pub echo_probability : F.F32
  pub target_speaker_probability : F.F32
  pub turn_completion_confidence : F.F32
  pub prosodic_finality : F.F32
  pub semantic_completion : Option F.F32

pub record EndpointingPrediction (F : Float) : Type 0 where
  pub speech_duration_ms : ℕ
  pub silence_duration_ms : ℕ
  pub turn_completion_confidence : F.F32
  pub prosodic_finality : F.F32
  pub should_respond : Bool
  pub reason : Text

pub data InteractionAction : Type 0 where
  listen hold_floor backchannel start_response soft_duck hard_yield resume replan delegate
        cancel_task end_session :
      InteractionAction

pub record InteractionDecision (F : Float) : Type 0 where
  pub action : InteractionAction
  pub confidence : F.F32
  pub reversible : Bool
  pub reason : Text
  pub evidence_event_ids : List ℕ
