-- ===== src/Protocol/Event.antt =====
-- crates/openlive-protocol/src/lib.rs: the remaining payloads, the event type and its envelope.
use openlive.Common.{ℕ, Bool, Option, List}
use openlive.Common.Text.{Text}
use openlive.Common.Float.{Float}
use openlive.Protocol.Capability.{
  ProviderClass, MediaTransport, CapabilityOffer, CapabilitySelected,
}
use openlive.Protocol.Interaction.{
  InteractionProfile, Observation, EndpointingPrediction, InteractionDecision,
}
use openlive.Protocol.Task.{
  TaskCreated, TaskResult, TaskRequested, TaskAcknowledged, TaskCancel, TaskOutcome, EvidenceLink,
  SessionResume,
}

pub record SessionCreated : Type 0 where
  pub model : Text
  pub provider_class : ProviderClass
  pub input_sample_rate : ℕ
  pub output_sample_rate : ℕ
  pub media_transport : MediaTransport

pub record SessionConfigured : Type 0 where
  pub interaction_profile : InteractionProfile

pub data VisualInputSource : Type 0 where
  camera screen upload : VisualInputSource

pub data RetentionClass : Type 0 where
  ephemeral session durable : RetentionClass

pub record VisualInput : Type 0 where
  pub capture_id : ℕ
  pub source : VisualInputSource
  pub mime_type : Text
  pub width : ℕ
  pub height : ℕ
  pub byte_length : ℕ
  pub captured_at : Text
  pub retention : RetentionClass
  pub consent : Text
  pub data_url : Text

pub record VisualInputAccepted : Type 0 where
  pub capture_id : ℕ
  pub provider_observation_id : Option Text

pub record VisualInputRejected : Type 0 where
  pub capture_id : ℕ
  pub code : Text
  pub message : Text
  pub retryable : Bool

pub record OutputTextDelta : Type 0 where
  pub delta : Text

pub record OutputTextFinal : Type 0 where
  pub text : Text

pub record OutputAudioCancel : Type 0 where
  pub requested_cutoff_us : ℕ
  pub reason : Text
  pub fade_ms : ℕ

pub record OutputAudioPlayed : Type 0 where
  pub last_media_time_us : ℕ

pub data ProviderLifecycleState : Type 0 where
  transcribing reasoning synthesizing generating native_speech_started complete :
      ProviderLifecycleState

pub record ProviderState : Type 0 where
  pub state : ProviderLifecycleState

pub data LatencyPhase : Type 0 where
  response_committed first_provider_event first_text_delta first_audio_frame provider_complete
        cancel_requested :
      LatencyPhase

pub record LatencyMark : Type 0 where
  pub phase : LatencyPhase
  pub elapsed_us : ℕ

pub record ErrorEvent : Type 0 where
  pub code : Text
  pub message : Text
  pub recoverable : Bool

pub record UserTranscriptDelta : Type 0 where
  pub text : Text
  pub is_final : Bool

pub record VisualCard (J : Type 0) : Type 0 where
  pub kind : Text
  pub title : Text
  pub fields : List (Text × J)
  pub attribution : Option Text

pub data RealtimeEvent (F : Float) (J : Type 0) : Type 0 where
  session_created : SessionCreated → RealtimeEvent F J
  session_configured : SessionConfigured → RealtimeEvent F J
  capability_offer : CapabilityOffer → RealtimeEvent F J
  capability_selected : CapabilitySelected → RealtimeEvent F J
  visual_input : VisualInput → RealtimeEvent F J
  visual_input_accepted : VisualInputAccepted → RealtimeEvent F J
  visual_input_rejected : VisualInputRejected → RealtimeEvent F J
  observation : Observation F → RealtimeEvent F J
  endpointing_prediction : EndpointingPrediction F → RealtimeEvent F J
  interaction_decision : InteractionDecision F → RealtimeEvent F J
  output_text_delta : OutputTextDelta → RealtimeEvent F J
  output_text_final : OutputTextFinal → RealtimeEvent F J
  output_audio_cancel : OutputAudioCancel → RealtimeEvent F J
  output_audio_played : OutputAudioPlayed → RealtimeEvent F J
  provider_state : ProviderState → RealtimeEvent F J
  task_created : TaskCreated → RealtimeEvent F J
  task_result : TaskResult F J → RealtimeEvent F J
  task_requested : TaskRequested → RealtimeEvent F J
  task_acknowledged : TaskAcknowledged → RealtimeEvent F J
  task_cancel : TaskCancel → RealtimeEvent F J
  task_outcome : TaskOutcome → RealtimeEvent F J
  evidence_link : EvidenceLink F → RealtimeEvent F J
  session_resume : SessionResume → RealtimeEvent F J
  latency_mark : LatencyMark → RealtimeEvent F J
  error : ErrorEvent → RealtimeEvent F J
  user_transcript_delta : UserTranscriptDelta → RealtimeEvent F J
  visual_card : VisualCard J → RealtimeEvent F J
  ping : RealtimeEvent F J
  pong : RealtimeEvent F J

pub record EventEnvelope (F : Float) (J : Type 0) : Type 0 where
  pub protocol_version : Text
  pub event_id : ℕ
  pub session_id : ℕ
  pub stream_id : Text
  pub sequence : ℕ
  pub media_time_us : ℕ
  pub generation_id : Option ℕ
  pub parent_event_id : Option ℕ
  pub event : RealtimeEvent F J
