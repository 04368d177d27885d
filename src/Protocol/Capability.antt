-- ===== src/Protocol/Capability.antt =====
-- crates/openlive-protocol/src/lib.rs: what clients and providers say they can do. Identifiers are
-- 128-bit numbers, texts lists of code points.
use openlive.Common.{ℕ, Bool, Option, List}
use openlive.Common.Text.{Text}

pub data ProviderClass : Type 0 where
  native_duplex hybrid_streaming cascade mock : ProviderClass

pub data MediaTransport : Type 0 where
  websocket_binary_pcm : MediaTransport

pub data Modality : Type 0 where
  audio text state image screen : Modality

pub record ModalityCapabilities : Type 0 where
  pub input : List Modality
  pub output : List Modality

pub data VisualInputMode : Type 0 where
  unsupported explicit_snapshot continuous_frames : VisualInputMode

pub record VisualInputPolicy : Type 0 where
  pub mode : VisualInputMode
  pub max_width : ℕ
  pub max_height : ℕ
  pub max_bytes : ℕ
  pub durable_retention : Bool

pub record CapabilityOffer : Type 0 where
  pub protocol_revision : ℕ
  pub client_id : Text
  pub requested_modalities : ModalityCapabilities
  pub visual_input_policy : Option VisualInputPolicy
  pub supports_resume : Bool
  pub supported_languages : List Text

pub data LicenseClass : Type 0 where
  redistributable user_download research_only hosted_only unknown : LicenseClass

pub record DuplexCapabilities : Type 0 where
  pub continuous_input_while_output : Bool
  pub native_turn_policy : Bool
  pub native_barge_in : Bool
  pub state_tokens : Bool

pub record AudioCapabilities : Type 0 where
  pub input_sample_rates : List ℕ
  pub output_sample_rates : List ℕ
  pub frame_ms : ℕ

pub record ControlCapabilities : Type 0 where
  pub text_injection : Bool
  pub context_update : Bool
  pub voice_conditioning : Bool
  pub cancel_generation : Bool
  pub resume_generation : Bool

pub record ProviderLimits : Type 0 where
  pub max_session_seconds : ℕ
  pub required_gpu_memory_gb : Option ℕ

pub record ProviderManifest : Type 0 where
  pub id : Text
  pub adapter_version : Text
  pub provider_class : ProviderClass
  pub license_class : LicenseClass
  pub modalities : ModalityCapabilities
  pub duplex : DuplexCapabilities
  pub audio : AudioCapabilities
  pub control : ControlCapabilities
  pub limits : ProviderLimits

pub record CapabilitySelected : Type 0 where
  pub protocol_revision : ℕ
  pub provider_manifest : ProviderManifest
  pub selected_input : List Modality
  pub selected_output : List Modality
  pub visual_mode : VisualInputMode
  pub resume_supported : Bool
  pub warnings : List Text
