-- ===== src/Provider.antt =====
-- crates/openlive-provider: what a gateway session and a provider say to each other.
pub mod Expiring
pub mod Context
pub mod Pending
pub mod Knowledge
pub mod Hybrid
use openlive.Common.{ℕ, Option}
use openlive.Common.Text.{Text}
use openlive.Common.Float.{Float}
use openlive.Protocol.Event.{RealtimeEvent}
use openlive.Protocol.Media.{PcmAudioFrame}

pub data ProviderInput (F : Float) : Type 0 where
  audio_frame : (media_time_us : ℕ) → PcmAudioFrame F → ProviderInput F
  commit_response :
      (generation_id conversation_version media_time_us : ℕ) (prompt_hint : Text) → ProviderInput F
  cancel_generation : (generation_id : ℕ) → ProviderInput F
  close : ProviderInput F

pub data ProviderOutput (F : Float) (J : Type 0) : Type 0 where
  event : RealtimeEvent F J → ProviderOutput F J
  audio : PcmAudioFrame F → ProviderOutput F J

pub record ProviderEmission (F : Float) (J : Type 0) : Type 0 where
  pub generation_id : Option ℕ
  pub media_offset_us : ℕ
  pub output : ProviderOutput F J
