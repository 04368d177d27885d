-- ===== src/Gateway/Session/Offers.antt =====
-- apps/openlive-gateway/src/session.rs, lines 104 to 300: the announcement of a session, and what is
-- answered to a client's offer and to its visual input.
use openlive.Common.{
  ℕ, Bool, true, false, not, ◌&&◌, ◌||◌, Option, none, some, List, [], ◌∷◌, ◌++◌, ltb,
  if◌then◌else◌, keep, any,
}
use openlive.Common.Float.{Float}
use openlive.Common.Text.{Text, codes, decimal, starts_with}
use openlive.Protocol.Capability.{
  Modality, audio, text, state, image, screen, CapabilityOffer, VisualInputPolicy, ProviderManifest,
  websocket_binary_pcm, unsupported, explicit_snapshot,
}
use openlive.Protocol.Event.{RealtimeEvent, VisualInput, VisualInputRejected}
use openlive.Protocol.Envelope.{with_parent}
use openlive.Gateway.Session.{World, Coordinator, post}

abbrev protocol_revision : ℕ
protocol_revision = 4

-- `first().copied().unwrap_or(d)`
abbrev first_or : List ℕ → ℕ → ℕ
first_or [] d = d
first_or (a ∷ rest) d = a

-- `==` of `Modality`.
abbrev pub modality_eq : Modality → Modality → Bool
modality_eq audio audio = true
modality_eq text text = true
modality_eq state state = true
modality_eq image image = true
modality_eq screen screen = true
modality_eq _ _ = false

abbrev is_seen : Modality → Bool
is_seen image = true
is_seen screen = true
is_seen _ = false

abbrev is_some_policy : Option VisualInputPolicy → Bool
is_some_policy none = false
is_some_policy (some p) = true

-- The requested modalities that the provider has.
unfoldable pub select : List Modality → List Modality → List Modality
select requested offered = keep (λ m. any (modality_eq m) offered) requested

-- The warnings on an offer, when the selected input has an image or not.
unfoldable pub offer_warnings : CapabilityOffer → Bool → List Text
offer_warnings offer provider_has_visual =
    (if ltb protocol_revision offer.protocol_revision
      then (codes "client protocol revision "
          ++ (decimal offer.protocol_revision
              ++ (codes " is newer than gateway revision " ++ decimal protocol_revision)))
        ∷ []
      else [])
    ++ (if is_some_policy offer.visual_input_policy && not provider_has_visual
        then codes "the selected provider does not accept visual input" ∷ []
        else [])

-- Every visual input is refused; the reason says why.
unfoldable pub rejection_of : VisualInput → VisualInputRejected
rejection_of visual =
    if ltb 393216 visual.byte_length || (ltb 1280 visual.width || ltb 720 visual.height)
    then record {
      capture_id = visual.capture_id;
      code = codes "visual_input_limit_exceeded";
      message = codes "visual input must be at most 1280×720 and 384 KB";
      retryable = true;
    }
    else if not (starts_with visual.mime_type (codes "image/"))
    then record {
      capture_id = visual.capture_id;
      code = codes "visual_input_mime_unsupported";
      message = codes "visual input must use an image MIME type";
      retryable = false;
    }
    else record {
      capture_id = visual.capture_id;
      code = codes "visual_input_unsupported";
      message =
          codes "the selected provider has no visual-input transport; the frame was not retained";
      retryable = false;
    }

module _ (F : Float) (J : Type 0) (W : World F J) where
  open W use {from_json, to_lowercase, doubles, task_deadline_ms}

  unfoldable pub announce : Coordinator F J → ProviderManifest → Coordinator F J
  unfolding post
  announce c manifest = record c {
    link =
        post F J W c.link (codes "session") 0 (λ e. e)
          (RealtimeEvent.session_created (record {
            model = manifest.id;
            provider_class = manifest.provider_class;
            input_sample_rate = first_or manifest.audio.input_sample_rates 16000;
            output_sample_rate = first_or manifest.audio.output_sample_rates 24000;
            media_transport = websocket_binary_pcm;
          }));
  }

  unfoldable pub select_capabilities : Coordinator F J → ℕ → ℕ → CapabilityOffer → Coordinator F J
  unfolding post select offer_warnings
  select_capabilities c media_time_us parent_event_id offer =
      let manifest = c.provider_manifest in
      let selected_input = select offer.requested_modalities.input manifest.modalities.input in
      let provider_has_visual = any is_seen selected_input in
      record c {
        link =
            post F J W c.link (codes "capability") media_time_us
              (λ e. with_parent F J e parent_event_id)
              (RealtimeEvent.capability_selected (record {
                protocol_revision = protocol_revision;
                provider_manifest = manifest;
                selected_input = selected_input;
                selected_output =
                    select offer.requested_modalities.output manifest.modalities.output;
                visual_mode = if provider_has_visual then explicit_snapshot else unsupported;
                resume_supported = offer.supports_resume;
                warnings = offer_warnings offer provider_has_visual;
              }));
      }

  unfoldable pub handle_visual_input : Coordinator F J → ℕ → ℕ → VisualInput → Coordinator F J
  unfolding post rejection_of
  handle_visual_input c media_time_us parent_event_id visual = record c {
    link =
        post F J W c.link (codes "visual") media_time_us (λ e. with_parent F J e parent_event_id)
          (RealtimeEvent.visual_input_rejected (rejection_of visual));
  }
