-- ===== src/Gateway/Session/Run.antt =====
-- apps/openlive-gateway/src/session.rs, lines 896 to 905 and 1209 to 1277: the loop of a session, which
-- takes one message at a time, from the client or from the provider.
use openlive.Common.{ℕ, Bool, Option, none, some, List, [], ◌∷◌}
use openlive.Common.Float.{Float}
use openlive.Common.Text.{Text, codes}
use openlive.Common.Result.{ok, err}
use openlive.Protocol.Capability.{ProviderManifest}
use openlive.Protocol.Media.{decode, display}
use openlive.Provider.{ProviderEmission, cancel_generation, close}
use openlive.Runtime.Store.{SessionStore}
use openlive.Gateway.Session.{World, Moment, Coordinator, new, send_input, send_error}
use openlive.Gateway.Session.Microphone.{handle_media}
use openlive.Gateway.Session.Offers.{announce}
use openlive.Gateway.Session.Client.{handle_text}
use openlive.Gateway.Session.Emission.{handle_provider_emission}

-- What the loop takes next; the messages that end it are the end of the list of inputs.
pub data Input (F : Float) (J : Type 0) : Type 0 where
  text_message : Text → Input F J
  binary_message : List ℕ → Input F J
  ping_message : Input F J
  provider_emission : ProviderEmission F J → Input F J

module _ (F : Float) (J : Type 0) where
  -- The coordinator at another moment.
  abbrev pub at_moment : Coordinator F J → Moment → Coordinator F J
  at_moment c moment = record c { link = record c.link { moment = moment } }

  unfoldable pub close_session : Coordinator F J → Coordinator F J
  unfolding send_input
  close_session c = elim c.active_generation [
    | none ↦ record c { link = (send_input F J c.link close).0 }
    | some active ↦ record c {
      active_generation = none;
      link = (send_input F J (send_input F J c.link (cancel_generation active.id)).0 close).0;
    }
  ]

module _ (F : Float) (J : Type 0) (W : World F J) where
  open W use {uuids}

  unfoldable pub handle_input : Coordinator F J → Input F J → Coordinator F J
  unfolding handle_text handle_media handle_provider_emission send_error display
  handle_input c (text_message text) = handle_text F J W c text
  handle_input c (binary_message binary) = elim (decode F uuids binary) [
    | ok packet ↦ handle_media F J W c packet
    | err error ↦ record c {
      link = send_error F J W c.link 0 (codes "invalid_media_packet") (display error);
    }
  ]
  handle_input c ping_message = c
  handle_input c (provider_emission emission) = handle_provider_emission F J W c emission

  unfoldable pub run_inputs : Coordinator F J → List (Moment × Input F J) → Coordinator F J
  unfolding handle_input
  run_inputs c [] = c
  run_inputs c ((moment, input) ∷ inputs) =
      run_inputs (handle_input (at_moment F J c moment) input) inputs

  unfoldable pub opened :
      ℕ → Moment → ProviderManifest → Option SessionStore → Bool → Coordinator F J
  unfolding new announce
  opened session_id moment manifest store safety_enabled =
      announce F J W (new F J session_id moment manifest store safety_enabled) manifest

  -- A whole session, from the announcement to the close.
  unfoldable pub run :
      ℕ
      → Moment
      → ProviderManifest
      → Option SessionStore
      → Bool
      → List (Moment × Input F J)
      → Coordinator F J
  unfolding opened run_inputs close_session
  run session_id moment manifest store safety_enabled inputs =
      close_session F J (run_inputs (opened session_id moment manifest store safety_enabled) inputs)
