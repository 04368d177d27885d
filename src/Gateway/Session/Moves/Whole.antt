-- ===== src/Gateway/Session/Moves/Whole.antt =====
-- A session's run, from the announcement on, is a run of the abstract session.
use openlive.Common.{◌⊎◌, ℕ, inl, inr, Bool, Option, List, [], ◌∷◌}
use openlive.Common.Float.{Float}
use openlive.Common.Result.{Result-cases}
use openlive.Protocol.Capability.{ProviderManifest}
use openlive.Protocol.Media.{decode}
use openlive.Runtime.Store.{SessionStore}
use openlive.Gateway.Session.{World, Moment, Coordinator, new}
use openlive.Gateway.Session.Offers.{announce}
use openlive.Gateway.Session.Run.{
  Input, text_message, binary_message, ping_message, provider_emission, at_moment, handle_input,
  run_inputs, opened,
}
use openlive.Gateway.Session.Moves.{core, Moves, done, chain}
use openlive.Gateway.Session.Moves.Sends.{send_error-Goes}
use openlive.Gateway.Session.Moves.Inputs.{handle_media-Moves}
use openlive.Gateway.Session.Moves.Control.{announce-Moves, Resumes, handle_text-Moves}
use openlive.Gateway.Session.Moves.Emissions.{handle_provider_emission-Moves}

module _ (F : Float) (J : Type 0) (W : World F J) where
  -- A message of the client that asks the session to resume.
  abbrev pub Replays : Input F J → Type 0
  Replays (text_message json) = Resumes F J W json
  Replays _ = ⊥

  abbrev pub SomeReplay : List (Moment × Input F J) → Type 0
  SomeReplay [] = ⊥
  SomeReplay ((moment, input) ∷ inputs) = Replays input ⊎ SomeReplay inputs

  -- The coordinator after the announcement and some inputs.
  abbrev pub ran :
      ℕ
      → Moment
      → ProviderManifest
      → Option SessionStore
      → Bool
      → List (Moment × Input F J)
      → Coordinator F J
  ran session_id moment manifest store safety inputs =
      run_inputs F J W (opened F J W session_id moment manifest store safety) inputs

module _ (F : Float) (J : Type 0) (W : World F J) (R : Type 0) where
  open W use {uuids}

  -- What an input does, where `R` holds if it asks for a replay.
  input-Moves :
      (c : Coordinator F J) (input : Input F J)
      → (Replays F J W input → R)
      → Moves F J W R (core F J c) (core F J (handle_input F J W c input))
  unfolding handle_input
  input-Moves c (text_message json) r = handle_text-Moves F J W R c json r
  input-Moves c (binary_message binary) r = elim (Result-cases (decode F uuids binary)) [
    | inl (packet, h) ↦ rw (h, handle_input) (handle_media-Moves F J W R c packet)
    | inr (error, h) ↦ rw (h, handle_input) (send_error-Goes F J W R c c.link 0 _ _)
  ]
  input-Moves c ping_message r = done
  input-Moves c (provider_emission emission) r = handle_provider_emission-Moves F J W R c emission

  pub run_inputs-Moves :
      (c : Coordinator F J) (inputs : List (Moment × Input F J))
      → (SomeReplay F J W inputs → R)
      → Moves F J W R (core F J c) (core F J (run_inputs F J W c inputs))
  unfolding run_inputs
  run_inputs-Moves c [] r = done
  run_inputs-Moves c ((moment, input) ∷ inputs) r =
      let c' = at_moment F J c moment in
      chain F J W R (input-Moves c' input (λ h. r (inl h)))
        (run_inputs-Moves (handle_input F J W c' input) inputs (λ h. r (inr h)))

  pub ran-Moves :
      (session_id : ℕ) (moment : Moment) (manifest : ProviderManifest) (store : Option SessionStore)
      (safety : Bool) (inputs : List (Moment × Input F J))
      → (SomeReplay F J W inputs → R)
      → Moves F J W R
          (core F J (new F J session_id moment manifest store safety))
          (core F J (ran F J W session_id moment manifest store safety inputs))
  unfolding opened
  ran-Moves session_id moment manifest store safety inputs r =
      let c = new F J session_id moment manifest store safety in
      chain F J W R (announce-Moves F J W R c manifest)
        (run_inputs-Moves (announce F J W c manifest) inputs r)

module _ (F : Float) (J : Type 0) (W : World F J) where
  -- Whatever the session takes next, a text, a packet, a ping or an emission of its provider, what
  -- it does to its counters, messages, engine, leases, generation and tasks is a run of the moves of
  -- the abstract session, in which buffered texts are sent again only if the client asks to resume.
  pub handle_input-Moves :
      (c : Coordinator F J) (input : Input F J)
      → Moves F J W (Replays F J W input) (core F J c) (core F J (handle_input F J W c input))
  handle_input-Moves c input = input-Moves F J W (Replays F J W input) c input (λ h. h)
