-- ===== src/Gateway/Session/Response.antt =====
-- apps/openlive-gateway/src/session.rs, lines 660 to 815: how decisions start and cancel a response.
use openlive.Common.{ℕ, Bool, true, false, Option, none, some, List, [], ◌∷◌, ◌++◌, if◌then◌else◌}
use openlive.Common.Float.{Float}
use openlive.Common.Text.{Text, codes}
use openlive.Common.Trim.{is_empty}
use openlive.Common.Result.{ok, err}
use openlive.Protocol.Interaction.{InteractionAction, listen, hard_yield, replan}
use openlive.Protocol.Event.{EventEnvelope, RealtimeEvent, response_committed, cancel_requested}
use openlive.Protocol.Envelope.{with_generation}
use openlive.Provider.{commit_response, cancel_generation}
use openlive.Audio.{reset}
use openlive.Runtime.Engine
use openlive.Runtime.Lease.{AnswerLease, begin_user_turn, issue, revoke}
use openlive.Gateway.Tasks.Operations.{bind_pending_to_generation}
use openlive.Gateway.Latency.{ActiveGeneration, new_tracker, mark}
use openlive.Gateway.Timeline.{record_interruption, take_prompt, cancel_playout}
use openlive.Gateway.Session.{
  World, control, Link, Coordinator, next_sequence, send, send_input, draw, post, send_error,
  send_latency,
}
use openlive.Gateway.Session.Streams.{decision_action}

abbrev pub is_hard_yield : InteractionAction → Bool
is_hard_yield hard_yield = true
is_hard_yield _ = false

-- The user's words, behind the repair text if there is one.
unfoldable pub prompt_hint_of : Text → Text → Text
prompt_hint_of repair user_text =
    if is_empty repair
    then user_text
    else if is_empty user_text
    then repair
    else repair ++ (codes "\n\nUser said: " ++ user_text)

-- `self.leases.active().map_or_else(Default::default, ..)`
abbrev pub version_of : Option AnswerLease → ℕ
version_of none = 0
version_of (some lease) = lease.conversation_version

module _ (F : Float) (J : Type 0) (W : World F J) where
  open W use {new_v5, uuid_text}

  -- The new generation in the coordinator's parts, before anything is sent of it.
  unfoldable pub begin_generation : Coordinator F J → ℕ → ℕ → Coordinator F J
  begin_generation c generation_id media_time_us = record c {
    endpointing = reset F;
    latest_user_semantic_completion = none;
    latest_user_text = [];
    repair = (take_prompt uuid_text c.repair).0;
    leases = (issue new_v5 c.leases generation_id).0;
    engine = Engine.mark_response_started F c.engine generation_id;
    task_orchestrator = (bind_pending_to_generation F c.task_orchestrator generation_id).0;
    active_generation = some (record {
      id = generation_id;
      base_media_time_us = media_time_us;
      latency = new_tracker c.link.moment.now;
    });
  }

  -- `CommitResponse` to the provider, with an error to the client if the provider is gone.
  unfoldable pub commit : Link F J → ℕ → ℕ → ℕ → Text → Link F J
  unfolding send_input send_error
  commit l generation_id conversation_version media_time_us prompt_hint =
      let (l', sent) =
        send_input F J l
          (commit_response generation_id conversation_version media_time_us prompt_hint) in
      if sent
      then l'
      else send_error F J W l' media_time_us (codes "provider_closed")
          (codes "provider input channel closed")

  -- A response, where no generation is active.
  unfoldable pub respond : Coordinator F J → ℕ → Coordinator F J
  unfolding begin_generation commit send_latency draw prompt_hint_of
  respond c media_time_us =
      let (l, generation_id) = draw F J W c.link in
      let prompt_hint = prompt_hint_of (take_prompt uuid_text c.repair).1 c.latest_user_text in
      let c' = begin_generation (record c { link = l }) generation_id media_time_us in
      let l' =
        send_latency F J W l media_time_us generation_id
          (record { phase = response_committed; elapsed_us = 0 }) in
      record c' {
        link = commit l' generation_id (version_of c'.leases.active) media_time_us prompt_hint;
      }

  unfoldable pub start_response : Coordinator F J → ℕ → Coordinator F J
  unfolding respond
  start_response c media_time_us = elim c.active_generation [
    | some active ↦ c
    | none ↦ respond c media_time_us
  ]

  -- The messages of a cancellation: the latency mark, the word to the provider, and to the client
  -- after a barge-in.
  unfoldable pub announce_cancel : Link F J → ActiveGeneration → InteractionAction → ℕ → Link F J
  unfolding send_latency send_input post
  announce_cancel l active action media_time_us =
      let l1 =
        send_latency F J W l media_time_us active.id
          (mark active.latency l.moment.now cancel_requested) in
      let l2 = (send_input F J l1 (cancel_generation active.id)).0 in
      if is_hard_yield action
      then post F J W l2 (codes "assistant_audio") media_time_us
          (λ e. with_generation F J e active.id)
          (RealtimeEvent.output_audio_cancel (record {
            requested_cutoff_us = media_time_us;
            reason = codes "confirmed user barge-in";
            fade_ms = 35;
          }))
      else l2

  -- The cancellation of the active generation.
  unfoldable pub cancel_active :
      Coordinator F J → ActiveGeneration → InteractionAction → ℕ → Coordinator F J
  unfolding announce_cancel
  cancel_active c active action media_time_us = record c {
    active_generation = none;
    repair =
        if is_hard_yield action
        then record_interruption c.repair active.id media_time_us
        else c.repair;
    playout = cancel_playout c.playout;
    leases = revoke c.leases active.id;
    link = announce_cancel c.link active action media_time_us;
  }

  unfoldable pub cancel_response : Coordinator F J → InteractionAction → ℕ → Coordinator F J
  unfolding cancel_active
  cancel_response c action media_time_us = elim c.active_generation [
    | none ↦ c
    | some active ↦ cancel_active c active action media_time_us
  ]

  unfoldable pub handle_action : Coordinator F J → InteractionAction → ℕ → Coordinator F J
  unfolding start_response cancel_response
  handle_action c listen media_time_us = record c { leases = begin_user_turn c.leases }
  handle_action c InteractionAction.start_response media_time_us = start_response c media_time_us
  handle_action c hard_yield media_time_us = cancel_response c hard_yield media_time_us
  handle_action c replan media_time_us = cancel_response c replan media_time_us
  handle_action c _ media_time_us = c

  -- A barge-in is marked with the generation it interrupts.
  unfoldable pub tag_generation :
      Option ActiveGeneration → Option InteractionAction → EventEnvelope F J → EventEnvelope F J
  tag_generation (some active) (some hard_yield) e = with_generation F J e active.id
  tag_generation _ _ e = e

  abbrev pub handle_some : Coordinator F J → Option InteractionAction → ℕ → Coordinator F J
  handle_some c none media_time_us = c
  handle_some c (some action) media_time_us = handle_action c action media_time_us

  unfoldable pub apply_decision : Coordinator F J → EventEnvelope F J → ℕ → Coordinator F J
  unfolding next_sequence send tag_generation handle_action decision_action
  apply_decision c decision media_time_us =
      let l = next_sequence F J c.link in
      let e = record decision { sequence = l.sequence } in
      let action = decision_action F J e in
      handle_some
        (record c { link = send F J l (control (tag_generation c.active_generation action e)) })
        action media_time_us

  -- The loop over the decisions.
  unfoldable pub apply_decisions : Coordinator F J → List (EventEnvelope F J) → ℕ → Coordinator F J
  apply_decisions c [] media_time_us = c
  apply_decisions c (d ∷ ds) media_time_us =
      apply_decisions (apply_decision c d media_time_us) ds media_time_us

  unfoldable pub apply_observation : Coordinator F J → EventEnvelope F J → ℕ → Coordinator F J
  unfolding apply_decisions send_error
  apply_observation c observation media_time_us =
      let (engine, result) = Engine.process F J new_v5 uuid_text c.engine observation in
      elim result [
        | ok decisions ↦ apply_decisions (record c { engine = engine }) decisions media_time_us
        | err error ↦ record c {
          engine = engine;
          link =
              send_error F J W c.link media_time_us (codes "runtime_error")
                (Engine.error_text uuid_text error);
        }
      ]
