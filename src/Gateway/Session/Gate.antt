-- ===== src/Gateway/Session/Gate.antt =====
-- apps/openlive-gateway/src/session.rs, lines 1037 to 1146: the events of a generation, behind the
-- safety gate.
use openlive.Common.{ℕ, Option, none, some, if◌then◌else◌}
use openlive.Common.Float.{Float}
use openlive.Common.Text.{Text}
use openlive.Common.Trim.{trim, is_empty}
use openlive.Protocol.Event.{RealtimeEvent}
use openlive.Protocol.Envelope.{new_with_id, with_generation}
use openlive.Provider.{cancel_generation}
use openlive.Runtime.Safety.{SafetyDecision, observe_delta, finalize, pass, holdback, intervene}
use openlive.Gateway.Session.{
  World, control, Link, Coordinator, with_defaults, next_sequence, send, send_input, draw,
}
use openlive.Gateway.Session.Streams.{provider_stream_id, is_generating}

-- What is released of a provider's final text, if nothing blocked is held.
unfoldable pub final_release : Text → Text → Text
final_release released final_text =
    if is_empty released
    then final_text
    else if is_empty (trim released)
    then final_text
    else released

module _ (F : Float) (J : Type 0) (W : World F J) where
  -- An event of a generation, sent under an identifier drawn for it, which the tasks' evidence names.
  unfoldable pub emit_provider_event : Link F J → RealtimeEvent F J → ℕ → ℕ → Link F J × ℕ
  unfolding draw next_sequence send provider_stream_id
  emit_provider_event l e generation_id media_time_us =
      let (l', event_id) = draw F J W l in
      let l'' = next_sequence F J l' in
      (
        send F J l'' (
            control (
              with_generation F J
                (new_with_id F J event_id l.session_id (provider_stream_id F J e) l''.sequence
                  media_time_us e)
                generation_id)),
        event_id,
      )

  abbrev pub Emitted : Type 0
  Emitted = Option (ℕ × RealtimeEvent F J)

  -- An event sent in the place of the provider's, and itself.
  unfoldable pub emit : Coordinator F J → RealtimeEvent F J → ℕ → ℕ → Coordinator F J × Emitted
  unfolding emit_provider_event
  emit c e generation_id media_time_us =
      let (l, event_id) = emit_provider_event c.link e generation_id media_time_us in
      (record c { link = l }, some (event_id, e))

  -- The branches on what the gate says of a delta.
  unfoldable pub release_delta :
      Coordinator F J → SafetyDecision → ℕ → ℕ → Coordinator F J × Emitted
  unfolding emit send_input
  release_delta c decision generation_id media_time_us = elim decision.disposition [
    | holdback ↦ (c, none)
    | pass ↦
        if is_empty decision.release
        then (c, none)
        else emit c (RealtimeEvent.output_text_delta (record { delta = decision.release }))
            generation_id media_time_us
    | intervene ↦
        let (c', emitted) =
          emit c (RealtimeEvent.output_text_final (record { text = decision.release }))
            generation_id media_time_us in
        (record c' { link = (send_input F J c'.link (cancel_generation generation_id)).0 }, emitted)
  ]

  -- The branches on what the gate says at the end of the text.
  unfoldable pub release_final :
      Coordinator F J → SafetyDecision → Text → ℕ → ℕ → Coordinator F J × Emitted
  unfolding emit final_release
  release_final c decision final_text generation_id media_time_us = elim decision.disposition [
    | intervene ↦
        emit c (RealtimeEvent.output_text_final (record { text = decision.release })) generation_id
          media_time_us
    | pass ↦
        let (c', emitted) =
          emit c
            (RealtimeEvent.output_text_final
              (record { text = final_release decision.release final_text }))
            generation_id media_time_us in
        (record c' { safety = with_defaults }, emitted)
    | holdback ↦
        let (c', emitted) =
          emit c (RealtimeEvent.output_text_final (record { text = decision.release }))
            generation_id media_time_us in
        (record c' { safety = with_defaults }, emitted)
  ]

  unfoldable pub emit_other :
      Coordinator F J → RealtimeEvent F J → ℕ → ℕ → Coordinator F J × Emitted
  unfolding emit
  emit_other c e generation_id media_time_us =
      let (c', emitted) = emit c e generation_id media_time_us in
      (if is_generating F J e then record c' { safety = with_defaults } else c', emitted)

  unfoldable pub apply_safety_to_event :
      Coordinator F J → RealtimeEvent F J → ℕ → ℕ → Coordinator F J × Emitted
  unfolding release_delta release_final emit_other observe_delta finalize
  apply_safety_to_event c (RealtimeEvent.output_text_delta d) generation_id media_time_us =
      let (safety, decision) = observe_delta c.safety d.delta in
      release_delta (record c { safety = safety }) decision generation_id media_time_us
  apply_safety_to_event c (RealtimeEvent.output_text_final f) generation_id media_time_us =
      let (safety, decision) = finalize c.safety in
      release_final (record c { safety = safety }) decision f.text generation_id media_time_us
  apply_safety_to_event c e generation_id media_time_us = emit_other c e generation_id media_time_us

  unfoldable pub emit_event :
      Coordinator F J → RealtimeEvent F J → ℕ → ℕ → Coordinator F J × Emitted
  unfolding apply_safety_to_event emit
  emit_event c e generation_id media_time_us =
      if c.safety_enabled
      then apply_safety_to_event c e generation_id media_time_us
      else emit c e generation_id media_time_us
