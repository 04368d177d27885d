-- ===== src/Gateway/Session/Client.antt =====
-- apps/openlive-gateway/src/session.rs, lines 137 to 196 and 905 to 973: the checks of a client's
-- event and its handler.
use openlive.Common.{ℕ, Bool, true, false, not, none, some, ◌++◌, ◌==◌, if◌then◌else◌}
use openlive.Common.Float.{Float}
use openlive.Common.Text.{Text, codes, text_eq}
use openlive.Common.Result.{Result, ok, err}
use openlive.Protocol.Interaction.{InteractionAction, hard_yield, soft_duck}
use openlive.Protocol.Event.{EventEnvelope, RealtimeEvent}
use openlive.Protocol.Envelope.{with_parent, protocol_version}
use openlive.Runtime.Engine
use openlive.Gateway.Timeline.{observe_client, played}
use openlive.Gateway.Session.{World, Coordinator, post, send_error}
use openlive.Gateway.Session.Streams.{client_stream_id}
use openlive.Gateway.Session.Response.{cancel_response}
use openlive.Gateway.Session.Offers.{select_capabilities, handle_visual_input}
use openlive.Gateway.Session.Requests.{
  handle_task_requested, handle_task_cancel, handle_user_transcript_delta, handle_session_resume,
}

module _ (F : Float) (J : Type 0) (W : World F J) where
  open W use {from_json, to_lowercase, doubles, task_deadline_ms}

  abbrev pub barge_in : InteractionAction → Bool
  barge_in hard_yield = true
  barge_in soft_duck = true
  barge_in _ = false

  -- The dispatch on a checked event.
  unfoldable pub handle_event : Coordinator F J → ℕ → ℕ → RealtimeEvent F J → Coordinator F J
  unfolding select_capabilities handle_visual_input handle_task_requested handle_task_cancel
      handle_session_resume handle_user_transcript_delta cancel_response post
  handle_event c t parent (RealtimeEvent.session_configured p) = record c {
    engine = Engine.update_profile F c.engine p.interaction_profile;
  }
  handle_event c t parent (RealtimeEvent.output_audio_played p) = record c {
    playout = played c.playout p.last_media_time_us;
  }
  handle_event c t parent (RealtimeEvent.capability_offer offer) =
      select_capabilities F J W c t parent offer
  handle_event c t parent (RealtimeEvent.visual_input visual) =
      handle_visual_input F J W c t parent visual
  handle_event c t parent (RealtimeEvent.task_requested request) =
      handle_task_requested F J W c t parent request
  handle_event c t parent (RealtimeEvent.task_cancel cancel) =
      handle_task_cancel F J W c t parent cancel
  handle_event c t parent (RealtimeEvent.session_resume resume) =
      handle_session_resume F J W c t parent resume
  handle_event c t parent (RealtimeEvent.user_transcript_delta delta) =
      handle_user_transcript_delta F J W c t delta
  handle_event c t parent (RealtimeEvent.interaction_decision decision) =
      if barge_in decision.action then cancel_response F J W c hard_yield t else c
  handle_event c t parent RealtimeEvent.ping = record c {
    link = post F J W c.link (codes "session") t (λ e. with_parent F J e parent) RealtimeEvent.pong;
  }
  handle_event c t parent _ = c

  unfoldable pub handle_client_event : Coordinator F J → EventEnvelope F J → Coordinator F J
  unfolding handle_event
  handle_client_event c e = handle_event c e.media_time_us e.event_id e.event

  -- The check that refuses an event, as the error's code and message, and the timeline after it.
  unfoldable pub check_stream :
      Coordinator F J → EventEnvelope F J → Text → Coordinator F J × Result (Text × Text) Unit
  check_stream c e expected =
      if not (text_eq e.stream_id expected)
      then (c, err (codes "invalid_client_stream", codes "expected stream_id " ++ expected))
      else (let (timeline, result) =
            observe_client c.client_timeline e.sequence e.stream_id e.media_time_us in
          (
            record c { client_timeline = timeline },
            elim result [
              | ok u ↦ ok tt
              | err message ↦ err (codes "invalid_client_timeline", message)
            ],
          ))

  unfoldable pub check_event :
      Coordinator F J → EventEnvelope F J → Coordinator F J × Result (Text × Text) Unit
  unfolding check_stream client_stream_id
  check_event c e =
      if not (e.session_id == c.link.session_id)
      then (
        c,
        err (codes "session_mismatch", codes "event session_id does not match this connection"),
      )
      else if not (text_eq e.protocol_version protocol_version)
      then (
        c,
        err (
          codes "protocol_version_mismatch",
          codes "expected protocol "
              ++ (protocol_version ++ (codes ", received " ++ e.protocol_version)),
        ),
      )
      else elim (client_stream_id F J e.event) [
        | none ↦ (
          c,
          err (
            codes "unsupported_client_event",
            codes "this event type cannot be sent by a client",
          ),
        )
        | some expected ↦ check_stream c e expected
      ]

  -- An event that was read and checked: its handler, or the error of the check.
  unfoldable pub after_check :
      Coordinator F J → EventEnvelope F J → Result (Text × Text) Unit → Coordinator F J
  unfolding handle_client_event send_error
  after_check c e (ok u) = handle_client_event c e
  after_check c e (err (code, message)) = record c {
    link = send_error F J W c.link e.media_time_us code message;
  }

  -- `parse_client_event` and what follows on it.
  unfoldable pub handle_text : Coordinator F J → Text → Coordinator F J
  unfolding check_event after_check send_error
  handle_text c json = elim (from_json json) [
    | err error ↦ record c { link = send_error F J W c.link 0 (codes "invalid_event") error }
    | ok e ↦ let (c', result) = check_event c e in after_check c' e result
  ]
