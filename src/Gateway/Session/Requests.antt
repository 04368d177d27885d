-- ===== src/Gateway/Session/Requests.antt =====
-- apps/openlive-gateway/src/session.rs, lines 300 to 418: what the session does with the tasks, the
-- transcripts and the resumption of its client.
use openlive.Common.{
  ℕ, Bool, true, false, not, ◌&&◌, Option, none, some, List, [], ◌∷◌, ◌==◌, if◌then◌else◌, ◌/◌,
}
use openlive.Common.Float.{Float}
use openlive.Common.Text.{Text, codes}
use openlive.Common.Trim.{trim, is_empty}
use openlive.Protocol.Task.{TaskRequested, TaskAcknowledged, TaskCancel, SessionResume}
use openlive.Protocol.Event.{RealtimeEvent, UserTranscriptDelta}
use openlive.Protocol.Envelope.{with_parent}
use openlive.Runtime.Store.{PersistedTask}
use openlive.Gateway.Tasks.{PendingOutcome}
use openlive.Gateway.Tasks.Operations.{admit, cancel_task}
use openlive.Gateway.Tasks.Resume.{replay_after}
use openlive.Gateway.Session.{
  World, raw_text, Link, Coordinator, post, post_buffered, send_error, persist_task_snapshot,
}
use openlive.Gateway.Session.Streams.{check_semantic_completion}
use openlive.Gateway.Session.Response.{start_response}

abbrev pub is_empty_list : List Text → Bool
is_empty_list [] = true
is_empty_list (t ∷ ts) = false

abbrev pub is_none_generation {ℓ} : {A : Type ℓ} → Option A → Bool
is_none_generation none = true
is_none_generation (some a) = false

module _ (F : Float) (J : Type 0) (W : World F J) where
  open W use {from_json, to_lowercase, doubles, task_deadline_ms}

  -- An acknowledged task: kept on disk, then answered.
  unfoldable pub acknowledge : Coordinator F J → ℕ → ℕ → TaskAcknowledged → Coordinator F J
  unfolding persist_task_snapshot post_buffered
  acknowledge c media_time_us parent_event_id acknowledgement =
      let snapshot : PersistedTask = record {
        session_id = c.link.session_id;
        task_id = acknowledgement.task_id;
        intent = codes "task";
        status = codes "acknowledged";
        deadline_ms = acknowledgement.deadline_ms;
        generation_id = none;
        summary = none;
        updated_at_ms = media_time_us / 1000;
      } in
      post_buffered F J W (persist_task_snapshot F J W c snapshot) (codes "tasks") media_time_us
        parent_event_id (RealtimeEvent.task_acknowledged acknowledgement)

  unfoldable pub handle_task_requested : Coordinator F J → ℕ → ℕ → TaskRequested → Coordinator F J
  unfolding acknowledge send_error
  handle_task_requested c media_time_us parent_event_id request =
      let (tasks, admitted) =
        admit F c.task_orchestrator task_deadline_ms request (some c.provider_manifest.id)
          (media_time_us / 1000) in
      let c' = record c { task_orchestrator = tasks } in
      elim admitted [
        | none ↦ record c' {
          link =
              send_error F J W c.link media_time_us (codes "task_rejected")
                (codes "task could not be admitted (empty intent or duplicate id)");
        }
        | some acknowledgement ↦ acknowledge c' media_time_us parent_event_id acknowledgement
      ]

  -- The event of an outcome.
  abbrev pub outcome_event : PendingOutcome → RealtimeEvent F J
  outcome_event pending = RealtimeEvent.task_outcome (record {
    task_id = pending.task_id;
    result = pending.result;
    summary = pending.summary;
    evidence_ids = pending.evidence_ids;
    error_code = pending.error_code;
    error_detail = pending.error_detail;
  })

  unfoldable pub handle_task_cancel : Coordinator F J → ℕ → ℕ → TaskCancel → Coordinator F J
  unfolding post_buffered
  handle_task_cancel c media_time_us parent_event_id cancel =
      let (tasks, pending) = cancel_task F c.task_orchestrator cancel.task_id cancel.reason in
      elim pending [
        | none ↦ record c { task_orchestrator = tasks }
        | some p ↦
            post_buffered F J W (record c { task_orchestrator = tasks }) (codes "tasks")
              media_time_us parent_event_id (outcome_event p)
      ]

  unfoldable pub handle_user_transcript_delta :
      Coordinator F J → ℕ → UserTranscriptDelta → Coordinator F J
  unfolding start_response check_semantic_completion
  handle_user_transcript_delta c media_time_us delta =
      let score = check_semantic_completion F to_lowercase doubles delta.text in
      let text = if is_empty (trim delta.text) then c.latest_user_text else trim delta.text in
      let c' = record c { latest_user_semantic_completion = some score; latest_user_text = text } in
      if delta.is_final
        && (is_none_generation c.active_generation
            && (not (is_empty text) && F.fle (F.lit 35 2) score))
      then start_response F J W c' media_time_us
      else c'

  -- The loop over the replayed envelopes.
  unfoldable pub send_raw : Link F J → List Text → Link F J
  send_raw l [] = l
  send_raw l (json ∷ jsons) = send_raw (record l { outgoing = raw_text json ∷ l.outgoing }) jsons

  -- The envelopes of a resume, then a pong. The first envelope that the channel does not take ends it.
  unfoldable pub answer_resume : Link F J → ℕ → ℕ → List Text → Link F J
  unfolding send_raw post
  answer_resume l media_time_us parent_event_id replay =
      if l.moment.outgoing_closed && not (is_empty_list replay)
      then l
      else post F J W (send_raw l replay) (codes "session") media_time_us
          (λ e. with_parent F J e parent_event_id) RealtimeEvent.pong

  unfoldable pub handle_session_resume : Coordinator F J → ℕ → ℕ → SessionResume → Coordinator F J
  unfolding answer_resume send_error
  handle_session_resume c media_time_us parent_event_id resume =
      if not (resume.session_id == c.link.session_id)
      then record c {
        link =
            send_error F J W c.link media_time_us (codes "session_mismatch")
              (codes "resume session_id does not match this connection");
      }
      else (let (tasks, replay) =
            replay_after F c.task_orchestrator c.link.moment.now resume.last_sequence_seen in
          record c {
            task_orchestrator = tasks;
            link = answer_resume c.link media_time_us parent_event_id replay;
          })
