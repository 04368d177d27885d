-- ===== src/Gateway/Session/Moves/Control.antt =====
-- The moves of a coordinator that takes a control event from its client.
use openlive.Common.{
  ℕ, ◌≡◌, inl, inr, refl, not, ◌&&◌, some, List, [], ◌∷◌, ◌==◌, ◌/◌, if◌then◌else◌, Bool-cases,
  Option-cases,
}
use mathlib.Core.Path.{subst}
use openlive.Common.Float.{Float}
use openlive.Common.Text.{Text, codes, text_eq}
use openlive.Common.Result.{Result, ok, err, Result-cases}
use openlive.Protocol.Interaction.{hard_yield}
use openlive.Protocol.Capability.{ProviderManifest}
use openlive.Protocol.Task.{TaskRequested, TaskAcknowledged, TaskCancel, SessionResume}
use openlive.Protocol.Event.{EventEnvelope, RealtimeEvent, UserTranscriptDelta}
use openlive.Protocol.Envelope.{with_parent, protocol_version}
use openlive.Runtime.Chronos
use openlive.Runtime.Engine
use openlive.Runtime.Engine.{SessionEngine}
use openlive.Runtime.Store.{PersistedTask}
use openlive.Gateway.Tasks.Operations.{admit, cancel_task}
use openlive.Gateway.Tasks.Resume.{replay_after}
use openlive.Gateway.Tasks.Life.{step, admits, cancels}
use openlive.Gateway.Session.{World, raw_text, Link, Coordinator, send_error, persist_task_snapshot}
use openlive.Gateway.Session.Streams.{client_stream_id, check_semantic_completion}
use openlive.Common.Trim.{trim, is_empty}
use openlive.Gateway.Session.Offers.{announce, select_capabilities, handle_visual_input}
use openlive.Gateway.Session.Requests.{
  acknowledge, handle_task_requested, handle_task_cancel, handle_user_transcript_delta, send_raw,
  answer_resume, handle_session_resume, outcome_event, is_none_generation, is_empty_list,
}
use openlive.Gateway.Session.Client.{
  barge_in, handle_event, handle_client_event, check_stream, check_event, after_check, handle_text,
}
use openlive.Gateway.Session.Moves.{
  core, Moves, done, ◌then◌, chain, once, called, replayed, repeated, thought,
}
use openlive.Gateway.Session.Moves.Sends.{
  linked_to, Goes, plain-Fits, parent-Fits, post-Goes, send_error-Goes, post_buffered-Moves,
}
use openlive.Gateway.Session.Moves.Answers.{start_response-Moves, cancel_response-Moves}

module _ (F : Float) (J : Type 0) (W : World F J) where
  open W use {from_json}

  -- A text that asks the session to resume.
  abbrev pub Resumes : Text → Type 0
  Resumes json =
      (e : EventEnvelope F J) × (r : SessionResume) × (from_json json ≡ ok e)
      × (e.event ≡ RealtimeEvent.session_resume r)

module _ (F : Float) (J : Type 0) (W : World F J) (R : Type 0) where
  open W use {from_json, to_lowercase, doubles, task_deadline_ms}

  pub announce-Moves :
      (c : Coordinator F J) (manifest : ProviderManifest)
      → Moves F J W R (core F J c) (core F J (announce F J W c manifest))
  unfolding announce
  announce-Moves c manifest =
      post-Goes F J W R c c.link (codes "session") 0 (λ e. e) _ (plain-Fits F J c.active_generation)

  persist_task_snapshot-core :
      (c : Coordinator F J) (task : PersistedTask)
      → core F J (persist_task_snapshot F J W c task) ≡ core F J c
  unfolding persist_task_snapshot
  persist_task_snapshot-core c task = elim (Option-cases c.store) [
    | inl h ↦ rw (h, persist_task_snapshot)
    | inr (s, h) ↦ rw (h, persist_task_snapshot)
  ]

  acknowledge-Moves :
      (c : Coordinator F J) (t parent : ℕ) (a : TaskAcknowledged)
      → Moves F J W R (core F J c) (core F J (acknowledge F J W c t parent a))
  unfolding acknowledge
  acknowledge-Moves c t parent a =
      subst (λ x. Moves F J W R x (core F J (acknowledge F J W c t parent a)))
        (persist_task_snapshot-core c _)
        (post_buffered-Moves F J W R (persist_task_snapshot F J W c _) (codes "tasks") t parent _)

  handle_task_requested-Moves :
      (c : Coordinator F J) (t parent : ℕ) (request : TaskRequested)
      → Moves F J W R (core F J c) (core F J (handle_task_requested F J W c t parent request))
  unfolding handle_task_requested step
  handle_task_requested-Moves c t parent request =
      let call = admits task_deadline_ms (t / 1000) request (some c.provider_manifest.id) in
      let (tasks, admitted) =
        admit F c.task_orchestrator task_deadline_ms request (some c.provider_manifest.id)
          (t / 1000) in
      let c' : Coordinator F J = record c { task_orchestrator = tasks } in
      let began : Moves F J W R (core F J c) (core F J c') = once F J W R (called call) in
      elim (Option-cases admitted) [
        | inl h ↦
            rw (h, handle_task_requested)
              (chain F J W R began (send_error-Goes F J W R c' c.link t _ _))
        | inr (a, h) ↦
            rw (h, handle_task_requested) (chain F J W R began (acknowledge-Moves c' t parent a))
      ]

  handle_task_cancel-Moves :
      (c : Coordinator F J) (t parent : ℕ) (cancel : TaskCancel)
      → Moves F J W R (core F J c) (core F J (handle_task_cancel F J W c t parent cancel))
  unfolding handle_task_cancel step
  handle_task_cancel-Moves c t parent cancel =
      let (tasks, pending) = cancel_task F c.task_orchestrator cancel.task_id cancel.reason in
      let c' : Coordinator F J = record c { task_orchestrator = tasks } in
      let began : Moves F J W R (core F J c) (core F J c') =
        once F J W R (called (cancels cancel.task_id cancel.reason)) in
      elim (Option-cases pending) [
        | inl h ↦ rw (h, handle_task_cancel) began
        | inr (p, h) ↦
            rw (h, handle_task_cancel)
              (chain F J W R began
                (post_buffered-Moves F J W R c' (codes "tasks") t parent (outcome_event F J W p)))
      ]

  handle_user_transcript_delta-Moves :
      (c : Coordinator F J) (t : ℕ) (delta : UserTranscriptDelta)
      → Moves F J W R (core F J c) (core F J (handle_user_transcript_delta F J W c t delta))
  unfolding handle_user_transcript_delta
  handle_user_transcript_delta-Moves c t delta =
      let score = check_semantic_completion F to_lowercase doubles delta.text in
      let text = if is_empty (trim delta.text) then c.latest_user_text else trim delta.text in
      let c' : Coordinator F J = record c {
        latest_user_semantic_completion = some score;
        latest_user_text = text;
      } in
      elim (Bool-cases (
        delta.is_final
        && (is_none_generation c.active_generation
            && (not (is_empty text) && F.fle (F.lit 35 2) score)))) [
              | inl h ↦
                  rw (h, handle_user_transcript_delta)
                    (start_response-Moves F J W R c' c.engine t (λ g x. x))
              | inr h ↦ rw (h, handle_user_transcript_delta) done
            ]

  send_raw-Goes :
      (allowed : R) (c : Coordinator F J) (l : Link F J) (jsons : List Text)
      → Goes F J W R c l (send_raw F J W l jsons)
  unfolding send_raw
  send_raw-Goes r c l [] = done
  send_raw-Goes r c l (json ∷ jsons) =
      chain F J W R (once F J W R (repeated r json))
        (send_raw-Goes r c (record l { outgoing = raw_text json ∷ l.outgoing }) jsons)

  answer_resume-Goes :
      (allowed : R) (c : Coordinator F J) (l : Link F J) (t parent : ℕ) (replay : List Text)
      → Goes F J W R c l (answer_resume F J W l t parent replay)
  unfolding answer_resume
  answer_resume-Goes r c l t parent replay =
      elim (Bool-cases (l.moment.outgoing_closed && not (is_empty_list replay))) [
        | inl h ↦ rw (h, answer_resume) done
        | inr h ↦
            rw (h, answer_resume)
              (chain F J W R (send_raw-Goes r c l replay) (
                post-Goes F J W R c (send_raw F J W l replay) (codes "session") t
                  (λ e. with_parent F J e parent) RealtimeEvent.pong
                  (parent-Fits F J c.active_generation parent)))
      ]

  handle_session_resume-Moves :
      (allowed : R) (c : Coordinator F J) (t parent : ℕ) (resume : SessionResume)
      → Moves F J W R (core F J c) (core F J (handle_session_resume F J W c t parent resume))
  unfolding handle_session_resume
  handle_session_resume-Moves r c t parent resume =
      let now = c.link.moment.now in
      let (tasks, replay) = replay_after F c.task_orchestrator now resume.last_sequence_seen in
      let c' : Coordinator F J = record c { task_orchestrator = tasks } in
      elim (Bool-cases (resume.session_id == c.link.session_id)) [
        | inr other ↦ rw other (send_error-Goes F J W R c c.link t _ _)
        | inl same ↦ rw same (
            chain F J W R (once F J W R (replayed now resume.last_sequence_seen))
              (answer_resume-Goes r c' c.link t parent replay))
      ]

  handle_event-Moves :
      (c : Coordinator F J) (t parent : ℕ) (event : RealtimeEvent F J)
      → ((r : SessionResume) → event ≡ RealtimeEvent.session_resume r → R)
      → Moves F J W R (core F J c) (core F J (handle_event F J W c t parent event))
  unfolding handle_event select_capabilities handle_visual_input Engine.update_profile
      Chronos.update_profile
  handle_event-Moves c t parent (RealtimeEvent.session_configured p) allowed =
      once F J W R (thought (Engine.update_profile F c.engine p.interaction_profile) (λ g x. x))
  handle_event-Moves c t parent (RealtimeEvent.capability_offer offer) allowed =
      post-Goes F J W R c c.link (codes "capability") t (λ e. with_parent F J e parent) _
        (parent-Fits F J c.active_generation parent)
  handle_event-Moves c t parent (RealtimeEvent.visual_input visual) allowed =
      post-Goes F J W R c c.link (codes "visual") t (λ e. with_parent F J e parent) _
        (parent-Fits F J c.active_generation parent)
  handle_event-Moves c t parent (RealtimeEvent.task_requested request) allowed =
      handle_task_requested-Moves c t parent request
  handle_event-Moves c t parent (RealtimeEvent.task_cancel cancel) allowed =
      handle_task_cancel-Moves c t parent cancel
  handle_event-Moves c t parent (RealtimeEvent.session_resume resume) allowed =
      handle_session_resume-Moves (allowed resume refl) c t parent resume
  handle_event-Moves c t parent (RealtimeEvent.user_transcript_delta delta) allowed =
      handle_user_transcript_delta-Moves c t delta
  handle_event-Moves c t parent (RealtimeEvent.interaction_decision decision) allowed =
      elim (Bool-cases (barge_in F J W decision.action)) [
        | inl h ↦ rw (h, handle_event) (cancel_response-Moves F J W R c c.engine hard_yield t)
        | inr h ↦ rw (h, handle_event) done
      ]
  handle_event-Moves c t parent RealtimeEvent.ping allowed =
      post-Goes F J W R c c.link (codes "session") t (λ e. with_parent F J e parent) _
        (parent-Fits F J c.active_generation parent)
  handle_event-Moves c t parent _ allowed = done

  check_stream-core :
      (c : Coordinator F J) (e : EventEnvelope F J) (expected : Text)
      → core F J (check_stream F J W c e expected).0 ≡ core F J c
  unfolding check_stream
  check_stream-core c e expected = elim (Bool-cases (text_eq e.stream_id expected)) [
    | inl h ↦ rw (h, check_stream)
    | inr h ↦ rw (h, check_stream)
  ]

  check_event-core :
      (c : Coordinator F J) (e : EventEnvelope F J)
      → core F J (check_event F J W c e).0 ≡ core F J c
  unfolding check_event
  check_event-core c e = elim (Bool-cases (e.session_id == c.link.session_id)) [
    | inr other ↦ rw (other, check_event)
    | inl same ↦ elim (Bool-cases (text_eq e.protocol_version protocol_version)) [
      | inr old ↦ rw (same, old, check_event)
      | inl current ↦ elim (Option-cases (client_stream_id F J e.event)) [
        | inl h ↦ rw (same, current, h, check_event)
        | inr (expected, h) ↦ rw (same, current, h, check_event) (check_stream-core c e expected)
      ]
    ]
  ]

  -- The answer to a checked event: its handler, or an error.
  checked-Moves :
      (c c' : Coordinator F J) (e : EventEnvelope F J) (result : Result (Text × Text) Unit)
      → core F J c' ≡ core F J c
      → ((r : SessionResume) → e.event ≡ RealtimeEvent.session_resume r → R)
      → Moves F J W R (core F J c) (core F J (after_check F J W c' e result))
  unfolding after_check handle_client_event
  checked-Moves c c' e (ok u) h allowed =
      subst (λ x. Moves F J W R x (core F J (handle_client_event F J W c' e))) h
        (handle_event-Moves c' e.media_time_us e.event_id e.event allowed)
  checked-Moves c c' e (err (code, message)) h allowed =
      subst
        (λ x.
          Moves F J W R x
            (linked_to F J c' (send_error F J W c'.link e.media_time_us code message)))
        h (send_error-Goes F J W R c' c'.link e.media_time_us code message)

  -- A text from the client takes moves.
  pub handle_text-Moves :
      (c : Coordinator F J) (json : Text)
      → (Resumes F J W json → R)
      → Moves F J W R (core F J c) (core F J (handle_text F J W c json))
  unfolding handle_text
  handle_text-Moves c json allowed = elim (Result-cases (from_json json)) [
    | inl (e, h) ↦
        let (c', result) = check_event F J W c e in
        rw (h, handle_text)
          (checked-Moves c c' e result (check_event-core c e) (λ r a. allowed (e, r, h, a)))
    | inr (error, h) ↦ rw (h, handle_text) (send_error-Goes F J W R c c.link 0 _ _)
  ]
