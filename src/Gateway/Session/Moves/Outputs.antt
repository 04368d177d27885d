-- ===== src/Gateway/Session/Moves/Outputs.antt =====
-- The moves of a coordinator that sends outcomes of tasks and links of evidence.
use openlive.Common.{
  ℕ, ◌≡◌, inl, inr, refl, ◌∙◌, Bool, true, false, none, some, List, [], ◌∷◌, Bool-cases,
  Option-cases,
}
use openlive.Common.Float.{Float}
use openlive.Common.Text.{Text, codes}
use openlive.Protocol.Task.{EvidenceKind, EvidenceLink}
use openlive.Protocol.Event.{EventEnvelope, RealtimeEvent, LatencyMark}
use openlive.Protocol.Envelope.{with_parent}
use openlive.Gateway.Tasks.{PendingOutcome}
use openlive.Gateway.Tasks.Operations.{attach_evidence, task_ids_for_generation}
use openlive.Gateway.Tasks.Links.{link_evidence}
use openlive.Gateway.Tasks.Life.{step, attaches}
use openlive.Gateway.Latency.{ActiveGeneration}
use openlive.Gateway.Session.{
  World, Link, Coordinator, post_buffered, send_and_buffer, send_latency, envelope,
}
use openlive.Gateway.Session.Streams.{classify_evidence}
use openlive.Gateway.Session.Requests.{outcome_event}
use openlive.Gateway.Session.Emission.{
  send_latencies, emit_pending_outcomes, emit_evidence_link, attach_link, attach_to_tasks,
  attach_evidence_to_generation, attach_emitted,
}
use openlive.Gateway.Session.Gate.{Emitted}
use openlive.Gateway.Session.Moves.{core, Moves, done, chain, once, called, linked}
use openlive.Gateway.Session.Moves.Sends.{Goes, send_latency-Goes, post_buffered-Moves}

module _ (F : Float) (J : Type 0) (W : World F J) (R : Type 0) where
  pub send_latencies-Goes :
      (c : Coordinator F J) (l : Link F J) (t : ℕ) (a : ActiveGeneration) (marks : List LatencyMark)
      → c.active_generation ≡ some a
      → Goes F J W R c l (send_latencies F J W l t a.id marks)
  unfolding send_latencies
  send_latencies-Goes c l t a [] h = done
  send_latencies-Goes c l t a (mark ∷ marks) h =
      chain F J W R (send_latency-Goes F J W R c l t a mark h)
        (send_latencies-Goes c (send_latency F J W l t a.id mark) t a marks h)

  send_and_buffer-active :
      (c : Coordinator F J) (e : EventEnvelope F J)
      → (send_and_buffer F J W c e).active_generation ≡ c.active_generation
  unfolding send_and_buffer
  send_and_buffer-active c e = elim (Option-cases (W.to_json e)) [
    | inl h ↦ rw (h, send_and_buffer)
    | inr (json, h) ↦ rw (h, send_and_buffer)
  ]

  post_buffered-active :
      (c : Coordinator F J) (stream_id : Text) (t parent : ℕ) (e : RealtimeEvent F J)
      → (post_buffered F J W c stream_id t parent e).active_generation ≡ c.active_generation
  unfolding post_buffered
  post_buffered-active c stream_id t parent e =
      let (l, x) = envelope F J W c.link stream_id t e in
      send_and_buffer-active (record c { link = l }) (with_parent F J x parent)

  pub emit_pending_outcomes-Moves :
      (c : Coordinator F J) (t : ℕ) (ps : List PendingOutcome)
      → Moves F J W R (core F J c) (core F J (emit_pending_outcomes F J W c t ps))
  unfolding emit_pending_outcomes
  emit_pending_outcomes-Moves c t [] = done
  emit_pending_outcomes-Moves c t (p ∷ ps) =
      let c' = post_buffered F J W c (codes "tasks") t p.task_id (outcome_event F J W p) in
      chain F J W R (post_buffered-Moves F J W R c (codes "tasks") t p.task_id _)
        (emit_pending_outcomes-Moves c' t ps)

  pub emit_pending_outcomes-active :
      (c : Coordinator F J) (t : ℕ) (ps : List PendingOutcome)
      → (emit_pending_outcomes F J W c t ps).active_generation ≡ c.active_generation
  unfolding emit_pending_outcomes
  emit_pending_outcomes-active c t [] = refl
  emit_pending_outcomes-active c t (p ∷ ps) =
      let c' = post_buffered F J W c (codes "tasks") t p.task_id (outcome_event F J W p) in
      emit_pending_outcomes-active c' t ps ∙ post_buffered-active c (codes "tasks") t p.task_id _

  emit_evidence_link-Moves :
      (c : Coordinator F J) (t : ℕ) (l : EvidenceLink F)
      → Moves F J W R (core F J c) (core F J (emit_evidence_link F J W c t l))
  unfolding emit_evidence_link
  emit_evidence_link-Moves c t l =
      let (tasks, inserted) = link_evidence F c.task_orchestrator l in
      let c' : Coordinator F J = record c { task_orchestrator = tasks } in
      elim (Bool-cases inserted) [
        | inl h ↦
            rw (h, emit_evidence_link)
              (chain F J W R (once F J W R (linked l)) (post_buffered-Moves F J W R c' _ t _ _))
        | inr h ↦ rw (h, emit_evidence_link) (once F J W R (linked l))
      ]

  attach_link-Moves :
      (c : Coordinator F J) (id e t : ℕ) (attached : Bool)
      → Moves F J W R (core F J c) (core F J (attach_link F J W c id e t attached))
  unfolding attach_link
  attach_link-Moves c id e t true = emit_evidence_link-Moves c t _
  attach_link-Moves c id e t false = done

  attach_to_tasks-Moves :
      (c : Coordinator F J) (kind : EvidenceKind) (e t : ℕ) (ids : List ℕ)
      → Moves F J W R (core F J c) (core F J (attach_to_tasks F J W c kind e t ids))
  unfolding attach_to_tasks step
  attach_to_tasks-Moves c kind e t [] = done
  attach_to_tasks-Moves c kind e t (id ∷ ids) =
      let (tasks, attached) = attach_evidence F c.task_orchestrator id kind e in
      let c' : Coordinator F J = record c { task_orchestrator = tasks } in
      let c'' = attach_link F J W c' id e t attached in
      chain F J W R (once F J W R (called (attaches id kind e))) (
        chain F J W R (attach_link-Moves c' id e t attached)
          (attach_to_tasks-Moves c'' kind e t ids))

  attach_evidence_to_generation-Moves :
      (c : Coordinator F J) (g id : ℕ) (e : RealtimeEvent F J) (t : ℕ)
      → Moves F J W R (core F J c) (core F J (attach_evidence_to_generation F J W c g id e t))
  unfolding attach_evidence_to_generation
  attach_evidence_to_generation-Moves c g id e t = elim (Option-cases (classify_evidence F J e)) [
    | inl h ↦ rw (h, attach_evidence_to_generation) done
    | inr (kind, h) ↦
        rw (h, attach_evidence_to_generation)
          (attach_to_tasks-Moves c kind id t (task_ids_for_generation F c.task_orchestrator g))
  ]

  pub attach_emitted-Moves :
      (c : Coordinator F J) (emitted : Emitted F J W) (g t : ℕ)
      → Moves F J W R (core F J c) (core F J (attach_emitted F J W (c, emitted) g t))
  attach_emitted-Moves c none g t = done
  attach_emitted-Moves c (some (id, e)) g t = attach_evidence_to_generation-Moves c g id e t
