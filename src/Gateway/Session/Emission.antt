-- ===== src/Gateway/Session/Emission.antt =====
-- apps/openlive-gateway/src/session.rs, lines 420 to 541 and 772 to 905: what the session
-- does with the events and the audio of its provider.
use openlive.Common.{
  ℕ, Bool, true, false, ◌&&◌, none, some, List, [], ◌∷◌, if◌then◌else◌, ◌==◌, ◌/◌, sat_add64,
}
use openlive.Common.Float.{Float}
use openlive.Common.Text.{codes}
use openlive.Protocol.Task.{EvidenceKind, EvidenceLink, task_proof}
use openlive.Protocol.Event.{RealtimeEvent, LatencyMark}
use openlive.Protocol.Media.{output_audio, PcmAudioFrame}
use openlive.Provider.{ProviderOutput, event, audio, ProviderEmission}
use openlive.Runtime.Engine
use openlive.Runtime.Lease.{accepts}
use openlive.Gateway.Tasks.{PendingOutcome}
use openlive.Gateway.Tasks.Operations.{
  task_ids_for_generation, attach_evidence, expire_deadlines, complete_tasks_for_generation,
}
use openlive.Gateway.Tasks.Links.{link_evidence}
use openlive.Gateway.Latency.{
  ActiveGeneration, LatencyTracker, observe_event, observe_audio, is_complete,
}
use openlive.Gateway.Timeline.{sent}
use openlive.Gateway.Session.{
  World, Link, Coordinator, next_sequence, send_media, post, post_buffered, send_latency,
}
use openlive.Gateway.Session.Streams.{provider_stream_id, classify_evidence}
use openlive.Gateway.Session.Requests.{outcome_event}
use openlive.Gateway.Session.Gate.{emit_event, Emitted}

module _ (F : Float) (J : Type 0) where
  -- The output's own events, and the latency marks that it makes due.
  unfoldable pub observe_output :
      LatencyTracker → ℕ → ProviderOutput F J → LatencyTracker × List LatencyMark
  unfolding observe_event observe_audio
  observe_output t now (event e) = observe_event F J t now e
  observe_output t now (audio a) = observe_audio t now

  abbrev pub completes : ProviderOutput F J → Bool
  completes (event e) = is_complete F J e
  completes (audio a) = false

module _ (F : Float) (J : Type 0) (W : World F J) where
  unfoldable pub send_latencies : Link F J → ℕ → ℕ → List LatencyMark → Link F J
  unfolding send_latency
  send_latencies l media_time_us generation_id [] = l
  send_latencies l media_time_us generation_id (mark ∷ marks) =
      send_latencies (send_latency F J W l media_time_us generation_id mark) media_time_us
        generation_id marks

  unfoldable pub emit_pending_outcomes : Coordinator F J → ℕ → List PendingOutcome → Coordinator F J
  unfolding post_buffered
  emit_pending_outcomes c media_time_us [] = c
  emit_pending_outcomes c media_time_us (p ∷ ps) =
      emit_pending_outcomes
        (post_buffered F J W c (codes "tasks") media_time_us p.task_id (outcome_event F J W p))
        media_time_us ps

  unfoldable pub emit_evidence_link : Coordinator F J → ℕ → EvidenceLink F → Coordinator F J
  unfolding post_buffered
  emit_evidence_link c media_time_us link =
      let (tasks, inserted) = link_evidence F c.task_orchestrator link in
      let c' = record c { task_orchestrator = tasks } in
      if inserted
      then post_buffered F J W c' (codes "evidence") media_time_us c.link.session_id
          (RealtimeEvent.evidence_link link)
      else c'

  -- The link of a piece of evidence that was attached.
  unfoldable pub attach_link : Coordinator F J → ℕ → ℕ → ℕ → Bool → Coordinator F J
  unfolding emit_evidence_link
  attach_link c task_id evidence_id media_time_us true =
      emit_evidence_link c media_time_us (record {
        source_id = task_id;
        target_id = evidence_id;
        link_type = task_proof;
        confidence = F.lit 1 0;
      })
  attach_link c task_id evidence_id media_time_us false = c

  -- The loop over the tasks bound to the generation.
  unfoldable pub attach_to_tasks : Coordinator F J → EvidenceKind → ℕ → ℕ → List ℕ → Coordinator F J
  unfolding attach_link
  attach_to_tasks c kind evidence_id media_time_us [] = c
  attach_to_tasks c kind evidence_id media_time_us (task_id ∷ rest) =
      let (tasks, attached) = attach_evidence F c.task_orchestrator task_id kind evidence_id in
      attach_to_tasks
        (attach_link (record c { task_orchestrator = tasks }) task_id evidence_id media_time_us
          attached)
        kind evidence_id media_time_us rest

  unfoldable pub attach_evidence_to_generation :
      Coordinator F J → ℕ → ℕ → RealtimeEvent F J → ℕ → Coordinator F J
  unfolding attach_to_tasks classify_evidence
  attach_evidence_to_generation c generation_id evidence_id e media_time_us =
      elim (classify_evidence F J e) [
        | none ↦ c
        | some kind ↦
            attach_to_tasks c kind evidence_id media_time_us
              (task_ids_for_generation F c.task_orchestrator generation_id)
      ]

  unfoldable pub emit_audio : Coordinator F J → PcmAudioFrame F → ℕ → ℕ → Coordinator F J
  unfolding next_sequence send_media
  emit_audio c frame generation_id media_time_us =
      let l = next_sequence F J c.link in
      record c {
        playout = sent c.playout media_time_us;
        link = send_media F J l (record {
          kind = output_audio;
          sequence = l.sequence;
          media_time_us = media_time_us;
          generation_id = some generation_id;
          audio = frame;
        });
      }

  -- The end of a generation.
  unfoldable pub complete_generation : Coordinator F J → ℕ → ℕ → Coordinator F J
  unfolding emit_pending_outcomes
  complete_generation c generation_id media_time_us =
      let (tasks, outcomes) = complete_tasks_for_generation F c.task_orchestrator generation_id in
      emit_pending_outcomes
        (record c {
          engine = Engine.mark_response_complete F c.engine generation_id;
          active_generation = none;
          task_orchestrator = tasks;
        })
        media_time_us outcomes

  abbrev pub attach_emitted : Coordinator F J × Emitted F J W → ℕ → ℕ → Coordinator F J
  attach_emitted (c, none) generation_id media_time_us = c
  attach_emitted (c, some (event_id, e)) generation_id media_time_us =
      attach_evidence_to_generation c generation_id event_id e media_time_us

  -- What is sent of an output. Audio is dropped after the gate has intervened.
  unfoldable pub deliver : Coordinator F J → ProviderOutput F J → ℕ → ℕ → Coordinator F J
  unfolding emit_event attach_evidence_to_generation emit_audio complete_generation
  deliver c (event e) generation_id media_time_us =
      let c' =
        attach_emitted (emit_event F J W c e generation_id media_time_us) generation_id
          media_time_us in
      if is_complete F J e then complete_generation c' generation_id media_time_us else c'
  deliver c (audio frame) generation_id media_time_us =
      if c.safety_enabled && c.safety.intervened
      then c
      else emit_audio c frame generation_id media_time_us

  -- What is done on every output of the active generation, before it is delivered: latency marks,
  -- and the tasks that are past their deadline at media time `t`.
  unfoldable pub note_output :
      Coordinator F J → ActiveGeneration → ℕ → ProviderOutput F J → Coordinator F J
  unfolding observe_output send_latencies emit_pending_outcomes
  note_output c active t output =
      let (latency, marks) = observe_output F J active.latency c.link.moment.now output in
      let (tasks, expired) = expire_deadlines F c.task_orchestrator (t / 1000) in
      emit_pending_outcomes
        (record c {
          active_generation = some (record active { latency = latency });
          link = send_latencies c.link t active.id marks;
          task_orchestrator = tasks;
        })
        t expired

  unfoldable pub emit_accepted :
      Coordinator F J → ActiveGeneration → ℕ → ProviderOutput F J → Coordinator F J
  unfolding note_output deliver
  emit_accepted c active media_offset_us output =
      let t = sat_add64 active.base_media_time_us media_offset_us in
      deliver (note_output c active t output) output active.id t

  -- An output outside any generation: audio is dropped.
  unfoldable pub emit_unbound : Coordinator F J → ℕ → ProviderOutput F J → Coordinator F J
  unfolding post provider_stream_id
  emit_unbound c media_offset_us (event e) = record c {
    link = post F J W c.link (provider_stream_id F J e) media_offset_us (λ x. x) e;
  }
  emit_unbound c media_offset_us (audio frame) = c

  unfoldable pub emit_bound : Coordinator F J → ℕ → ℕ → ProviderOutput F J → Coordinator F J
  unfolding emit_accepted
  emit_bound c generation_id media_offset_us output =
      if accepts c.leases generation_id
      then elim c.active_generation [
        | none ↦ c
        | some active ↦
            if active.id == generation_id then emit_accepted c active media_offset_us output else c
      ]
      else c

  unfoldable pub handle_provider_emission : Coordinator F J → ProviderEmission F J → Coordinator F J
  unfolding emit_unbound emit_bound
  handle_provider_emission c emission = elim emission.generation_id [
    | none ↦ emit_unbound c emission.media_offset_us emission.output
    | some generation_id ↦ emit_bound c generation_id emission.media_offset_us emission.output
  ]
