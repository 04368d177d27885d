-- ===== src/Gateway/Session/Moves/Emissions.antt =====
-- The moves of a coordinator that takes an emission of its provider.
use openlive.Common.{
  ℕ, ◌≡◌, inl, inr, refl, sym, Bool, ◌&&◌, Option, none, some, ◌==◌, ◌/◌, if◌then◌else◌, sat_add64,
  Bool-cases, Option-cases,
}
use mathlib.Core.Path.{subst}
use openlive.Common.Float.{Float}
use openlive.Common.Text.{Text}
use openlive.Common.Trim.{is_empty}
use openlive.Protocol.Event.{RealtimeEvent}
use openlive.Protocol.Envelope.{new_with_id, with_generation}
use openlive.Protocol.Media.{PcmAudioFrame}
use openlive.Provider.{ProviderOutput, event, audio, ProviderEmission, cancel_generation}
use openlive.Runtime.Engine
use openlive.Runtime.Lease.{accepts}
use openlive.Runtime.Safety.{
  observe_delta, finalize, SafetyDisposition, pass, holdback, intervene, decide,
}
use openlive.Gateway.Tasks.Operations.{expire_deadlines, complete_tasks_for_generation}
use openlive.Gateway.Tasks.Life.{step, expires, finishes}
use openlive.Gateway.Latency.{ActiveGeneration, is_complete}
use openlive.Gateway.Session.{World, control, Coordinator, next_sequence, draw}
use openlive.Gateway.Session.Streams.{provider_stream_id, is_generating}
use openlive.Gateway.Session.Emission.{
  observe_output, send_latencies, emit_pending_outcomes, emit_audio, complete_generation,
  attach_emitted, deliver, note_output, emit_accepted, emit_unbound, emit_bound,
  handle_provider_emission,
}
use openlive.Gateway.Session.Gate.{
  emit_provider_event, Emitted, emit, final_release, release_delta, release_final, emit_other,
  apply_safety_to_event, emit_event,
}
use openlive.Gateway.Session.Moves.{core, Moves, done, ◌then◌, chain, once, called, measured, ended}
use openlive.Gateway.Session.Moves.Sends.{
  plain-Fits, sent-Goes, media-Goes, input-Goes, draw-Goes, post-Goes,
}
use openlive.Gateway.Session.Moves.Outputs.{
  send_latencies-Goes, emit_pending_outcomes-Moves, emit_pending_outcomes-active,
  attach_emitted-Moves,
}

-- A coordinator whose active generation is `a`, and media time `t`.
module _ (F : Float) (J : Type 0) (W : World F J) (R : Type 0) (a : ActiveGeneration) (t : ℕ) where
  abbrev Active : Coordinator F J → Type 0
  Active c = c.active_generation ≡ some a

  -- What one step of the emission of an event gives.
  abbrev Emits : Coordinator F J → Coordinator F J × Emitted F J W → Type 0
  Emits c r = Moves F J W R (core F J c) (core F J r.0)

  abbrev text_delta : Text → RealtimeEvent F J
  text_delta text = RealtimeEvent.output_text_delta (record { delta = text })

  abbrev text_final : Text → RealtimeEvent F J
  text_final text = RealtimeEvent.output_text_final (record { text = text })

  emit-Emits :
      (c : Coordinator F J) (e : RealtimeEvent F J) → Active c → Emits c (emit F J W c e a.id t)
  unfolding emit emit_provider_event draw next_sequence new_with_id with_generation
  emit-Emits c e h =
      let l = (draw F J W c.link).0 in
      chain F J W R (draw-Goes F J W R c c.link)
        (sent-Goes F J W R c l (control _) refl (inr (a, h, refl)))

  release_delta-Emits :
      (c : Coordinator F J) (d : SafetyDisposition) (release reason : Text)
      → Active c
      → Emits c (release_delta F J W c (decide d release reason) a.id t)
  unfolding release_delta
  release_delta-Emits c holdback release reason h = done
  release_delta-Emits c pass release reason h = elim (Bool-cases (is_empty release)) [
    | inl b ↦ rw (b, release_delta) done
    | inr b ↦ rw (b, release_delta) (emit-Emits c (text_delta release) h)
  ]
  release_delta-Emits c intervene release reason h =
      let c' = (emit F J W c (text_final release) a.id t).0 in
      chain F J W R (emit-Emits c (text_final release) h)
        (input-Goes F J W R c' c'.link (cancel_generation a.id))

  release_final-Emits :
      (c : Coordinator F J) (d : SafetyDisposition) (release reason final_text : Text)
      → Active c
      → Emits c (release_final F J W c (decide d release reason) final_text a.id t)
  unfolding release_final
  release_final-Emits c holdback release reason final_text h = emit-Emits c (text_final release) h
  release_final-Emits c pass release reason final_text h =
      emit-Emits c (text_final (final_release release final_text)) h
  release_final-Emits c intervene release reason final_text h = emit-Emits c (text_final release) h

  emit_other-Emits :
      (c : Coordinator F J) (e : RealtimeEvent F J)
      → Active c
      → Emits c (emit_other F J W c e a.id t)
  unfolding emit_other
  emit_other-Emits c e h = elim (Bool-cases (is_generating F J e)) [
    | inl b ↦ rw (b, emit_other) (emit-Emits c e h)
    | inr b ↦ rw (b, emit_other) (emit-Emits c e h)
  ]

  apply_safety_to_event-Emits :
      (c : Coordinator F J) (e : RealtimeEvent F J)
      → Active c
      → Emits c (apply_safety_to_event F J W c e a.id t)
  unfolding apply_safety_to_event
  apply_safety_to_event-Emits c (RealtimeEvent.output_text_delta d) h =
      let (safety, x) = observe_delta c.safety d.delta in
      release_delta-Emits (record c { safety = safety }) x.disposition x.release x.reason h
  apply_safety_to_event-Emits c (RealtimeEvent.output_text_final f) h =
      let (safety, x) = finalize c.safety in
      release_final-Emits (record c { safety = safety }) x.disposition x.release x.reason f.text h
  apply_safety_to_event-Emits c e h = emit_other-Emits c e h

  emit_event-Emits :
      (c : Coordinator F J) (e : RealtimeEvent F J)
      → Active c
      → Emits c (emit_event F J W c e a.id t)
  unfolding emit_event
  emit_event-Emits c e h =
      let gated = λ (x : Bool).
        Emits c (if x then apply_safety_to_event F J W c e a.id t else emit F J W c e a.id t) in
      elim (Bool-cases c.safety_enabled) [
        | inl b ↦ subst gated (sym b) (apply_safety_to_event-Emits c e h)
        | inr b ↦ subst gated (sym b) (emit-Emits c e h)
      ]

  complete_generation-Moves :
      (c : Coordinator F J)
      → Moves F J W R (core F J c) (core F J (complete_generation F J W c a.id t))
  unfolding complete_generation step
  complete_generation-Moves c =
      let (tasks, outcomes) = complete_tasks_for_generation F c.task_orchestrator a.id in
      let engine = Engine.mark_response_complete F c.engine a.id in
      let c' : Coordinator F J = record c {
        engine = engine;
        active_generation = none;
        task_orchestrator = tasks;
      } in
      let over : Moves F J W R (core F J c) (core F J c') =
        done then ended engine c.leases then called (finishes a.id) in
      chain F J W R over (emit_pending_outcomes-Moves F J W R c' t outcomes)

  emit_audio-Moves :
      (c : Coordinator F J) (frame : PcmAudioFrame F)
      → Active c
      → Moves F J W R (core F J c) (core F J (emit_audio F J W c frame a.id t))
  unfolding emit_audio next_sequence
  emit_audio-Moves c frame h = media-Goes F J W R c c.link _ refl (inr (a, h, refl))

  deliver-Moves :
      (c : Coordinator F J) (output : ProviderOutput F J)
      → Active c
      → Moves F J W R (core F J c) (core F J (deliver F J W c output a.id t))
  unfolding deliver
  deliver-Moves c (event e) h =
      let (c1, emitted) = emit_event F J W c e a.id t in
      let c2 = attach_emitted F J W (c1, emitted) a.id t in
      let sent =
        chain F J W R (emit_event-Emits c e h) (attach_emitted-Moves F J W R c1 emitted a.id t) in
      elim (Bool-cases (is_complete F J e)) [
        | inl b ↦ rw (b, deliver) (chain F J W R sent (complete_generation-Moves c2))
        | inr b ↦ rw (b, deliver) sent
      ]
  deliver-Moves c (audio frame) h = elim (Bool-cases (c.safety_enabled && c.safety.intervened)) [
    | inl b ↦ rw (b, deliver) done
    | inr b ↦ rw (b, deliver) (emit_audio-Moves c frame h)
  ]

module _ (F : Float) (J : Type 0) (W : World F J) (R : Type 0) where
  emit_accepted-Moves :
      (c : Coordinator F J) (a : ActiveGeneration) (offset : ℕ) (output : ProviderOutput F J)
      → c.active_generation ≡ some a
      → Moves F J W R (core F J c) (core F J (emit_accepted F J W c a offset output))
  unfolding emit_accepted note_output step
  emit_accepted-Moves c a offset output h =
      let (latency, marks) = observe_output F J a.latency c.link.moment.now output in
      let t = sat_add64 a.base_media_time_us offset in
      let (tasks, expired) = expire_deadlines F c.task_orchestrator (t / 1000) in
      let a' : ActiveGeneration = record a { latency = latency } in
      let c1 : Coordinator F J = record c { active_generation = some a' } in
      let c2 : Coordinator F J = record c1 {
        link = send_latencies F J W c.link t a.id marks;
        task_orchestrator = tasks;
      } in
      let noted : Moves F J W R (core F J c) (core F J c2) =
        chain F J W R (once F J W R (measured a latency h))
          (send_latencies-Goes F J W R c1 c.link t a' marks refl)
        then called (expires (t / 1000)) in
      let c3 = emit_pending_outcomes F J W c2 t expired in
      chain F J W R (chain F J W R noted (emit_pending_outcomes-Moves F J W R c2 t expired))
        (deliver-Moves F J W R a' t c3 output (emit_pending_outcomes-active F J W R c2 t expired))

  emit_unbound-Moves :
      (c : Coordinator F J) (offset : ℕ) (output : ProviderOutput F J)
      → Moves F J W R (core F J c) (core F J (emit_unbound F J W c offset output))
  unfolding emit_unbound
  emit_unbound-Moves c offset (event e) =
      post-Goes F J W R c c.link (provider_stream_id F J e) offset (λ x. x) e
        (plain-Fits F J c.active_generation)
  emit_unbound-Moves c offset (audio frame) = done

  -- The moves of what is done for an active generation, if there is one.
  abbrev Bound : Coordinator F J → ℕ → ℕ → ProviderOutput F J → Option ActiveGeneration → Type 0
  Bound c g offset output active = Moves F J W R (core F J c) (
      core F J (elim active [
        | none ↦ c
        | some a ↦ if a.id == g then emit_accepted F J W c a offset output else c
      ]))

  emit_bound-Moves :
      (c : Coordinator F J) (g offset : ℕ) (output : ProviderOutput F J)
      → Moves F J W R (core F J c) (core F J (emit_bound F J W c g offset output))
  unfolding emit_bound
  emit_bound-Moves c g offset output = elim (Bool-cases (accepts c.leases g)) [
    | inr b ↦ rw (b, emit_bound) done
    | inl b ↦
        rw (b, emit_bound)
          (elim (Option-cases c.active_generation) [
            | inl h ↦ subst (Bound c g offset output) (sym h) done
            | inr (a, h) ↦ subst (Bound c g offset output) (sym h) (elim (Bool-cases (a.id == g)) [
              | inl same ↦ rw same (emit_accepted-Moves c a offset output h)
              | inr other ↦ rw other done
            ])
          ])
  ]

  -- An emission of the provider takes moves.
  pub handle_provider_emission-Moves :
      (c : Coordinator F J) (e : ProviderEmission F J)
      → Moves F J W R (core F J c) (core F J (handle_provider_emission F J W c e))
  unfolding handle_provider_emission
  handle_provider_emission-Moves c e = elim (Option-cases e.generation_id) [
    | inl h ↦ rw (h, handle_provider_emission) (emit_unbound-Moves c e.media_offset_us e.output)
    | inr (g, h) ↦
        rw (h, handle_provider_emission) (emit_bound-Moves c g e.media_offset_us e.output)
  ]
