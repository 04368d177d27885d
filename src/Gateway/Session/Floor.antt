-- ===== src/Gateway/Session/Floor.antt =====
-- Who answers: what holds of the active generation, its lease and the floor in every session.
use openlive.Common.{
  ℕ, ◌≡◌, refl, sym, ◌∙◌, ap, Bool, true, Option, none, some, List, arith, sat_add64, ◌==◌,
  if◌then◌else◌,
}
use mathlib.Core.Path.{subst}
use openlive.Common.Float.{Float}
use openlive.Protocol.Capability.{ProviderManifest}
use openlive.Protocol.Event.{RealtimeEvent, complete}
use openlive.Provider.{ProviderEmission, ProviderOutput, event}
use openlive.Runtime.Chronos
use openlive.Runtime.Chronos.{FloorState}
use openlive.Runtime.Engine
use openlive.Runtime.Lease.{AnswerLeaseManager, accepts, issue}
use openlive.Runtime.Store.{SessionStore}
use openlive.Gateway.Tasks.Operations.{complete_tasks_for_generation}
use openlive.Gateway.Latency.{ActiveGeneration}
use openlive.Gateway.Session.{World, Moment, Coordinator, new}
use openlive.Gateway.Session.Emission.{
  handle_provider_emission, emit_bound, emit_accepted, attach_emitted, note_output, deliver,
  complete_generation,
}
use openlive.Gateway.Session.Gate.{emit_event}
use openlive.Gateway.Session.Run.{Input}
use openlive.Gateway.Session.Moves.{
  Core, core, Speaks, Keeps, Move, drew, lost, posted, repeated, called, linked, replayed, buffered,
  kept, thought, idled, listened, started, measured, ended, Moves, done, ◌then◌,
}
use openlive.Gateway.Session.Moves.Outputs.{emit_pending_outcomes-active}
use openlive.Gateway.Session.Moves.Whole.{ran, ran-Moves}

-- The active generation, if there is one, holds the lease and has the floor.
abbrev pub IsAnswering : Option ActiveGeneration → AnswerLeaseManager → FloorState → Type 0
IsAnswering none leases floor = Unit
IsAnswering (some a) leases floor = (accepts leases a.id ≡ true) × Speaks floor a.id

keep-IsAnswering :
    (active : Option ActiveGeneration) (leases : AnswerLeaseManager) (s s' : FloorState)
    → Keeps s s'
    → IsAnswering active leases s
    → IsAnswering active leases s'
keep-IsAnswering none leases s s' keeps h = tt
keep-IsAnswering (some a) leases s s' keeps (held, speaks) = (held, keeps a.id speaks)

-- Where no generation has the floor, none is active.
silent-IsAnswering :
    (active : Option ActiveGeneration) (leases leases' : AnswerLeaseManager) (s s' : FloorState)
    → ((g : ℕ) → ¬ Speaks s g)
    → IsAnswering active leases s
    → IsAnswering active leases' s'
silent-IsAnswering none leases leases' s s' silent h = tt
silent-IsAnswering (some a) leases leases' s s' silent (held, speaks) = absurd (silent a.id speaks)

module _ (F : Float) (J : Type 0) (W : World F J) where
  abbrev pub Answers : Core F J → Type 0
  Answers s = IsAnswering s.active s.leases s.engine.chronos.state

  move-Answers : {s t : Core F J} → Move F J W Unit s t → Answers s → Answers t
  unfolding accepts issue Engine.mark_response_started Chronos.mark_response_started
  move-Answers drew h = h
  move-Answers lost h = h
  move-Answers (posted m n of) h = h
  move-Answers (repeated r json) h = h
  move-Answers (called call) h = h
  move-Answers (linked l) h = h
  move-Answers (replayed now last) h = h
  move-Answers (buffered now id json) h = h
  move-Answers (kept now id e json p n o) h = h
  move-Answers {s} (thought e keeps) h = keep-IsAnswering s.active s.leases _ _ keeps h
  move-Answers {s} (idled e idle) h =
      subst (λ x. IsAnswering x s.leases e.chronos.state) (sym idle) tt
  move-Answers {s} (listened e silent) h = silent-IsAnswering s.active s.leases _ _ _ silent h
  move-Answers (started e base latency idle) h = (ground arith, refl)
  move-Answers {s} (measured a latency active) h =
      subst (λ x. IsAnswering x s.leases s.engine.chronos.state) active h
  move-Answers (ended e leases) h = tt

  moves-Answers : {s t : Core F J} → Moves F J W Unit s t → Answers s → Answers t
  moves-Answers done h = h
  moves-Answers (ms then m) h = move-Answers m (moves-Answers ms h)

  -- In every session, after any inputs in any order, an active generation holds the answer lease,
  -- and Chronos gives it the floor, speaking or ducked.
  pub ran-Answers :
      (session_id : ℕ) (moment : Moment) (manifest : ProviderManifest) (store : Option SessionStore)
      (safety : Bool) (inputs : List (Moment × Input F J))
      → Answers (core F J (ran F J W session_id moment manifest store safety inputs))
  unfolding new
  ran-Answers session_id moment manifest store safety inputs =
      moves-Answers (ran-Moves F J W Unit session_id moment manifest store safety inputs (λ h. tt))
        tt

  abbrev pub completion : ℕ → ℕ → ProviderEmission F J
  completion generation_id offset = record {
    generation_id = some generation_id;
    media_offset_us = offset;
    output = event (RealtimeEvent.provider_state (record { state = complete }));
  }

  complete_generation-idle :
      (c : Coordinator F J) (g t : ℕ) → (complete_generation F J W c g t).active_generation ≡ none
  unfolding complete_generation
  complete_generation-idle c g t =
      let (tasks, outcomes) = complete_tasks_for_generation F c.task_orchestrator g in
      emit_pending_outcomes-active F J W Unit
        (record c {
          engine = Engine.mark_response_complete F c.engine g;
          active_generation = none;
          task_orchestrator = tasks;
        })
        t outcomes

  deliver-completes :
      (c : Coordinator F J) (g t : ℕ)
      → (deliver F J W c
          (event (RealtimeEvent.provider_state (record { state = complete })))
          g
          t).active_generation
        ≡ none
  unfolding deliver
  deliver-completes c g t =
      let e = RealtimeEvent.provider_state (record { state = complete }) in
      complete_generation-idle (attach_emitted F J W (emit_event F J W c e g t) g t) g t

  emit_bound-accepted :
      (c : Coordinator F J) (a : ActiveGeneration) (offset : ℕ) (output : ProviderOutput F J)
      → accepts c.leases a.id ≡ true
      → c.active_generation ≡ some a
      → emit_bound F J W c a.id offset output ≡ emit_accepted F J W c a offset output
  unfolding emit_bound
  emit_bound-accepted c a offset output held active =
      let same : (a.id == a.id) ≡ true = ground arith in
      rw (held, emit_bound)
        (ap
            (λ x. elim x [
              | none ↦ c
              | some b ↦ if b.id == a.id then emit_accepted F J W c b offset output else c
            ])
            active
          ∙ ap (λ x. if x then emit_accepted F J W c a offset output else c) same)

  -- In every session, an active generation ends when its provider says that it is complete: no
  -- session stays with a generation that no emission reaches.
  pub completion-ends :
      (session_id : ℕ) (moment : Moment) (manifest : ProviderManifest) (store : Option SessionStore)
      (safety : Bool) (inputs : List (Moment × Input F J)) (a : ActiveGeneration) (offset : ℕ)
      → (ran F J W session_id moment manifest store safety inputs).active_generation ≡ some a
      → (handle_provider_emission F J W
          (ran F J W session_id moment manifest store safety inputs)
          (completion a.id offset)).active_generation
        ≡ none
  unfolding handle_provider_emission emit_accepted
  completion-ends session_id moment manifest store safety inputs a offset active =
      let c = ran F J W session_id moment manifest store safety inputs in
      let t = sat_add64 a.base_media_time_us offset in
      let answers =
        subst (λ x. IsAnswering x c.leases c.engine.chronos.state) active
          (ran-Answers session_id moment manifest store safety inputs) in
      ap (λ x. x.active_generation)
        (emit_bound-accepted c a offset (completion a.id offset).output answers.0 active)
      ∙ deliver-completes (note_output F J W c a t (completion a.id offset).output) a.id t
