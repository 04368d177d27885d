-- ===== src/Gateway/Session/Moves.antt =====
-- apps/openlive-gateway/src/session.rs: an abstract session, whose moves the handlers are made of. It
-- keeps what decides who answers and what is sent: counters, messages, engine, leases and tasks.
pub mod Sends
pub mod Answers
pub mod Decides
pub mod Inputs
pub mod Control
pub mod Outputs
pub mod Emissions
pub mod Whole
use openlive.Common.{ℕ, ◌+◌, ◌≡◌, ◌⊎◌, inl, inr, refl, Option, none, some, List, [], ◌∷◌, sat_add64}
use openlive.Common.Float.{Float}
use openlive.Common.Text.{Text}
use openlive.Protocol.Task.{EvidenceLink}
use openlive.Protocol.Event.{EventEnvelope, RealtimeEvent}
use openlive.Protocol.Envelope.{with_generation, with_parent}
use openlive.Runtime.Chronos.{FloorState, listening, assistant_speaking, soft_ducked}
use openlive.Runtime.Engine
use openlive.Runtime.Engine.{SessionEngine}
use openlive.Runtime.Lease.{AnswerLeaseManager, begin_user_turn, issue}
use openlive.Gateway.Tasks.{TaskOrchestrator}
use openlive.Gateway.Tasks.Life.{Call, step}
use openlive.Gateway.Tasks.Links.{link_evidence}
use openlive.Gateway.Tasks.Resume.{buffer_outbound, replay_after}
use openlive.Gateway.Latency.{ActiveGeneration, LatencyTracker}
use openlive.Gateway.Session.{World, ServerMessage, control, media, raw_text, Link, Coordinator}

-- The assistant has the floor with this generation.
abbrev pub Speaks : FloorState → ℕ → Type 0
Speaks (assistant_speaking g) h = g ≡ h
Speaks (soft_ducked g overlap) h = g ≡ h
Speaks _ h = ⊥

abbrev pub Keeps : FloorState → FloorState → Type 0
Keeps s s' = (g : ℕ) → Speaks s g → Speaks s' g

module _ (F : Float) (J : Type 0) where
  pub record Core : Type 0 where
    pub sequence : ℕ
    pub drawn : ℕ
    pub outgoing : List (ServerMessage F J)
    pub engine : SessionEngine F
    pub leases : AnswerLeaseManager
    pub active : Option ActiveGeneration
    pub tasks : TaskOrchestrator F

  -- The abstract session of a coordinator.
  abbrev pub core : Coordinator F J → Core
  core c = record {
    sequence = c.link.sequence;
    drawn = c.link.drawn;
    outgoing = c.link.outgoing;
    engine = c.engine;
    leases = c.leases;
    active = c.active_generation;
    tasks = c.task_orchestrator;
  }

  -- The sequence number of a message that is sent as a value, not as JSON text, and its generation.
  abbrev pub number_field : ServerMessage F J → Option ℕ
  number_field (control e) = some e.sequence
  number_field (media p) = some p.sequence
  number_field (raw_text json) = none

  abbrev pub tag : ServerMessage F J → Option ℕ
  tag (control e) = e.generation_id
  tag (media p) = p.generation_id
  tag (raw_text json) = none

  -- A message of no generation, or of the active one.
  abbrev pub IsOf : Option ActiveGeneration → ServerMessage F J → Type 0
  IsOf active m =
      (tag m ≡ none) ⊎ ((a : ActiveGeneration) × (active ≡ some a) × (tag m ≡ some a.id))

module _ (F : Float) (J : Type 0) (W : World F J) (R : Type 0) where
  open W use {new_v4, new_v5, to_json}

  pub data Move (s : Core F J) : Core F J → Type 0 where
    drew : Move s (record s { drawn = s.drawn + 1 })
    lost : Move s (record s { sequence = sat_add64 s.sequence 1 })
    posted :
        (m : ServerMessage F J)
        → number_field F J m ≡ some (sat_add64 s.sequence 1)
        → IsOf F J s.active m
        → Move s (record s { sequence = sat_add64 s.sequence 1; outgoing = m ∷ s.outgoing })
    -- A text that a client which resumes is sent again: `R` says that this may happen.
    repeated : R → (json : Text) → Move s (record s { outgoing = raw_text json ∷ s.outgoing })
    called : (call : Call) → Move s (record s { tasks = (step F s.tasks call).0 })
    linked : (l : EvidenceLink F) → Move s (record s { tasks = (link_evidence F s.tasks l).0 })
    replayed : (now last : ℕ) → Move s (record s { tasks = (replay_after F s.tasks now last).0 })
    buffered :
        (now event_id : ℕ) (json : Text)
        → Move s (record s {
          sequence = sat_add64 s.sequence 1;
          tasks = (buffer_outbound F s.tasks now (sat_add64 s.sequence 1) event_id json).0;
        })
    -- The same, and the channel takes the text.
    kept :
        (now event_id : ℕ) (e : EventEnvelope F J) (json : Text)
        → to_json e ≡ some json
        → e.sequence ≡ sat_add64 s.sequence 1
        → e.generation_id ≡ none
        → Move s (record s {
          sequence = sat_add64 s.sequence 1;
          tasks = (buffer_outbound F s.tasks now (sat_add64 s.sequence 1) event_id json).0;
          outgoing = raw_text json ∷ s.outgoing;
        })
    -- The engine goes on, and leaves the floor to a generation that has it.
    thought :
        (e : SessionEngine F)
        → Keeps s.engine.chronos.state e.chronos.state
        → Move s (record s { engine = e })
    idled : (e : SessionEngine F) → s.active ≡ none → Move s (record s { engine = e })
    -- The user takes the floor, which no generation has.
    listened :
        (e : SessionEngine F)
        → ((g : ℕ) → ¬ Speaks s.engine.chronos.state g)
        → Move s (record s { engine = e; leases = begin_user_turn s.leases })
    started :
        (e : SessionEngine F) (base_media_time_us : ℕ) (latency : LatencyTracker)
        → s.active ≡ none
        → Move s (record s {
          drawn = s.drawn + 1;
          engine = Engine.mark_response_started F e (new_v4 s.drawn);
          leases = (issue new_v5 s.leases (new_v4 s.drawn)).0;
          active = some (record {
            id = new_v4 s.drawn;
            base_media_time_us = base_media_time_us;
            latency = latency;
          });
        })
    measured :
        (a : ActiveGeneration) (latency : LatencyTracker)
        → s.active ≡ some a
        → Move s (record s { active = some (record a { latency = latency }) })
    ended :
        (e : SessionEngine F) (leases : AnswerLeaseManager)
        → Move s (record s { active = none; engine = e; leases = leases })

  infixl 5 ◌then◌
  pub data Moves (s : Core F J) : Core F J → Type 0 where
    done : Moves s s
    ◌then◌ : {t u : Core F J} → Moves s t → Move t u → Moves s u

  pub chain : {s t u : Core F J} → Moves s t → Moves t u → Moves s u
  chain m done = m
  chain m (n then x) = chain m n then x

  abbrev pub once : {s t : Core F J} → Move s t → Moves s t
  once x = done then x
