-- ===== src/Gateway/Session.antt =====
-- apps/openlive-gateway/src/session.rs: the coordinator of one client's session, which composes the
-- engine, the leases, the tasks, the safety gate and the trackers. What it calls outside the
-- repository is the record `World`. A channel is the list of what was put into it, newest first.
pub mod Streams
pub mod Response
pub mod Microphone
pub mod Offers
pub mod Requests
pub mod Client
pub mod Gate
pub mod Emission
pub mod Run
pub mod Moves
pub mod Floor
pub mod Numbers
pub mod Silence
pub mod Ledger
pub mod Release
use openlive.Common.{
  ℕ, ◌+◌, ◌||◌, Bool, true, false, Option, none, some, List, [], ◌∷◌, if◌then◌else◌, sat_add64, ◌/◌,
}
use openlive.Common.Float.{Float}
use openlive.Common.Text.{Text, codes}
use openlive.Common.Result.{Result}
use openlive.Protocol.Interaction.{default_profile}
use openlive.Protocol.Capability.{ProviderManifest}
use openlive.Protocol.Event.{EventEnvelope, RealtimeEvent, ErrorEvent, LatencyMark}
use openlive.Protocol.Envelope.{new_with_id, with_generation, with_parent}
use openlive.Protocol.Media.{MediaPacket, Uuids}
use openlive.Provider.{ProviderInput}
use openlive.Audio.{EndpointingTracker, reset}
use openlive.Audio.Frontend.{AcousticFrontend, Doubles, default_frontend}
use openlive.Runtime.Chronos.{default_config}
use openlive.Runtime.Engine
use openlive.Runtime.Engine.{SessionEngine}
use openlive.Runtime.Lease
use openlive.Runtime.Lease.{AnswerLeaseManager}
use openlive.Runtime.Safety
use openlive.Runtime.Safety.{StreamingSafety, default_policy}
use openlive.Runtime.Store.{
  SessionStore, Codec, PersistedEnvelope, PersistedTask, append_envelope, upsert_task,
}
use openlive.Gateway.Tasks.{TaskOrchestrator}
use openlive.Gateway.Tasks.Operations
use openlive.Gateway.Tasks.Resume.{buffer_outbound}
use openlive.Gateway.Latency.{ActiveGeneration}
use openlive.Gateway.Timeline.{
  ClientTimeline, new_timeline, TelemetryGate, PlayoutTracker, new_playout, RepairContext,
  new_repair,
}

-- What the session calls outside the repository, with the deadline that the process was given. The
-- n-th identifier that `Uuid::new_v4` draws is `new_v4 n`.
pub record World (F : Float) (J : Type 0) : Type 1 where
  pub new_v4 : ℕ → ℕ
  pub new_v5 : ℕ → Text → ℕ
  pub uuid_text : ℕ → Text
  pub uuids : Uuids
  pub to_json : EventEnvelope F J → Option Text
  pub from_json : Text → Result Text (EventEnvelope F J)
  pub to_lowercase : Text → Text
  pub doubles : Doubles F
  pub envelopes : Codec PersistedEnvelope
  pub snapshots : Codec PersistedTask
  pub task_deadline_ms : ℕ

pub data ServerMessage (F : Float) (J : Type 0) : Type 0 where
  control : EventEnvelope F J → ServerMessage F J
  media : MediaPacket F → ServerMessage F J
  raw_text : Text → ServerMessage F J

-- The clock, in nanoseconds, and the state of the channels and the disk while a handler runs.
pub record Moment : Type 0 where
  pub now : ℕ
  pub outgoing_full : Bool
  pub outgoing_closed : Bool
  pub provider_full : Bool
  pub provider_closed : Bool
  pub io_ok : Bool

-- The fields of the coordinator that number and carry messages, with the identifiers drawn so far.
pub record Link (F : Float) (J : Type 0) : Type 0 where
  pub session_id : ℕ
  pub sequence : ℕ
  pub drawn : ℕ
  pub outgoing : List (ServerMessage F J)
  pub provider_input : List (ProviderInput F)
  pub moment : Moment

pub record Coordinator (F : Float) (J : Type 0) : Type 0 where
  pub link : Link F J
  pub provider_manifest : ProviderManifest
  pub engine : SessionEngine F
  pub leases : AnswerLeaseManager
  pub active_generation : Option ActiveGeneration
  pub endpointing : EndpointingTracker F
  pub acoustics : AcousticFrontend F
  pub playout : PlayoutTracker
  pub repair : RepairContext
  pub client_timeline : ClientTimeline
  pub dropped_input_frames : ℕ
  pub telemetry_gate : TelemetryGate
  pub task_orchestrator : TaskOrchestrator F
  pub latest_user_semantic_completion : Option F.F32
  pub latest_user_text : Text
  pub store : Option SessionStore
  pub safety : StreamingSafety
  pub safety_enabled : Bool

abbrev pub with_defaults : StreamingSafety
with_defaults = Safety.new default_policy

module _ (F : Float) (J : Type 0) where
  unfoldable pub new :
      (session_id : ℕ) → Moment → ProviderManifest → Option SessionStore → Bool → Coordinator F J
  new session_id moment provider_manifest store safety_enabled = record {
    link = record {
      session_id = session_id;
      sequence = 0;
      drawn = 0;
      outgoing = [];
      provider_input = [];
      moment = moment;
    };
    provider_manifest = provider_manifest;
    engine = Engine.new F session_id (default_config F) default_profile;
    leases = Lease.new session_id;
    active_generation = none;
    endpointing = reset F;
    acoustics = default_frontend F;
    playout = new_playout;
    repair = new_repair;
    client_timeline = new_timeline;
    dropped_input_frames = 0;
    telemetry_gate = record { last_media_time_us = none };
    task_orchestrator = Operations.new F;
    latest_user_semantic_completion = none;
    latest_user_text = [];
    store = store;
    safety = with_defaults;
    safety_enabled = safety_enabled;
  }

  unfoldable pub next_sequence : Link F J → Link F J
  next_sequence l = record l { sequence = sat_add64 l.sequence 1 }

  -- `outgoing.send(..).await`: a closed channel loses the message, with a warning in the log.
  unfoldable pub send : Link F J → ServerMessage F J → Link F J
  send l message =
      if l.moment.outgoing_closed then l else record l { outgoing = message ∷ l.outgoing }

  -- `outgoing.try_send(..)`: a full channel drops the packet too.
  unfoldable pub send_media : Link F J → MediaPacket F → Link F J
  send_media l packet =
      if l.moment.outgoing_full || l.moment.outgoing_closed
      then l
      else record l { outgoing = media packet ∷ l.outgoing }

  -- `provider_input.send(..).await`, and whether it succeeds.
  unfoldable pub send_input : Link F J → ProviderInput F → Link F J × Bool
  send_input l input =
      if l.moment.provider_closed
      then (l, false)
      else (record l { provider_input = input ∷ l.provider_input }, true)

module _ (F : Float) (J : Type 0) (W : World F J) where
  open W use {new_v4, to_json, envelopes, snapshots}

  -- The identifier that `new_v4` gives next, and the link after it.
  unfoldable pub draw : Link F J → Link F J × ℕ
  draw l = (record l { drawn = l.drawn + 1 }, new_v4 l.drawn)

  unfoldable pub envelope : Link F J → Text → ℕ → RealtimeEvent F J → Link F J × EventEnvelope F J
  unfolding next_sequence draw
  envelope l stream_id media_time_us event =
      let l' = next_sequence F J l in
      let (l'', event_id) = draw l' in
      (l'', new_with_id F J event_id l.session_id stream_id l'.sequence media_time_us event)

  -- An envelope, finished by `finish` and sent at once.
  unfoldable pub post :
      Link F J → Text → ℕ → (EventEnvelope F J → EventEnvelope F J) → RealtimeEvent F J → Link F J
  unfolding envelope send
  post l stream_id media_time_us finish event =
      let (l', e) = envelope l stream_id media_time_us event in send F J l' (control (finish e))

  unfoldable pub send_error : Link F J → ℕ → Text → Text → Link F J
  unfolding post
  send_error l media_time_us code message =
      post l (codes "errors") media_time_us (λ e. e)
        (RealtimeEvent.error (record { code = code; message = message; recoverable = true }))

  unfoldable pub send_latency : Link F J → ℕ → ℕ → LatencyMark → Link F J
  unfolding post
  send_latency l media_time_us generation_id mark =
      post l (codes "telemetry") media_time_us (λ e. with_generation F J e generation_id)
        (RealtimeEvent.latency_mark mark)

  -- The store after an envelope, or no store: a failure is only logged.
  unfoldable pub persist_envelope :
      Option SessionStore → Link F J → EventEnvelope F J → Text → Option SessionStore
  persist_envelope none l e json = none
  persist_envelope (some store) l e json =
      some
        (append_envelope envelopes snapshots store l.moment.io_ok l.session_id e.sequence e.event_id
          (e.media_time_us / 1000) json).0

  unfoldable pub send_and_buffer : Coordinator F J → EventEnvelope F J → Coordinator F J
  unfolding send persist_envelope
  send_and_buffer c e = elim (to_json e) [
    | none ↦ record c { link = send F J c.link (control e) }
    | some json ↦ record c {
      task_orchestrator =
          (buffer_outbound F c.task_orchestrator c.link.moment.now e.sequence e.event_id json).0;
      store = persist_envelope c.store c.link e json;
      link = send F J c.link (raw_text json);
    }
  ]

  -- An envelope with a parent, numbered and sent through `send_and_buffer`.
  unfoldable pub post_buffered :
      Coordinator F J → Text → ℕ → ℕ → RealtimeEvent F J → Coordinator F J
  unfolding envelope send_and_buffer
  post_buffered c stream_id media_time_us parent_event_id event =
      let (l, e) = envelope c.link stream_id media_time_us event in
      send_and_buffer (record c { link = l }) (with_parent F J e parent_event_id)

  unfoldable pub persist_task_snapshot : Coordinator F J → PersistedTask → Coordinator F J
  persist_task_snapshot c task = elim c.store [
    | none ↦ c
    | some store ↦ record c {
      store = some (upsert_task envelopes snapshots store c.link.moment.io_ok task).0;
    }
  ]
