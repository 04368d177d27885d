-- ===== src/Runtime/Engine.antt =====
-- crates/openlive-runtime/src/lib.rs, lines 468 to 620: the session engine, which feeds the events
-- of one session to Chronos and numbers its decisions, and the replay of recorded events.
-- `new_v5` and `uuid_text` stand for `Uuid::new_v5` and the text form of an identifier.
pub mod Timeline
pub mod Replay
use openlive.Common.{
  ℕ, ◌≡◌, Bool, true, false, Option, none, some, List, [], ◌∷◌, ◌++◌, ◌==◌, ltb, if◌then◌else◌,
  wrap_add64,
}
use openlive.Common.Text.{Text, codes, decimal}
use openlive.Common.Float.{Float}
use openlive.Common.Result.{Result, ok, err}
use openlive.Protocol.Interaction.{InteractionProfile, InteractionDecision, Observation}
use openlive.Protocol.Event.{EventEnvelope, RealtimeEvent}
use openlive.Protocol.Envelope.{new_with_id, with_parent}
use openlive.Runtime.Chronos.{Chronos, ChronosConfig, ChronosDecision, FloorState}
use openlive.Runtime.Chronos
use openlive.Runtime.Chronos.Observe.{observe}

pub data RuntimeError : Type 0 where
  session_mismatch : (expected received : ℕ) → RuntimeError
  non_monotonic_media_time : (previous received : ℕ) → RuntimeError

-- The messages of the errors; `uuid_text` stands for the `Display` of `Uuid`.
unfoldable pub error_text : (ℕ → Text) → RuntimeError → Text
error_text uuid_text (session_mismatch expected received) =
    codes "session mismatch: expected "
    ++ (uuid_text expected ++ (codes ", received " ++ uuid_text received))
error_text uuid_text (non_monotonic_media_time previous received) =
    codes "events must be monotonic: previous "
    ++ (decimal previous ++ (codes ", received " ++ decimal received))

pub record SessionEngine (F : Float) : Type 0 where
  pub session_id : ℕ
  pub sequence : ℕ
  pub last_media_time_us : ℕ
  pub chronos : Chronos F

module _ (F : Float) where
  unfoldable pub new : ℕ → ChronosConfig F → InteractionProfile → SessionEngine F
  new session_id config profile = record {
    session_id = session_id;
    sequence = 0;
    last_media_time_us = 0;
    chronos = Chronos.new F config profile;
  }

  unfoldable pub floor_state : SessionEngine F → FloorState
  floor_state e = e.chronos.state

  unfoldable pub update_profile : SessionEngine F → InteractionProfile → SessionEngine F
  update_profile e profile = record e { chronos = Chronos.update_profile F e.chronos profile }

  unfoldable pub mark_response_started : SessionEngine F → ℕ → SessionEngine F
  mark_response_started e generation_id = record e {
    chronos = Chronos.mark_response_started F e.chronos generation_id;
  }

  unfoldable pub mark_response_complete : SessionEngine F → ℕ → SessionEngine F
  mark_response_complete e generation_id = record e {
    chronos = Chronos.mark_response_complete F e.chronos generation_id;
  }

module _ (F : Float) (J : Type 0) (new_v5 : ℕ → Text → ℕ) (uuid_text : ℕ → Text) where
  abbrev Outcome : Type 0
  Outcome = SessionEngine F × Result RuntimeError (List (EventEnvelope F J))

  unfoldable pub deterministic_event_id : ℕ → ℕ → ℕ → ℕ
  deterministic_event_id session_id sequence parent_event_id =
      new_v5 session_id
        (codes "interaction:" ++ (decimal sequence ++ (codes ":" ++ uuid_text parent_event_id)))

  unfoldable pub decision_envelope :
      SessionEngine F → EventEnvelope F J → ℕ → ChronosDecision F → EventEnvelope F J
  unfolding deterministic_event_id new_with_id with_parent
  decision_envelope s envelope sequence d =
      with_parent F J
        (new_with_id F J (deterministic_event_id s.session_id sequence envelope.event_id)
          s.session_id (codes "interaction") sequence envelope.media_time_us
          (RealtimeEvent.interaction_decision (record {
            action = d.action;
            confidence = d.confidence;
            reversible = d.reversible;
            reason = d.reason;
            evidence_event_ids = d.evidence_event_ids;
          })))
        envelope.event_id

  -- The decisions of one observation, numbered and wrapped: `observe` gives at most one.
  unfoldable pub publish :
      SessionEngine F → EventEnvelope F J → Option (ChronosDecision F) → Outcome
  publish s envelope none = (s, ok [])
  publish s envelope (some d) =
      let sequence = wrap_add64 s.sequence 1 in
      (record s { sequence = sequence }, ok (decision_envelope s envelope sequence d ∷ []))

  unfoldable pub consume : SessionEngine F → EventEnvelope F J → RealtimeEvent F J → Outcome
  unfolding publish
  consume s envelope (RealtimeEvent.observation o) =
      let (chronos, d) = observe F s.chronos envelope.event_id envelope.media_time_us o in
      publish (record s { chronos = chronos }) envelope d
  consume s envelope _ = (s, ok [])

  unfoldable pub process : SessionEngine F → EventEnvelope F J → Outcome
  unfolding consume
  process s envelope =
      if envelope.session_id == s.session_id
      then (if ltb envelope.media_time_us s.last_media_time_us
          then (s, err (non_monotonic_media_time s.last_media_time_us envelope.media_time_us))
          else consume (record s { last_media_time_us = envelope.media_time_us }) envelope
              envelope.event)
      else (s, err (session_mismatch s.session_id envelope.session_id))

  -- The loop of `replay`: an error ends it, and the events given out so far are dropped.
  unfoldable pub replay_from :
      SessionEngine F
      → List (EventEnvelope F J)
      → List (EventEnvelope F J)
      → Result RuntimeError (List (EventEnvelope F J))
  replay_from s output [] = ok output
  replay_from s output (event ∷ events) =
      let (s', r) = process s event in
      elim r [ err e ↦ err e | ok more ↦ replay_from s' (output ++ more) events ]

  unfoldable pub replay :
      ℕ
      → ChronosConfig F
      → InteractionProfile
      → List (EventEnvelope F J)
      → Result RuntimeError (List (EventEnvelope F J))
  unfolding replay_from new
  replay session_id config profile events = replay_from (new F session_id config profile) [] events
