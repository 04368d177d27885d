-- ===== src/Runtime/Chronos.antt =====
-- crates/openlive-runtime/src/lib.rs, lines 17 to 466: Chronos, the turn-taking state machine. It
-- reads one observation at a time and decides who has the floor. Floats are the parameter `F`;
-- times are microseconds and thresholds milliseconds, below 2^64 and 2^32.
pub mod Observe
pub mod Edges
pub mod Commit
pub mod Backchannels
use openlive.Common.{
  ℕ, ◌+◌, ◌-◌, ◌*◌, ◌/◌, ◌%◌, Bool, true, false, not, ◌&&◌, ◌||◌, Option, none, some, List, [], ◌∷◌,
  ◌==◌, ltb, leb, if◌then◌else◌, wrap_add32, max,
}
use openlive.Common.Text.{Text, codes}
use openlive.Common.Float.{Float}
use openlive.Protocol.Interaction.{
  BackchannelLevel, InterruptionSensitivity, InteractionProfile, Observation, InteractionAction,
}

pub record ChronosConfig (F : Float) : Type 0 where
  pub speech_on_threshold : F.F32
  pub speech_off_threshold : F.F32
  pub barge_in_commit_ms : ℕ
  pub minimum_user_turn_ms : ℕ
  pub turn_commit_threshold : F.F32
  pub backchannel_after_ms : ℕ
  pub backchannel_spacing_ms : ℕ

pub data FloorState : Type 0 where
  listening : FloorState
  user_speaking : (since_us : ℕ) → FloorState
  user_pause : (speech_since_us silence_since_us : ℕ) → FloorState
  response_pending : FloorState
  assistant_speaking : (generation_id : ℕ) → FloorState
  soft_ducked : (generation_id overlap_since_us : ℕ) → FloorState
  yielded : FloorState

pub record ChronosDecision (F : Float) : Type 0 where
  pub action : InteractionAction
  pub confidence : F.F32
  pub reversible : Bool
  pub reason : Text
  pub evidence_event_ids : List ℕ

pub record Chronos (F : Float) : Type 0 where
  pub config : ChronosConfig F
  pub profile : InteractionProfile
  pub state : FloorState
  pub last_backchannel_us : Option ℕ

unfoldable pub elapsed_ms : ℕ → ℕ → ℕ
elapsed_ms later_us earlier_us = (later_us - earlier_us) / 1000

abbrev is_off : BackchannelLevel → Bool
is_off BackchannelLevel.off = true
is_off _ = false

-- `Option::is_none_or`
abbrev is_none_or : Option ℕ → (ℕ → Bool) → Bool
is_none_or none p = true
is_none_or (some a) p = p a

module _ (F : Float) where
  open F use {F32, lit, neg, add, sub, mul, mul_add, fmin, fmax, clamp, flt, fle}

  unfoldable pub default_config : ChronosConfig F
  default_config = record {
    speech_on_threshold = lit 62 2;
    speech_off_threshold = lit 34 2;
    barge_in_commit_ms = 180;
    minimum_user_turn_ms = 280;
    turn_commit_threshold = lit 55 2;
    backchannel_after_ms = 1800;
    backchannel_spacing_ms = 3500;
  }

  unfoldable pub decision : InteractionAction → F32 → Bool → Text → ℕ → ChronosDecision F
  decision action confidence reversible reason event_id = record {
    action = action;
    confidence = clamp confidence (lit 0 0) (lit 1 0);
    reversible = reversible;
    reason = reason;
    evidence_event_ids = event_id ∷ [];
  }

  unfoldable pub new : ChronosConfig F → InteractionProfile → Chronos F
  new config profile = record {
    config = config;
    profile = profile;
    state = listening;
    last_backchannel_us = none;
  }

  unfoldable pub update_profile : Chronos F → InteractionProfile → Chronos F
  update_profile c profile = record c { profile = profile }

  unfoldable pub mark_response_started : Chronos F → ℕ → Chronos F
  mark_response_started c generation_id = record c { state = assistant_speaking generation_id }

  abbrev completes : FloorState → ℕ → Bool
  completes (assistant_speaking active) g = active == g
  completes (soft_ducked active overlap) g = active == g
  completes _ g = false

  unfoldable pub mark_response_complete : Chronos F → ℕ → Chronos F
  mark_response_complete c generation_id =
      if completes c.state generation_id then record c { state = listening } else c

  unfoldable pub effective_speech_probability : Observation F → F32
  effective_speech_probability o =
      let echo_suppression = sub (lit 1 0) (clamp o.echo_probability (lit 0 0) (lit 1 0)) in
      let target_weight = clamp o.target_speaker_probability (lit 0 0) (lit 1 0) in
      clamp (mul (mul o.speech_probability echo_suppression) target_weight) (lit 0 0) (lit 1 0)

  unfoldable pub response_commit_confidence : Observation F → F32
  response_commit_confidence o =
      clamp (add (mul o.turn_completion_confidence (lit 55 2)) (mul o.prosodic_finality (lit 45 2)))
        (lit 0 0) (lit 1 0)

  abbrev pub threshold_for : InterruptionSensitivity → F32 → F32
  threshold_for InterruptionSensitivity.conservative on = fmin (add on (lit 1 1)) (lit 9 1)
  threshold_for InterruptionSensitivity.balanced on = on
  threshold_for InterruptionSensitivity.responsive on = fmax (sub on (lit 12 2)) (lit 4 1)

  unfoldable pub speech_on_threshold : Chronos F → F32
  speech_on_threshold c =
      threshold_for c.profile.interruption_sensitivity c.config.speech_on_threshold

  abbrev pub commit_ms_for : InterruptionSensitivity → ℕ → ℕ
  commit_ms_for InterruptionSensitivity.conservative ms = wrap_add32 ms 80
  commit_ms_for InterruptionSensitivity.balanced ms = ms
  commit_ms_for InterruptionSensitivity.responsive ms = max (ms - 60) 80

  unfoldable pub barge_in_commit_ms : Chronos F → ℕ
  barge_in_commit_ms c =
      commit_ms_for c.profile.interruption_sensitivity c.config.barge_in_commit_ms

  unfoldable pub should_backchannel : Chronos F → ℕ → ℕ → Bool
  unfolding elapsed_ms
  should_backchannel c media_time_us speech_since_us =
      if is_off c.profile.backchannels
      then false
      else if ltb (elapsed_ms media_time_us speech_since_us) c.config.backchannel_after_ms
      then false
      else is_none_or c.last_backchannel_us
          (λ last. leb c.config.backchannel_spacing_ms (elapsed_ms media_time_us last))

  unfoldable pub should_commit_response : Chronos F → ℕ → ℕ → ℕ → Observation F → Bool
  unfolding elapsed_ms
  should_commit_response c media_time_us speech_since_us silence_since_us o =
      let speech_ms = elapsed_ms silence_since_us speech_since_us in
      let silence_ms = elapsed_ms media_time_us silence_since_us in
      let complete =
        fle c.config.turn_commit_threshold o.turn_completion_confidence
        || fle c.config.turn_commit_threshold o.prosodic_finality in
      leb c.config.minimum_user_turn_ms speech_ms
      && (leb c.profile.pause_tolerance_ms silence_ms && complete)
