-- ===== src/Runtime/Chronos/Commit.antt =====
-- When Chronos commits: to an interruption, and to a response.
use openlive.Common.{ℕ, ◌≤◌, ◌≡◌, ◌⊎◌, ◌↔◌, refl, true, false, Option, none, some, arith}
use openlive.Common.Float.{Float}
use openlive.Protocol.Interaction.{Observation, InteractionAction, hard_yield, start_response}
use openlive.Runtime.Chronos.{
  ChronosDecision, Chronos, FloorState, listening, user_speaking, user_pause, response_pending,
  assistant_speaking, soft_ducked, yielded, elapsed_ms, effective_speech_probability,
  barge_in_commit_ms, speech_on_threshold, should_commit_response,
}
use openlive.Runtime.Chronos.Observe.{observe, dispatch}

module _ (F : Float) where
  open F use {fle}

  -- Whether there is a decision, and it is this action.
  abbrev pub ActionIs : InteractionAction → Option (ChronosDecision F) → Type 0
  ActionIs a none = ⊥
  ActionIs a (some d) = d.action ≡ a

  -- The overlap with the assistant lasted, and the last observation is still speech.
  pub record IsBargeIn (c : Chronos F) (t : ℕ) (o : Observation F) : Type 0 where
    pub generation_id : ℕ
    pub since : ℕ
    pub overlapping : c.state ≡ soft_ducked generation_id since
    pub speech : fle (effective_speech_probability F o) c.config.speech_off_threshold ≡ false
    pub lasted : barge_in_commit_ms F c ≤ elapsed_ms t since

  -- The user spoke long enough, has been silent long enough, and one completion signal is there.
  pub record IsTurnEnd (c : Chronos F) (t : ℕ) (o : Observation F) : Type 0 where
    pub speech_since : ℕ
    pub silence_since : ℕ
    pub paused : c.state ≡ user_pause speech_since silence_since
    pub silent : fle (speech_on_threshold F c) (effective_speech_probability F o) ≡ false
    pub spoke : c.config.minimum_user_turn_ms ≤ elapsed_ms silence_since speech_since
    pub waited : c.profile.pause_tolerance_ms ≤ elapsed_ms t silence_since
    pub complete :
        (fle c.config.turn_commit_threshold o.turn_completion_confidence ≡ true)
        ⊎ (fle c.config.turn_commit_threshold o.prosodic_finality ≡ true)

  hard_yield-IsBargeIn :
      (s : FloorState) (c : Chronos F) (e t : ℕ) (o : Observation F)
      → c.state ≡ s
      → ActionIs hard_yield (dispatch F s c e t (effective_speech_probability F o) o).1
      → IsBargeIn c t o
  unfolding dispatch
  hard_yield-IsBargeIn listening c e t o h a = absurd (ground arith)
  hard_yield-IsBargeIn (user_speaking since) c e t o h a = absurd (ground arith)
  hard_yield-IsBargeIn (user_pause since silence) c e t o h a = absurd (ground arith)
  hard_yield-IsBargeIn response_pending c e t o h a = absurd (ground arith)
  hard_yield-IsBargeIn (assistant_speaking g) c e t o h a = absurd (ground arith)
  hard_yield-IsBargeIn (soft_ducked g since) c e t o h a = record {
    generation_id = g;
    since = since;
    overlapping = h;
    speech = ground arith;
    lasted = ground arith;
  }
  hard_yield-IsBargeIn yielded c e t o h a = absurd (ground arith)

  -- `Chronos` yields the floor to the user exactly when the overlap has lasted for the commit time
  -- of its profile and the observation is still speech.
  pub hard_yield_iff :
      (c : Chronos F) (e t : ℕ) (o : Observation F)
      → ActionIs hard_yield (observe F c e t o).1 ↔ IsBargeIn c t o
  unfolding observe dispatch
  hard_yield_iff c e t o = (
    hard_yield-IsBargeIn c.state c e t o refl,
    λ b. ground (arith, b.overlapping, b.speech, b.lasted),
  )

  start_response-IsTurnEnd :
      (s : FloorState) (c : Chronos F) (e t : ℕ) (o : Observation F)
      → c.state ≡ s
      → ActionIs start_response (dispatch F s c e t (effective_speech_probability F o) o).1
      → IsTurnEnd c t o
  unfolding dispatch should_commit_response
  start_response-IsTurnEnd listening c e t o h a = absurd (ground arith)
  start_response-IsTurnEnd (user_speaking since) c e t o h a = absurd (ground arith)
  start_response-IsTurnEnd (user_pause since silence) c e t o h a = record {
    speech_since = since;
    silence_since = silence;
    paused = h;
    silent = ground arith;
    spoke = ground arith;
    waited = ground arith;
    complete = ground arith;
  }
  start_response-IsTurnEnd response_pending c e t o h a = absurd (ground arith)
  start_response-IsTurnEnd (assistant_speaking g) c e t o h a = absurd (ground arith)
  start_response-IsTurnEnd (soft_ducked g since) c e t o h a = absurd (ground arith)
  start_response-IsTurnEnd yielded c e t o h a = absurd (ground arith)

  -- `Chronos` starts a response exactly when a paused user turn was long enough, the pause has
  -- reached the profile's tolerance with no new speech, and a completion signal reaches the bound.
  pub start_response_iff :
      (c : Chronos F) (e t : ℕ) (o : Observation F)
      → ActionIs start_response (observe F c e t o).1 ↔ IsTurnEnd c t o
  unfolding observe dispatch should_commit_response
  start_response_iff c e t o = (
    start_response-IsTurnEnd c.state c e t o refl,
    λ b. ground (arith, b.paused, b.silent, b.spoke, b.waited, b.complete),
  )
