-- ===== src/Runtime/Chronos/Observe.antt =====
-- crates/openlive-runtime/src/lib.rs, lines 134 to 404: what `Chronos` does on one observation, a
-- function for each state of the floor. The result is the new state and the decision, if any.
use openlive.Common.{ℕ, true, false, Option, none, some, ◌&&◌, ltb, if◌then◌else◌}
use openlive.Common.Text.{codes}
use openlive.Common.Float.{Float}
use openlive.Protocol.Interaction.{Observation, InteractionAction}
use openlive.Runtime.Chronos.{
  ChronosDecision, Chronos, FloorState, listening, user_speaking, user_pause, response_pending,
  assistant_speaking, soft_ducked, yielded, decision, elapsed_ms, effective_speech_probability,
  response_commit_confidence, speech_on_threshold, barge_in_commit_ms, should_backchannel,
  should_commit_response,
}

module _ (F : Float) where
  open F use {F32, lit, neg, sub, mul_add, flt, fle}

  abbrev pub Answer : Type 0
  Answer = Chronos F × Option (ChronosDecision F)

  unfoldable pub observe_listening : Chronos F → ℕ → ℕ → F32 → Answer
  unfolding decision
  observe_listening c event_id media_time_us speech =
      if flt speech (speech_on_threshold F c) then (c, none) else (
        record c { state = user_speaking media_time_us },
        some (
            decision F InteractionAction.listen speech true
              (codes "target-like user speech started") event_id),
      )

  unfoldable pub observe_user_speaking : Chronos F → ℕ → ℕ → F32 → ℕ → Observation F → Answer
  unfolding decision
  observe_user_speaking c event_id media_time_us speech since_us o =
      if fle speech c.config.speech_off_threshold
      then (
        record c { state = user_pause since_us media_time_us },
        some (
            decision F InteractionAction.hold_floor (sub (lit 1 0) speech) true
              (codes "speech paused; preserving the user's floor") event_id),
      )
      else if flt o.turn_completion_confidence c.config.turn_commit_threshold
          && should_backchannel F c media_time_us since_us
      then (
        record c { last_backchannel_us = some media_time_us },
        some (
            decision F InteractionAction.backchannel
              (mul_add o.turn_completion_confidence (neg (lit 4 1)) (lit 9 1)) true
              (codes "long user turn with low completion confidence") event_id),
      )
      else (c, none)

  unfoldable pub observe_user_pause : Chronos F → ℕ → ℕ → F32 → ℕ → ℕ → Observation F → Answer
  unfolding decision
  observe_user_pause c event_id media_time_us speech speech_since_us silence_since_us o =
      if fle (speech_on_threshold F c) speech
      then (
        record c { state = user_speaking speech_since_us },
        some (
            decision F InteractionAction.listen speech true
              (codes "user resumed after a thinking pause") event_id),
      )
      else if should_commit_response F c media_time_us speech_since_us silence_since_us o
      then (
        record c { state = response_pending },
        some (
            decision F InteractionAction.start_response (response_commit_confidence F o) false
              (codes "pause and completion signals indicate a finished turn") event_id),
      )
      else (c, none)

  unfoldable pub observe_response_pending : Chronos F → ℕ → ℕ → F32 → Answer
  unfolding decision
  observe_response_pending c event_id media_time_us speech =
      if flt speech (speech_on_threshold F c) then (c, none) else (
        record c { state = user_speaking media_time_us },
        some (
            decision F InteractionAction.replan speech false
              (codes "user resumed before response playback began") event_id),
      )

  unfoldable pub observe_assistant_speaking : Chronos F → ℕ → ℕ → F32 → ℕ → Answer
  unfolding decision
  observe_assistant_speaking c event_id media_time_us speech generation_id =
      if flt speech (speech_on_threshold F c) then (c, none) else (
        record c { state = soft_ducked generation_id media_time_us },
        some (
            decision F InteractionAction.soft_duck speech true
              (codes "possible user barge-in; attenuate before committing") event_id),
      )

  unfoldable pub observe_soft_ducked : Chronos F → ℕ → ℕ → F32 → ℕ → ℕ → Answer
  unfolding decision
  observe_soft_ducked c event_id media_time_us speech generation_id overlap_since_us =
      if fle speech c.config.speech_off_threshold
      then (
        record c { state = assistant_speaking generation_id },
        some (
            decision F InteractionAction.resume (sub (lit 1 0) speech) true
              (codes "overlap ended before barge-in commitment") event_id),
      )
      else if ltb (elapsed_ms media_time_us overlap_since_us) (barge_in_commit_ms F c)
      then (c, none)
      else (
        record c { state = yielded },
        some (
            decision F InteractionAction.hard_yield speech false
              (codes "sustained target-like speech confirms interruption") event_id),
      )

  unfoldable pub observe_yielded : Chronos F → ℕ → ℕ → F32 → Answer
  unfolding decision
  observe_yielded c event_id media_time_us speech =
      if flt speech (speech_on_threshold F c) then (record c { state = listening }, none) else (
        record c { state = user_speaking media_time_us },
        some (
            decision F InteractionAction.listen speech true
              (codes "assistant yielded the floor to the user") event_id),
      )

  -- The `match` on the state of the floor.
  unfoldable pub dispatch : FloorState → Chronos F → ℕ → ℕ → F32 → Observation F → Answer
  unfolding observe_listening observe_user_speaking observe_user_pause observe_response_pending
      observe_assistant_speaking observe_soft_ducked observe_yielded
  dispatch listening c e t speech o = observe_listening c e t speech
  dispatch (user_speaking since) c e t speech o = observe_user_speaking c e t speech since o
  dispatch (user_pause since silence) c e t speech o =
      observe_user_pause c e t speech since silence o
  dispatch response_pending c e t speech o = observe_response_pending c e t speech
  dispatch (assistant_speaking g) c e t speech o = observe_assistant_speaking c e t speech g
  dispatch (soft_ducked g overlap) c e t speech o = observe_soft_ducked c e t speech g overlap
  dispatch yielded c e t speech o = observe_yielded c e t speech

  unfoldable pub observe : Chronos F → ℕ → ℕ → Observation F → Answer
  unfolding dispatch
  observe c event_id media_time_us o =
      dispatch c.state c event_id media_time_us (effective_speech_probability F o) o
