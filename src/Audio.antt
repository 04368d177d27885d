-- ===== src/Audio.antt =====
-- crates/openlive-audio/src/lib.rs: the endpointing tracker, which measures the user's speech and
-- silence and says when a turn has ended.
pub mod Frontend
pub mod Measured
pub mod Endpoint
use openlive.Common.{
  ℕ, ◌+◌, ◌-◌, ◌/◌, Bool, true, false, ◌&&◌, ◌||◌, Option, none, some, leb, if◌then◌else◌, min,
  u32_max, sat_add32,
}
use openlive.Common.Text.{codes}
use openlive.Common.Float.{Float}
use openlive.Protocol.Interaction.{EndpointingPrediction}

pub record AudioAnalysis (F : Float) : Type 0 where
  pub speech_probability : F.F32
  pub echo_probability : F.F32
  pub target_speaker_probability : F.F32
  pub rms : F.F32

pub record EndpointingTracker (F : Float) : Type 0 where
  pub speech_started_us : Option ℕ
  pub silence_started_us : Option ℕ
  pub speech_duration_ms : ℕ
  pub silence_duration_ms : ℕ
  pub previous_rms : F.F32
  pub falling_energy_frames : ℕ

-- `Option::get_or_insert`, as the value that stands there afterwards.
abbrev pub get_or_insert : Option ℕ → ℕ → ℕ
get_or_insert none t = t
get_or_insert (some a) t = a

module _ (F : Float) where
  open F use {F32, lit, of_nat, sub, add, mul, div, mul_add, clamp, flt, fle}

  abbrev unit_clamp : F32 → F32
  unit_clamp x = clamp x (lit 0 0) (lit 1 0)

  -- `EndpointingTracker::default()`, to which `reset` returns.
  abbrev pub reset : EndpointingTracker F
  reset = record {
    speech_started_us = none;
    silence_started_us = none;
    speech_duration_ms = 0;
    silence_duration_ms = 0;
    previous_rms = lit 0 0;
    falling_energy_frames = 0;
  }

  abbrev pub empty_prediction : EndpointingPrediction F
  empty_prediction = record {
    speech_duration_ms = 0;
    silence_duration_ms = 0;
    turn_completion_confidence = lit 0 0;
    prosodic_finality = lit 0 0;
    should_respond = false;
    reason = codes "waiting for speech";
  }

  abbrev energy_frames : F32 → F32 → ℕ → ℕ
  energy_frames rms previous_rms frames =
      if flt rms (mul previous_rms (lit 82 2))
      then min (min (frames + 1) 255) 12
      else if flt (mul previous_rms (lit 112 2)) rms
      then frames - 1
      else frames

  unfoldable pub update_energy_shape : EndpointingTracker F → F32 → EndpointingTracker F
  update_energy_shape tr rms = record tr {
    falling_energy_frames = energy_frames rms tr.previous_rms tr.falling_energy_frames;
    previous_rms = rms;
  }

  abbrev pub silence_score : EndpointingTracker F → F32
  silence_score tr = unit_clamp (div (of_nat tr.silence_duration_ms) (lit 320 0))

  unfoldable pub completion_confidence : EndpointingTracker F → Option F32 → F32
  completion_confidence tr semantic =
      let duration_score = unit_clamp (div (of_nat tr.speech_duration_ms) (lit 500 0)) in
      elim semantic [
        | some sem ↦
            let silence_weight = if fle (lit 8 1) sem then lit 4 1 else lit 68 2 in
            let duration_weight = sub (lit 1 0) silence_weight in
            unit_clamp (
              add (mul_add (silence_score tr) silence_weight (mul sem (lit 42 2)))
                (mul duration_score duration_weight))
        | none ↦ unit_clamp (add (mul (silence_score tr) (lit 7 1)) (mul duration_score (lit 3 1)))
      ]

  unfoldable pub prosodic_finality_of : EndpointingTracker F → F32
  prosodic_finality_of tr =
      let energy_fall_score = unit_clamp (div (of_nat tr.falling_energy_frames) (lit 5 0)) in
      unit_clamp (add (mul (silence_score tr) (lit 55 2)) (mul energy_fall_score (lit 45 2)))

  unfoldable pub responds : EndpointingTracker F → Option F32 → Bool
  responds tr semantic =
      let confidence = completion_confidence tr semantic in
      let finality = prosodic_finality_of tr in
      elim semantic [
        | some sem ↦
            (fle (lit 68 2) confidence && fle (lit 48 2) finality)
            || ((fle (lit 85 2) sem && leb 140 tr.silence_duration_ms)
                || (fle (lit 95 2) sem && leb 80 tr.silence_duration_ms))
        | none ↦ fle (lit 7 1) confidence && fle (lit 5 1) finality
      ]

  unfoldable pub finality_prediction : EndpointingTracker F → Option F32 → EndpointingPrediction F
  finality_prediction tr semantic = record {
    speech_duration_ms = tr.speech_duration_ms;
    silence_duration_ms = tr.silence_duration_ms;
    turn_completion_confidence = completion_confidence tr semantic;
    prosodic_finality = prosodic_finality_of tr;
    should_respond = responds tr semantic;
    reason =
        if responds tr semantic
        then codes "speech ended with sufficient silence and falling energy or semantic finality"
        else codes "waiting for more silence or clearer prosodic/semantic finality";
  }

  abbrev pub Answer : Type 0
  Answer = EndpointingTracker F × EndpointingPrediction F

  unfoldable pub observe_speech : EndpointingTracker F → ℕ → ℕ → AudioAnalysis F → Answer
  unfolding update_energy_shape
  observe_speech tr media_time_us frame_duration_ms a =
      let speech_ms = sat_add32 tr.speech_duration_ms frame_duration_ms in
      (
        update_energy_shape
            (record tr {
              speech_started_us = some (get_or_insert tr.speech_started_us media_time_us);
              silence_started_us = none;
              silence_duration_ms = 0;
              speech_duration_ms = speech_ms;
            })
            a.rms,
        record {
          speech_duration_ms = speech_ms;
          silence_duration_ms = 0;
          turn_completion_confidence = lit 1 1;
          prosodic_finality = lit 1 1;
          should_respond = false;
          reason = codes "speech is active";
        },
      )

  -- `u32::try_from(..).unwrap_or(u32::MAX)` of the milliseconds of silence is their minimum.
  unfoldable pub observe_silence : EndpointingTracker F → ℕ → AudioAnalysis F → Option F32 → Answer
  unfolding update_energy_shape
  observe_silence tr media_time_us a semantic =
      let silence_start = get_or_insert tr.silence_started_us media_time_us in
      let tr' =
        update_energy_shape
          (record tr {
            silence_started_us = some silence_start;
            silence_duration_ms = min ((media_time_us - silence_start) / 1000) u32_max;
          })
          a.rms in
      (tr', finality_prediction tr' semantic)

  unfoldable pub observe_with_semantic :
      EndpointingTracker F → ℕ → ℕ → AudioAnalysis F → Option F32 → Answer
  unfolding observe_speech observe_silence
  observe_with_semantic tr media_time_us frame_duration_ms a semantic =
      if fle (lit 62 2) a.speech_probability
      then observe_speech tr media_time_us frame_duration_ms a
      else elim tr.speech_started_us [
        | none ↦ (record tr { previous_rms = a.rms }, empty_prediction)
        | some since ↦ observe_silence tr media_time_us a semantic
      ]
