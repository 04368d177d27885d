-- ===== src/Audio/Measured.antt =====
-- What the tracker measures, told from the frames alone.
use openlive.Common.{
  ℕ, ◌+◌, ◌-◌, ◌/◌, ◌≤◌, ◌≡◌, refl, Bool, Option, none, some, List, [], ◌∷◌, arith, if◌then◌else◌,
  min, u32_max,
}
use openlive.Common.Float.{Float}
use openlive.Audio.{
  AudioAnalysis, EndpointingTracker, reset, get_or_insert, update_energy_shape, observe_speech,
  observe_silence, observe_with_semantic,
}

-- A frame, as it is put to the tracker.
pub record Frame (F : Float) : Type 0 where
  pub media_time_us : ℕ
  pub frame_duration_ms : ℕ
  pub analysis : AudioAnalysis F
  pub semantic_completion : Option F.F32

module _ (F : Float) where
  open F use {lit, fle}

  abbrev pub is_speech : Frame F → Bool
  is_speech f = fle (lit 62 2) f.analysis.speech_probability

  -- The tracker after the frames since a reset, newest first.
  unfoldable pub after : List (Frame F) → EndpointingTracker F
  after [] = reset F
  after (f ∷ fs) =
      (observe_with_semantic F (after fs) f.media_time_us f.frame_duration_ms f.analysis
        f.semantic_completion).0

  -- The milliseconds of all frames of speech.
  abbrev pub spoken_ms : List (Frame F) → ℕ
  spoken_ms [] = 0
  spoken_ms (f ∷ fs) = if is_speech f then f.frame_duration_ms + spoken_ms fs else spoken_ms fs

  -- When speech began, if there was any.
  abbrev pub first_speech : List (Frame F) → Option ℕ
  first_speech [] = none
  first_speech (f ∷ fs) = elim (first_speech fs) [
    | some t ↦ some t
    | none ↦ if is_speech f then some f.media_time_us else none
  ]

  -- When the silence began that lasts now, after speech.
  abbrev pub silent_since : List (Frame F) → Option ℕ
  silent_since [] = none
  silent_since (f ∷ fs) = if is_speech f then none else elim (first_speech fs) [
    | none ↦ none
    | some t ↦ some (get_or_insert (silent_since fs) f.media_time_us)
  ]

  -- The milliseconds from then to the newest frame.
  abbrev pub silent_ms : List (Frame F) → ℕ
  silent_ms [] = 0
  silent_ms (f ∷ fs) = elim (silent_since (f ∷ fs)) [
    | none ↦ 0
    | some t ↦ min ((f.media_time_us - t) / 1000) u32_max
  ]

  pub record Measures (tr : EndpointingTracker F) (fs : List (Frame F)) : Type 0 where
    pub started : tr.speech_started_us ≡ first_speech fs
    pub speech : tr.speech_duration_ms ≡ min (spoken_ms fs) u32_max
    pub silent : tr.silence_started_us ≡ silent_since fs
    pub silence : tr.silence_duration_ms ≡ silent_ms fs
    pub energy : tr.falling_energy_frames ≤ 12

  observe-Measures :
      (tr : EndpointingTracker F) (f : Frame F) (fs : List (Frame F))
      → Measures tr fs
      → Measures
          (observe_with_semantic F tr f.media_time_us f.frame_duration_ms f.analysis
            f.semantic_completion).0
          (f ∷ fs)
  unfolding observe_with_semantic observe_speech observe_silence update_energy_shape
  observe-Measures tr f fs m = record {
    started = ground (arith, m.started);
    speech = ground (arith, m.speech);
    silent = ground (arith, m.started, m.silent);
    silence = ground (arith, m.started, m.silent, m.silence);
    energy = ground (arith, m.energy);
  }

  -- After any frames since a reset, the tracker knows when speech began, how long all speech was,
  -- and since when and how long it has been silent after speech, both durations up to 2^32 - 1
  -- milliseconds; and its count of falling frames is at most 12.
  pub after-Measures : (fs : List (Frame F)) → Measures (after fs) fs
  unfolding after
  after-Measures [] = record {
    started = refl;
    speech = refl;
    silent = refl;
    silence = refl;
    energy = omega arith;
  }
  after-Measures (f ∷ fs) = observe-Measures (after fs) f fs (after-Measures fs)
