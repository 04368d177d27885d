-- ===== src/Examples/Endpoints.antt =====
-- crates/openlive-audio/src/lib.rs on concrete frames, with floats in thousandths.
use openlive.Common.{ℕ, ◌≡◌, ◌↔◌, true, false, some, List, [], ◌∷◌}
use openlive.Common.Float.{milli}
use openlive.Audio.{observe_with_semantic}
use openlive.Audio.Measured.{Frame, Measures, after, is_speech, first_speech, after-Measures}
use openlive.Audio.Endpoint.{HasEnded, should_respond_iff}

-- A frame of 20 milliseconds with its level of speech and the semantic completion 0.95.
abbrev frame : ℕ → ℕ → Frame milli
frame t speech = record {
  media_time_us = t;
  frame_duration_ms = 20;
  analysis = record {
    speech_probability = speech;
    echo_probability = 0;
    target_speaker_probability = speech;
    rms = 100;
  };
  semantic_completion = some 950;
}

abbrev frames : List (Frame milli)
frames = frame 20000 0 ∷ frame 0 900 ∷ []

after-Measures_example : Measures milli (after milli frames) frames
after-Measures_example = after-Measures milli frames

should_respond_iff_example :
    ((observe_with_semantic milli
        (after milli frames)
        110000
        20
        (frame 110000 0).analysis
        (some 950)).1.should_respond
      ≡ true)
    ↔ ((is_speech milli (frame 110000 0) ≡ false)
        × ((t : ℕ) × (first_speech milli frames ≡ some t))
        × HasEnded milli (after milli (frame 110000 0 ∷ frames)) (some 950))
should_respond_iff_example = should_respond_iff milli (frame 110000 0) frames
