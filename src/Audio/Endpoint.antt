-- ===== src/Audio/Endpoint.antt =====
-- When the tracker says that the user's turn has ended.
use openlive.Common.{
  ℕ, ◌≤◌, ◌≡◌, ◌⊎◌, inl, inr, ◌↔◌, ◌∙◌, sym, true, false, Option, none, some, List, ◌∷◌, arith,
  Bool-cases, Option-cases,
}
use openlive.Common.Float.{Float}
use openlive.Audio.{
  EndpointingTracker, observe_speech, observe_silence, observe_with_semantic, completion_confidence,
  prosodic_finality_of, responds, finality_prediction,
}
use openlive.Audio.Measured.{Frame, is_speech, after, first_speech, after-Measures}

module _ (F : Float) where
  open F use {F32, lit, fle}

  -- The signals that end a turn, with what they are compared to.
  abbrev pub HasEnded : EndpointingTracker F → Option F32 → Type 0
  HasEnded tr none =
      (fle (lit 7 1) (completion_confidence F tr none) ≡ true)
      × (fle (lit 5 1) (prosodic_finality_of F tr) ≡ true)
  HasEnded tr (some sem) =
      ((fle (lit 68 2) (completion_confidence F tr (some sem)) ≡ true)
        × (fle (lit 48 2) (prosodic_finality_of F tr) ≡ true))
      ⊎ (((fle (lit 85 2) sem ≡ true) × (140 ≤ tr.silence_duration_ms))
          ⊎ ((fle (lit 95 2) sem ≡ true) × (80 ≤ tr.silence_duration_ms)))

  responds_iff :
      (tr : EndpointingTracker F) (semantic : Option F32)
      → (responds F tr semantic ≡ true) ↔ HasEnded tr semantic
  unfolding responds
  responds_iff tr none = ground arith
  responds_iff tr (some sem) = ground arith

  should_respond_at :
      (tr : EndpointingTracker F) (f : Frame F)
      → ((observe_with_semantic F tr f.media_time_us f.frame_duration_ms f.analysis
            f.semantic_completion).1.should_respond
          ≡ true)
        ↔ ((is_speech F f ≡ false)
            × ((t : ℕ) × (tr.speech_started_us ≡ some t))
            × (responds F
                  (observe_with_semantic F tr f.media_time_us f.frame_duration_ms f.analysis
                    f.semantic_completion).0
                  f.semantic_completion
                ≡ true))
  unfolding observe_with_semantic observe_speech observe_silence finality_prediction
  should_respond_at tr f = elim (Bool-cases (is_speech F f)) [
    | inl speaks ↦
        (λ h. absurd (ground (arith, h, speaks)), λ h. absurd (ground (arith, h.0, speaks)))
    | inr quiet ↦ elim (Option-cases tr.speech_started_us) [
      | inl never ↦ (
        λ h. absurd (ground (arith, h, quiet, never)),
        λ (q, (t, e), r). absurd (ground (arith, never, e)),
      )
      | inr (t, e) ↦ (
        λ h. (quiet, (t, e), ground (arith, h, quiet, e)),
        λ (q, s, r). ground (arith, r, quiet, e),
      )
    ]
  ]

  -- The tracker says that the turn has ended exactly if the frame is no speech, there was speech
  -- since the reset, and the signals after the frame reach the bounds: completion and finality, or
  -- a strong semantic completion with at least 140 or 80 milliseconds of silence.
  pub should_respond_iff :
      (f : Frame F) (fs : List (Frame F))
      → ((observe_with_semantic F
            (after F fs)
            f.media_time_us
            f.frame_duration_ms
            f.analysis
            f.semantic_completion).1.should_respond
          ≡ true)
        ↔ ((is_speech F f ≡ false)
            × ((t : ℕ) × (first_speech F fs ≡ some t))
            × HasEnded (after F (f ∷ fs)) f.semantic_completion)
  unfolding after
  should_respond_iff f fs =
      let m = (after-Measures F fs).started in
      let (go, back) = should_respond_at (after F fs) f in
      (
        λ h. let (q, (t, e), r) = go h in (q, (t, sym m ∙ e), (responds_iff _ _).0 r),
        λ (q, (t, e), r). back (q, (t, m ∙ e), (responds_iff _ _).1 r),
      )
