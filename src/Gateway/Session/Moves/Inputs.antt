-- ===== src/Gateway/Session/Moves/Inputs.antt =====
-- The moves of a coordinator that takes audio and control events from its client.
use openlive.Common.{ℕ, ◌≡◌, inl, inr, refl, Bool, true, false, Bool-cases, sat_add64}
use mathlib.Core.Path.{subst}
use openlive.Common.Float.{Float}
use openlive.Common.Text.{Text, codes}
use openlive.Common.Result.{Result-cases}
use openlive.Protocol.Event.{EventEnvelope, RealtimeEvent}
use openlive.Protocol.Envelope.{with_parent, new_with_id}
use openlive.Protocol.Media.{MediaPacket, PcmAudioFrame}
use openlive.Audio.{AudioAnalysis, observe_with_semantic}
use openlive.Audio.Frontend.{analyze}
use openlive.Gateway.Timeline.{is_active, observe_client, should_publish}
use openlive.Gateway.Session.{World, control, Link, Coordinator, next_sequence, draw, envelope}
use openlive.Gateway.Session.Microphone.{
  TrySend, taken, full, closed, try_send_frame, observation_of, send_if, note_dropped,
  observe_frame, after_send, forward_frame, handle_audio_frame, is_input, is_power_of_two,
  handle_media,
}
use openlive.Gateway.Session.Moves.{core, Moves, done, chain, once, lost}
use openlive.Gateway.Session.Moves.Sends.{
  linked_to, Goes, Fits, parent-Fits, sent-Goes, draw-Goes, send_error-Goes,
}
use openlive.Gateway.Session.Moves.Decides.{apply_observation-Moves}

module _ (F : Float) (J : Type 0) (W : World F J) (R : Type 0) where
  open W use {doubles}

  -- An envelope that is made, and sent if it is to be published.
  enveloped-Goes :
      (c : Coordinator F J) (publish : Bool) (l : Link F J) (stream_id : Text) (t : ℕ)
      (finish : EventEnvelope F J → EventEnvelope F J) (event : RealtimeEvent F J)
      → Fits F J c.active_generation finish
      → let (l', e) = envelope F J W l stream_id t event in
        Goes F J W R c l (send_if F J publish l' (finish e))
  unfolding send_if envelope draw next_sequence new_with_id
  enveloped-Goes c true l stream_id t finish event fits =
      let (l', e) = envelope F J W l stream_id t event in
      let (n, of) = fits e refl in
      chain F J W R (draw-Goes F J W R c l)
        (sent-Goes F J W R c (draw F J W l).0 (control (finish e)) n of)
  enveloped-Goes c false l stream_id t finish event fits =
      chain F J W R (draw-Goes F J W R c l) (once F J W R lost)

  note_dropped-Moves :
      (c : Coordinator F J) (t : ℕ) → Moves F J W R (core F J c) (core F J (note_dropped F J W c t))
  unfolding note_dropped
  note_dropped-Moves c t =
      elim (Bool-cases (is_power_of_two (sat_add64 c.dropped_input_frames 1))) [
        | inl h ↦ rw h (send_error-Goes F J W R c c.link t _ _)
        | inr h ↦ rw h done
      ]

  observe_frame-Moves :
      (c : Coordinator F J) (t : ℕ) (frame : PcmAudioFrame F) (analysis : AudioAnalysis F)
      (parent : ℕ)
      → Moves F J W R (core F J c) (core F J (observe_frame F J W c t frame analysis parent))
  unfolding observe_frame envelope new_with_id with_parent
  observe_frame-Moves c t frame analysis parent =
      let (endpointing, prediction) =
        observe_with_semantic F c.endpointing t frame.frame_duration_ms analysis
          c.latest_user_semantic_completion in
      let (gate, publish) = should_publish c.telemetry_gate t prediction.should_respond in
      let finish = λ (e : EventEnvelope F J). with_parent F J e parent in
      let fits = parent-Fits F J c.active_generation parent in
      let (l1, e1) =
        envelope F J W c.link (codes "endpointing") t
          (RealtimeEvent.endpointing_prediction prediction) in
      let l2 = send_if F J publish l1 (finish e1) in
      let o = observation_of F J analysis prediction c.latest_user_semantic_completion in
      let (l3, e2) = envelope F J W l2 (codes "observations") t (RealtimeEvent.observation o) in
      let l4 = send_if F J publish l3 (finish e2) in
      let c' : Coordinator F J = record c {
        endpointing = endpointing;
        telemetry_gate = gate;
        link = l4;
      } in
      chain F J W R
        (chain F J W R (enveloped-Goes c publish c.link (codes "endpointing") t finish _ fits) (
          enveloped-Goes c publish l2 (codes "observations") t finish (RealtimeEvent.observation o)
            fits))
        (apply_observation-Moves F J W R c' (finish e2) o t refl)

  after_send-Moves :
      (c : Coordinator F J) (outcome : TrySend) (t : ℕ) (frame : PcmAudioFrame F)
      (analysis : AudioAnalysis F) (parent : ℕ)
      → Moves F J W R (core F J c) (core F J (after_send F J W c outcome t frame analysis parent))
  unfolding after_send
  after_send-Moves c taken t frame analysis parent =
      observe_frame-Moves (record c { dropped_input_frames = 0 }) t frame analysis parent
  after_send-Moves c full t frame analysis parent =
      chain F J W R (note_dropped-Moves c t)
        (observe_frame-Moves (note_dropped F J W c t) t frame analysis parent)
  after_send-Moves c closed t frame analysis parent = send_error-Goes F J W R c c.link t _ _

  try_send_frame-core :
      (c : Coordinator F J) (t : ℕ) (frame : PcmAudioFrame F)
      → linked_to F J c (try_send_frame F J c.link t frame).0 ≡ core F J c
  unfolding try_send_frame
  try_send_frame-core c t frame = elim (Bool-cases c.link.moment.provider_closed) [
    | inl h ↦ rw h
    | inr h ↦ elim (Bool-cases c.link.moment.provider_full) [
      | inl h' ↦ rw (h, h')
      | inr h' ↦ rw (h, h')
    ]
  ]

  forward_frame-Moves :
      (c : Coordinator F J) (t : ℕ) (frame : PcmAudioFrame F) (analysis : AudioAnalysis F)
      (parent : ℕ)
      → Moves F J W R (core F J c) (core F J (forward_frame F J W c t frame analysis parent))
  unfolding forward_frame
  forward_frame-Moves c t frame analysis parent =
      let (l, outcome) = try_send_frame F J c.link t frame in
      subst (λ x. Moves F J W R x (core F J (forward_frame F J W c t frame analysis parent)))
        (try_send_frame-core c t frame)
        (after_send-Moves (record c { link = l }) outcome t frame analysis parent)

  handle_audio_frame-Moves :
      (c : Coordinator F J) (frame : PcmAudioFrame F) (t parent : ℕ)
      → Moves F J W R (core F J c) (core F J (handle_audio_frame F J W c frame t parent))
  unfolding handle_audio_frame
  handle_audio_frame-Moves c frame t parent =
      let (acoustics, result) = analyze F doubles c.acoustics frame (is_active c.playout) in
      elim (Result-cases result) [
        | inl (analysis, h) ↦
            rw (h, handle_audio_frame)
              (forward_frame-Moves (record c { acoustics = acoustics }) t frame analysis parent)
        | inr (message, h) ↦ rw (h, handle_audio_frame) (send_error-Goes F J W R c c.link t _ _)
      ]

  -- A packet from the client takes moves.
  pub handle_media-Moves :
      (c : Coordinator F J) (p : MediaPacket F)
      → Moves F J W R (core F J c) (core F J (handle_media F J W c p))
  unfolding handle_media
  handle_media-Moves c p =
      let t = p.media_time_us in
      let (timeline, result) = observe_client c.client_timeline p.sequence (codes "microphone") t in
      let c' = record c { client_timeline = timeline } in
      let (l, parent) = draw F J W c.link in
      elim (Bool-cases (is_input F J W p)) [
        | inr other ↦ rw other (send_error-Goes F J W R c c.link t _ _)
        | inl input ↦ elim (Result-cases result) [
          | inl (u, h) ↦
              rw (input, h, handle_media)
                (chain F J W R (draw-Goes F J W R c c.link)
                  (handle_audio_frame-Moves (record c' { link = l }) p.audio t parent))
          | inr (message, h) ↦ rw (input, h, handle_media) (send_error-Goes F J W R c c.link t _ _)
        ]
      ]
