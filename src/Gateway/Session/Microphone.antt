-- ===== src/Gateway/Session/Microphone.antt =====
-- apps/openlive-gateway/src/session.rs, lines 541 to 658: audio from the client.
use openlive.Common.{
  ℕ, zero, suc, ◌*◌, Bool, true, false, not, Option, none, some, ◌∷◌, ◌++◌, ◌==◌, if◌then◌else◌,
  sat_add64,
}
use openlive.Common.Float.{Float}
use openlive.Common.Text.{codes, decimal}
use openlive.Common.Result.{ok, err}
use openlive.Protocol.Interaction.{Observation, EndpointingPrediction}
use openlive.Protocol.Event.{EventEnvelope, RealtimeEvent}
use openlive.Protocol.Envelope.{with_parent}
use openlive.Protocol.Media.{MediaPacket, input_audio, output_audio, PcmAudioFrame}
use openlive.Provider.{audio_frame}
use openlive.Audio.{AudioAnalysis, observe_with_semantic}
use openlive.Audio.Frontend.{analyze}
use openlive.Gateway.Timeline.{is_active, observe_client, should_publish}
use openlive.Gateway.Session.{World, control, Link, Coordinator, send, draw, envelope, send_error}
use openlive.Gateway.Session.Response.{apply_observation}

-- `u64::is_power_of_two`: one of the powers from 1 on, by doubling; 64 doublings are all there are.
unfoldable pub is_power_from : ℕ → ℕ → ℕ → Bool
is_power_from zero power n = false
is_power_from (suc fuel) power n =
    let later = is_power_from fuel (power * 2) n in if power == n then true else later

abbrev pub is_power_of_two : ℕ → Bool
unfolding is_power_from
is_power_of_two n = is_power_from 64 1 n

-- How `try_send` of a frame ended.
pub data TrySend : Type 0 where
  taken full closed : TrySend

module _ (F : Float) (J : Type 0) where
  unfoldable pub try_send_frame : Link F J → ℕ → PcmAudioFrame F → Link F J × TrySend
  try_send_frame l media_time_us frame =
      if l.moment.provider_closed
      then (l, closed)
      else if l.moment.provider_full
      then (l, full)
      else (record l { provider_input = audio_frame media_time_us frame ∷ l.provider_input }, taken)

  unfoldable pub observation_of :
      AudioAnalysis F → EndpointingPrediction F → Option F.F32 → Observation F
  observation_of a p semantic = record {
    speech_probability = a.speech_probability;
    echo_probability = a.echo_probability;
    target_speaker_probability = a.target_speaker_probability;
    turn_completion_confidence = p.turn_completion_confidence;
    prosodic_finality = p.prosodic_finality;
    semantic_completion = semantic;
  }

  -- `if publish { self.send(event).await }`
  unfoldable pub send_if : Bool → Link F J → EventEnvelope F J → Link F J
  unfolding send
  send_if publish l e = if publish then send F J l (control e) else l

module _ (F : Float) (J : Type 0) (W : World F J) where
  open W use {doubles}

  -- The count of dropped frames, reported at each power of two.
  unfoldable pub note_dropped : Coordinator F J → ℕ → Coordinator F J
  unfolding send_error is_power_of_two
  note_dropped c media_time_us =
      let dropped = sat_add64 c.dropped_input_frames 1 in
      record c {
        dropped_input_frames = dropped;
        link =
            if is_power_of_two dropped
            then send_error F J W c.link media_time_us (codes "provider_backpressure") (
                codes "dropped "
                ++ (decimal dropped ++ codes " input frames while the provider was saturated"))
            else c.link;
      }

  -- From the endpointing on: what is published of a frame, and what is decided on it.
  unfoldable pub observe_frame :
      Coordinator F J → ℕ → PcmAudioFrame F → AudioAnalysis F → ℕ → Coordinator F J
  unfolding send_if envelope observation_of apply_observation
  observe_frame c media_time_us frame analysis parent_event_id =
      let (endpointing, prediction) =
        observe_with_semantic F c.endpointing media_time_us frame.frame_duration_ms analysis
          c.latest_user_semantic_completion in
      let (gate, publish) =
        should_publish c.telemetry_gate media_time_us prediction.should_respond in
      let (l1, e1) =
        envelope F J W c.link (codes "endpointing") media_time_us
          (RealtimeEvent.endpointing_prediction prediction) in
      let l2 = send_if F J publish l1 (with_parent F J e1 parent_event_id) in
      let (l3, e2) = envelope F J W l2 (codes "observations") media_time_us (
        RealtimeEvent.observation
          (observation_of F J analysis prediction c.latest_user_semantic_completion)) in
      let observation = with_parent F J e2 parent_event_id in
      let l4 = send_if F J publish l3 observation in
      apply_observation F J W
        (record c { endpointing = endpointing; telemetry_gate = gate; link = l4 }) observation
        media_time_us

  -- The branches on how the attempt to send the frame ended.
  unfoldable pub after_send :
      Coordinator F J → TrySend → ℕ → PcmAudioFrame F → AudioAnalysis F → ℕ → Coordinator F J
  unfolding note_dropped observe_frame
  after_send c taken media_time_us frame analysis parent_event_id =
      observe_frame (record c { dropped_input_frames = 0 }) media_time_us frame analysis
        parent_event_id
  after_send c full media_time_us frame analysis parent_event_id =
      observe_frame (note_dropped c media_time_us) media_time_us frame analysis parent_event_id
  after_send c closed media_time_us frame analysis parent_event_id = record c {
    link =
        send_error F J W c.link media_time_us (codes "provider_closed")
          (codes "provider input channel closed");
  }

  unfoldable pub forward_frame :
      Coordinator F J → ℕ → PcmAudioFrame F → AudioAnalysis F → ℕ → Coordinator F J
  unfolding try_send_frame after_send
  forward_frame c media_time_us frame analysis parent_event_id =
      let (l, outcome) = try_send_frame F J c.link media_time_us frame in
      after_send (record c { link = l }) outcome media_time_us frame analysis parent_event_id

  unfoldable pub handle_audio_frame : Coordinator F J → PcmAudioFrame F → ℕ → ℕ → Coordinator F J
  unfolding forward_frame
  handle_audio_frame c frame media_time_us parent_event_id =
      let (acoustics, result) = analyze F doubles c.acoustics frame (is_active c.playout) in
      let c' = record c { acoustics = acoustics } in
      elim result [
        | err message ↦ record c' {
          link = send_error F J W c.link media_time_us (codes "invalid_audio_frame") message;
        }
        | ok analysis ↦ forward_frame c' media_time_us frame analysis parent_event_id
      ]

  abbrev pub is_input : MediaPacket F → Bool
  is_input p = elim p.kind [
    | input_audio ↦ elim p.generation_id [ none ↦ true | some g ↦ false ]
    | output_audio ↦ false
  ]

  unfoldable pub handle_media : Coordinator F J → MediaPacket F → Coordinator F J
  unfolding handle_audio_frame draw
  handle_media c packet =
      let t = packet.media_time_us in
      if not (is_input packet)
      then record c {
        link =
            send_error F J W c.link t (codes "invalid_media_direction")
              (codes "client binary packets must contain input audio");
      }
      else (let (timeline, result) =
            observe_client c.client_timeline packet.sequence (codes "microphone") t in
          let c' = record c { client_timeline = timeline } in
          elim result [
            | err message ↦ record c' {
              link = send_error F J W c.link t (codes "invalid_client_timeline") message;
            }
            | ok u ↦
                let (l, parent_event_id) = draw F J W c.link in
                handle_audio_frame (record c' { link = l }) packet.audio t parent_event_id
          ])
