-- ===== src/Gateway/Session/Release.antt =====
-- What the gate does with the text of a provider that ends its answer.
use openlive.Common.{ℕ, ◌≡◌, refl, Bool, true, false, some, ◌∷◌, sat_add64, if◌then◌else◌}
use mathlib.Core.Path.{ap₂}
use openlive.Common.Float.{Float}
use openlive.Common.Text.{Text}
use openlive.Protocol.Event.{EventEnvelope, RealtimeEvent}
use openlive.Protocol.Envelope.{new_with_id, with_generation}
use openlive.Runtime.Safety.{
  StreamingSafety, finalize, matches_blocklist, first_match, contains_text,
}
use openlive.Gateway.Session.{World, control, Coordinator, with_defaults, draw, next_sequence, send}
use openlive.Gateway.Session.Streams.{provider_stream_id}
use openlive.Gateway.Session.Gate.{
  apply_safety_to_event, release_final, emit, emit_provider_event, final_release, emit_event,
}

module _ (F : Float) (J : Type 0) (W : World F J) where
  -- The envelope of the next provider event of a session.
  abbrev pub next_envelope : Coordinator F J → RealtimeEvent F J → ℕ → ℕ → EventEnvelope F J
  next_envelope c e generation_id media_time_us =
      with_generation F J
        (new_with_id F J (W.new_v4 c.link.drawn) c.link.session_id (provider_stream_id F J e)
          (sat_add64 c.link.sequence 1) media_time_us e)
        generation_id

  -- A provider's final text that finds the gate on and fresh, with nothing held, is put into the
  -- client's open channel as it stands, whatever it is: the blocklist is not asked. It is given back
  -- with the identifier of its envelope, and the gate is left on and fresh.
  pub final-unscanned :
      (c : Coordinator F J) (text : Text) (generation_id media_time_us : ℕ)
      → c.safety_enabled ≡ true
      → c.safety ≡ with_defaults
      → c.link.moment.outgoing_closed ≡ false
      → let e : RealtimeEvent F J = RealtimeEvent.output_text_final (record { text = text }) in
        let (c', emitted) = emit_event F J W c e generation_id media_time_us in
        (c'.link.outgoing
          ≡ control (next_envelope c e generation_id media_time_us) ∷ c.link.outgoing)
        × (emitted ≡ some (W.new_v4 c.link.drawn, e))
        × (c'.safety_enabled ≡ true)
        × (c'.safety ≡ with_defaults)
  unfolding emit_event apply_safety_to_event release_final emit emit_provider_event draw
      final_release finalize matches_blocklist first_match contains_text next_sequence send
  final-unscanned c text generation_id media_time_us on fresh is_open =
      let e : RealtimeEvent F J = RealtimeEvent.output_text_final (record { text = text }) in
      let released = λ (s : StreamingSafety).
        release_final F J W (record c { safety = (finalize s).0 }) (finalize s).1 text generation_id
          media_time_us in
      let whole = λ (b : Bool) (s : StreamingSafety).
        if b then released s else emit F J W c e generation_id media_time_us in
      let same : emit_event F J W c e generation_id media_time_us ≡ released with_defaults =
        ap₂ whole on fresh in
      rw same (rw is_open, refl, on, refl)
