-- ===== src/Gateway/Session/Moves/Sends.antt =====
-- The moves of a coordinator that sends: to the client, to the provider, and through the buffer.
use openlive.Common.{
  ℕ, ◌≡◌, inl, inr, refl, ap, ◌||◌, Option, none, some, sat_add64, Bool-cases, Option-cases,
}
use openlive.Common.Float.{Float}
use openlive.Common.Text.{Text, codes}
use openlive.Protocol.Event.{EventEnvelope, RealtimeEvent, LatencyMark}
use openlive.Protocol.Envelope.{new_with_id, with_generation, with_parent}
use openlive.Protocol.Media.{MediaPacket}
use openlive.Provider.{ProviderInput}
use openlive.Gateway.Latency.{ActiveGeneration}
use openlive.Gateway.Session.{
  World, ServerMessage, control, media, Link, Coordinator, next_sequence, send, send_media,
  send_input, draw, envelope, post, post_buffered, send_error, send_latency, send_and_buffer,
}
use openlive.Gateway.Session.Moves.{
  Core, core, number_field, IsOf, Moves, drew, lost, posted, buffered, kept, done, chain, once,
}

module _ (F : Float) (J : Type 0) where
  -- A coordinator's abstract session with another link.
  abbrev pub linked_to : Coordinator F J → Link F J → Core F J
  linked_to c l = core F J (record c { link = l })

  -- What finishes an envelope of the active generation, or of none.
  abbrev pub Fits : Option ActiveGeneration → (EventEnvelope F J → EventEnvelope F J) → Type 0
  Fits active finish =
      (e : EventEnvelope F J)
      → e.generation_id ≡ none
      → (number_field F J (control (finish e)) ≡ some e.sequence)
        × IsOf F J active (control (finish e))

  pub plain-Fits : (active : Option ActiveGeneration) → Fits active (λ e. e)
  plain-Fits active e h = (refl, inl h)

  pub parent-Fits :
      (active : Option ActiveGeneration) (parent : ℕ) → Fits active (λ e. with_parent F J e parent)
  unfolding with_parent
  parent-Fits active parent e h = (refl, inl h)

  pub generation-Fits :
      (active : Option ActiveGeneration) (a : ActiveGeneration)
      → active ≡ some a
      → Fits active (λ e. with_generation F J e a.id)
  unfolding with_generation
  generation-Fits active a is_active e h = (refl, inr (a, is_active, refl))

module _ (F : Float) (J : Type 0) (W : World F J) (R : Type 0) (c : Coordinator F J) where
  abbrev pub Goes : Link F J → Link F J → Type 0
  Goes l l' = Moves F J W R (linked_to F J c l) (linked_to F J c l')

  -- A numbered message, which the channel takes or not.
  pub sent-Goes :
      (l : Link F J) (m : ServerMessage F J)
      → number_field F J m ≡ some (sat_add64 l.sequence 1)
      → IsOf F J c.active_generation m
      → Goes l (send F J (next_sequence F J l) m)
  unfolding send next_sequence
  sent-Goes l m n of = elim (Bool-cases l.moment.outgoing_closed) [
    | inl e ↦ rw e (once F J W R lost)
    | inr e ↦ rw e (once F J W R (posted m n of))
  ]

  pub media-Goes :
      (l : Link F J) (p : MediaPacket F)
      → p.sequence ≡ sat_add64 l.sequence 1
      → IsOf F J c.active_generation (media p)
      → Goes l (send_media F J (next_sequence F J l) p)
  unfolding send_media next_sequence
  media-Goes l p n of = elim (Bool-cases (l.moment.outgoing_full || l.moment.outgoing_closed)) [
    | inl e ↦ rw e (once F J W R lost)
    | inr e ↦ rw e (once F J W R (posted (media p) (ap some n) of))
  ]

  pub input-Goes : (l : Link F J) (input : ProviderInput F) → Goes l (send_input F J l input).0
  unfolding send_input
  input-Goes l input = elim (Bool-cases l.moment.provider_closed) [
    | inl e ↦ rw e done
    | inr e ↦ rw e done
  ]

  pub draw-Goes : (l : Link F J) → Goes l (draw F J W l).0
  unfolding draw
  draw-Goes l = once F J W R drew

  pub post-Goes :
      (l : Link F J) (stream_id : Text) (t : ℕ) (finish : EventEnvelope F J → EventEnvelope F J)
      (event : RealtimeEvent F J)
      → Fits F J c.active_generation finish
      → Goes l (post F J W l stream_id t finish event)
  unfolding post envelope draw next_sequence send new_with_id
  post-Goes l stream_id t finish event fits =
      let e =
        new_with_id F J (W.new_v4 l.drawn) l.session_id stream_id (sat_add64 l.sequence 1) t
          event in
      let (n, of) = fits e refl in
      chain F J W R (draw-Goes l) (sent-Goes (draw F J W l).0 (control (finish e)) n of)

  pub send_error-Goes :
      (l : Link F J) (t : ℕ) (code message : Text) → Goes l (send_error F J W l t code message)
  unfolding send_error
  send_error-Goes l t code message =
      post-Goes l (codes "errors") t (λ e. e) _ (plain-Fits F J c.active_generation)

  pub send_latency-Goes :
      (l : Link F J) (t : ℕ) (a : ActiveGeneration) (mark : LatencyMark)
      → c.active_generation ≡ some a
      → Goes l (send_latency F J W l t a.id mark)
  unfolding send_latency
  send_latency-Goes l t a mark is_active =
      post-Goes l (codes "telemetry") t (λ e. with_generation F J e a.id) _
        (generation-Fits F J c.active_generation a is_active)

module _ (F : Float) (J : Type 0) (W : World F J) (R : Type 0) where
  send_and_buffer-Moves :
      (c : Coordinator F J) (l : Link F J) (e : EventEnvelope F J)
      → e.sequence ≡ sat_add64 l.sequence 1
      → e.generation_id ≡ none
      → Moves F J W R
          (linked_to F J c l)
          (core F J (send_and_buffer F J W (record c { link = next_sequence F J l }) e))
  unfolding next_sequence send_and_buffer send
  send_and_buffer-Moves c l e n g = elim (Option-cases (W.to_json e)) [
    | inl h ↦ rw (h, send_and_buffer) (sent-Goes F J W R c l (control e) (ap some n) (inl g))
    | inr (json, h) ↦ elim (Bool-cases l.moment.outgoing_closed) [
      | inl shut ↦
          rw (h, send_and_buffer)
            (rw n (rw (shut, send) (once F J W R (buffered l.moment.now e.event_id json))))
      | inr taken ↦
          rw (h, send_and_buffer)
            (rw n (rw (taken, send) (once F J W R (kept l.moment.now e.event_id e json h n g))))
    ]
  ]

  -- Numbering an envelope that is sent through the buffer takes moves.
  pub post_buffered-Moves :
      (c : Coordinator F J) (stream_id : Text) (t parent : ℕ) (event : RealtimeEvent F J)
      → Moves F J W R (core F J c) (core F J (post_buffered F J W c stream_id t parent event))
  unfolding post_buffered envelope draw next_sequence new_with_id with_parent
  post_buffered-Moves c stream_id t parent event =
      chain F J W R (draw-Goes F J W R c c.link)
        (send_and_buffer-Moves c (draw F J W c.link).0 _ refl refl)
