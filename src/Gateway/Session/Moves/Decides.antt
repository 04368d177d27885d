-- ===== src/Gateway/Session/Moves/Decides.antt =====
-- The moves of a coordinator that hands an observation to the engine and acts on its decisions.
use openlive.Common.{
  ℕ, ◌≡◌, ◌⊎◌, inl, inr, refl, sym, Option, none, some, List, [], ◌∷◌, ◌==◌, ltb, arith, Bool-cases,
}
use mathlib.Core.Path.{subst}
use openlive.Common.Float.{Float}
use openlive.Common.Text.{Text, codes}
use openlive.Common.Result.{Result, ok, err}
use openlive.Protocol.Interaction.{Observation, InteractionAction, listen, hard_yield, replan}
use openlive.Protocol.Event.{EventEnvelope, RealtimeEvent}
use openlive.Protocol.Envelope.{with_generation, with_parent, new_with_id}
use openlive.Runtime.Chronos.{FloorState, ChronosDecision}
use openlive.Runtime.Chronos.Observe.{observe}
use openlive.Runtime.Chronos.Edges.{
  Edge, Follows, observe-Edge, begin, pause, nod, continue, commit, restart, duck, unduck, give_way,
  take_floor,
}
use openlive.Runtime.Engine.{
  SessionEngine, RuntimeError, process, consume, publish, decision_envelope, error_text,
}
use openlive.Gateway.Latency.{ActiveGeneration}
use openlive.Gateway.Session.{World, control, Coordinator, next_sequence, send, send_error}
use openlive.Gateway.Session.Streams.{decision_action}
use openlive.Gateway.Session.Response.{
  handle_action, handle_some, tag_generation, apply_decision, apply_decisions, apply_observation,
}
use openlive.Gateway.Session.Moves.{
  core, number_field, IsOf, Speaks, Keeps, Moves, chain, once, thought, listened,
}
use openlive.Gateway.Session.Moves.Sends.{sent-Goes, send_error-Goes}
use openlive.Gateway.Session.Moves.Answers.{before, start_response-Moves, cancel_response-Moves}

-- What an edge does to the generation that has the floor.
edge-Keeps :
    {t : ℕ} {s s' : FloorState} {a : InteractionAction}
    → Edge t s a s'
    → (a ≡ hard_yield) ⊎ Keeps s s'
edge-Keeps begin = inr (λ g h. absurd h)
edge-Keeps pause = inr (λ g h. absurd h)
edge-Keeps nod = inr (λ g h. h)
edge-Keeps continue = inr (λ g h. absurd h)
edge-Keeps commit = inr (λ g h. absurd h)
edge-Keeps restart = inr (λ g h. absurd h)
edge-Keeps duck = inr (λ g h. h)
edge-Keeps unduck = inr (λ g h. h)
edge-Keeps give_way = inl refl
edge-Keeps take_floor = inr (λ g h. absurd h)

edge-kept :
    {t : ℕ} {s s' : FloorState} {a : InteractionAction}
    → Edge t s a s'
    → ¬ (a ≡ hard_yield)
    → Keeps s s'
edge-kept edge other = elim (edge-Keeps edge) [ inl h ↦ absurd (other h) | inr keeps ↦ keeps ]

-- A listen decision finds no generation that has the floor.
edge-silent :
    {t : ℕ} {s s' : FloorState} {a : InteractionAction}
    → Edge t s a s'
    → a ≡ listen
    → (g : ℕ) → ¬ Speaks s g
edge-silent begin e g h = h
edge-silent pause e g h = h
edge-silent nod e g h = h
edge-silent continue e g h = h
edge-silent commit e g h = h
edge-silent restart e g h = h
edge-silent duck e g h = ground arith
edge-silent unduck e g h = ground arith
edge-silent give_way e g h = ground arith
edge-silent take_floor e g h = h

module _ (F : Float) (J : Type 0) where
  -- What becomes of an observation: an engine that keeps the floor's generation, or one decision
  -- along an edge, in an envelope of no generation.
  pub data Decided (s s' : FloorState)
      : Result RuntimeError (List (EventEnvelope F J)) → Type 0 where
    refused : (e : RuntimeError) → Keeps s s' → Decided s s' (err e)
    silent : Keeps s s' → Decided s s' (ok [])
    decides :
        {t : ℕ} (a : InteractionAction) (d : EventEnvelope F J)
        → Edge t s a s'
        → decision_action F J d ≡ some a
        → d.generation_id ≡ none
        → Decided s s' (ok (d ∷ []))

module _ (F : Float) (J : Type 0) (new_v5 : ℕ → Text → ℕ) (uuid_text : ℕ → Text) where
  publish-Decided :
      (s0 : FloorState) (t : ℕ) (s : SessionEngine F) (e : EventEnvelope F J)
      (d : Option (ChronosDecision F))
      → Follows F t s0 s.chronos.state d
      → Decided F J s0
          (publish F J new_v5 uuid_text s e d).0.chronos.state
          (publish F J new_v5 uuid_text s e d).1
  unfolding publish decision_envelope decision_action with_parent new_with_id
  publish-Decided s0 t s e none (inl h) = silent (λ g x. subst (λ y. Speaks y g) (sym h) x)
  publish-Decided s0 t s e none (inr (h, h')) = silent (λ g x. absurd (subst (λ y. Speaks y g) h x))
  publish-Decided s0 t s e (some d) edge = decides d.action _ edge refl refl

  -- What the engine makes of an observation.
  process-Decided :
      (s : SessionEngine F) (e : EventEnvelope F J) (o : Observation F)
      → e.event ≡ RealtimeEvent.observation o
      → Decided F J s.chronos.state
          (process F J new_v5 uuid_text s e).0.chronos.state
          (process F J new_v5 uuid_text s e).1
  unfolding process consume
  process-Decided s e o h = elim (Bool-cases (e.session_id == s.session_id)) [
    | inr other ↦ rw other (refused _ (λ g x. x))
    | inl same ↦ elim (Bool-cases (ltb e.media_time_us s.last_media_time_us)) [
      | inl back ↦ rw (same, back) (refused _ (λ g x. x))
      | inr onward ↦
          let s' : SessionEngine F = record s { last_media_time_us = e.media_time_us } in
          let (chronos, d) = observe F s.chronos e.event_id e.media_time_us o in
          rw (same, onward)
            (subst
              (λ x.
                Decided F J s.chronos.state (consume F J new_v5 uuid_text s' e x).0.chronos.state
                  (consume F J new_v5 uuid_text s' e x).1)
              (sym h)
              (publish-Decided s.chronos.state e.media_time_us (record s' { chronos = chronos }) e d
                (observe-Edge F s.chronos e.event_id e.media_time_us o)))
    ]
  ]

module _ (F : Float) (J : Type 0) (W : World F J) (R : Type 0) where
  open W use {new_v5, uuid_text}

  tag_generation-IsOf :
      (active : Option ActiveGeneration) (action : Option InteractionAction) (e : EventEnvelope F J)
      → e.generation_id ≡ none
      → (number_field F J (control (tag_generation F J W active action e)) ≡ some e.sequence)
        × IsOf F J active (control (tag_generation F J W active action e))
  unfolding tag_generation with_generation
  tag_generation-IsOf (some a) (some hard_yield) e h = (refl, inr (a, refl, refl))
  tag_generation-IsOf _ _ e h = (refl, inl h)

  -- An action, when the engine comes along an edge from the one it was before.
  handle_action-Moves :
      {t' : ℕ} (c : Coordinator F J) (e : SessionEngine F) (a : InteractionAction) (t : ℕ)
      → Edge t' e.chronos.state a c.engine.chronos.state
      → Moves F J W R (before F J W R c e) (core F J (handle_action F J W c a t))
  unfolding handle_action
  handle_action-Moves c e listen t edge = once F J W R (listened c.engine (edge-silent edge refl))
  handle_action-Moves c e hard_yield t edge = cancel_response-Moves F J W R c e hard_yield t
  handle_action-Moves c e replan t edge = cancel_response-Moves F J W R c e replan t
  handle_action-Moves c e InteractionAction.start_response t edge =
      start_response-Moves F J W R c e t (edge-kept edge (λ h. ground arith))
  handle_action-Moves c e _ t edge =
      once F J W R (thought c.engine (edge-kept edge (λ h. ground arith)))

  -- A decision is sent, then acted on.
  apply_decision-Moves :
      {t' : ℕ} (c : Coordinator F J) (e : SessionEngine F) (d : EventEnvelope F J) (t : ℕ)
      (a : InteractionAction)
      → Edge t' e.chronos.state a c.engine.chronos.state
      → decision_action F J d ≡ some a
      → d.generation_id ≡ none
      → Moves F J W R (before F J W R c e) (core F J (apply_decision F J W c d t))
  unfolding apply_decision next_sequence decision_action
  apply_decision-Moves c e d t a edge is_action untagged =
      let l = next_sequence F J c.link in
      let numbered : EventEnvelope F J = record d { sequence = l.sequence } in
      let (n, of) = tag_generation-IsOf c.active_generation (some a) numbered untagged in
      let m = control (tag_generation F J W c.active_generation (some a) numbered) in
      let c' : Coordinator F J = record c { link = send F J l m } in
      subst
        (λ x. Moves F J W R (before F J W R c e) (
          core F J (
            handle_some F J W
              (record c {
                link = send F J l (control (tag_generation F J W c.active_generation x numbered));
              })
              x t)))
        (sym is_action)
        (chain F J W R (sent-Goes F J W R (record c { engine = e }) c.link m n of)
          (handle_action-Moves c' e a t edge))

  -- What is done with the engine's answer.
  applied-Moves :
      (c : Coordinator F J) (t : ℕ) (engine : SessionEngine F)
      (r : Result RuntimeError (List (EventEnvelope F J)))
      → Decided F J c.engine.chronos.state engine.chronos.state r
      → Moves F J W R (core F J c) (
          core F J (elim r [
            | ok decisions ↦ apply_decisions F J W (record c { engine = engine }) decisions t
            | err error ↦ record c {
              engine = engine;
              link = send_error F J W c.link t (codes "runtime_error") (error_text uuid_text error);
            }
          ]))
  unfolding apply_decisions
  applied-Moves c t engine r (refused error keeps) =
      chain F J W R (send_error-Goes F J W R c c.link t _ _) (once F J W R (thought engine keeps))
  applied-Moves c t engine r (silent keeps) = once F J W R (thought engine keeps)
  applied-Moves c t engine r (decides a d edge is_action untagged) =
      apply_decision-Moves (record c { engine = engine }) c.engine d t a edge is_action untagged

  -- An observation takes moves, from the engine as it was.
  pub apply_observation-Moves :
      (c : Coordinator F J) (e : EventEnvelope F J) (o : Observation F) (t : ℕ)
      → e.event ≡ RealtimeEvent.observation o
      → Moves F J W R (core F J c) (core F J (apply_observation F J W c e t))
  unfolding apply_observation
  apply_observation-Moves c e o t h =
      applied-Moves c t (process F J new_v5 uuid_text c.engine e).0
        (process F J new_v5 uuid_text c.engine e).1
        (process-Decided F J new_v5 uuid_text c.engine e o h)
