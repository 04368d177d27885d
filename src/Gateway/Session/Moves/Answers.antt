-- ===== src/Gateway/Session/Moves/Answers.antt =====
-- The moves of a coordinator that starts and cancels responses, and decides on observations.
use openlive.Common.{ℕ, ◌≡◌, inl, inr, refl, sym, ap, none, some, Bool-cases, Option-cases}
use mathlib.Core.Path.{subst}
use openlive.Common.Float.{Float}
use openlive.Common.Text.{Text, codes}
use openlive.Protocol.Interaction.{InteractionAction}
use openlive.Protocol.Event.{response_committed, cancel_requested}
use openlive.Protocol.Envelope.{with_generation}
use openlive.Provider.{commit_response, cancel_generation}
use openlive.Runtime.Engine.{SessionEngine}
use openlive.Runtime.Lease.{revoke}
use openlive.Gateway.Tasks.Life.{step, binds}
use openlive.Gateway.Latency.{ActiveGeneration, new_tracker, mark}
use openlive.Gateway.Timeline.{take_prompt}
use openlive.Gateway.Session.{World, Link, Coordinator, send_input, draw, send_latency}
use openlive.Gateway.Session.Response.{
  begin_generation, commit, respond, start_response, announce_cancel, cancel_active,
  cancel_response, is_hard_yield, prompt_hint_of, version_of,
}
use openlive.Gateway.Session.Moves.{
  Core, core, Keeps, Moves, done, ◌then◌, chain, once, called, thought, idled, started, ended,
}
use openlive.Gateway.Session.Moves.Sends.{
  linked_to, Goes, input-Goes, post-Goes, send_error-Goes, send_latency-Goes, generation-Fits,
}

module _ (F : Float) (J : Type 0) (W : World F J) (R : Type 0) where
  open W use {uuid_text}

  -- The abstract session of a coordinator, with the engine that it had before.
  abbrev pub before : Coordinator F J → SessionEngine F → Core F J
  before c e = record (core F J c) { engine = e }

  commit-Goes :
      (c : Coordinator F J) (l : Link F J) (g version t : ℕ) (prompt_hint : Text)
      → Goes F J W R c l (commit F J W l g version t prompt_hint)
  unfolding commit
  commit-Goes c l g version t prompt_hint =
      let input = commit_response g version t prompt_hint in
      let l' = (send_input F J l input).0 in
      elim (Bool-cases (send_input F J l input).1) [
        | inl e ↦ rw e (input-Goes F J W R c l input)
        | inr e ↦
            rw e (chain F J W R (input-Goes F J W R c l input) (send_error-Goes F J W R c l' t _ _))
      ]

  respond-Moves :
      (c : Coordinator F J) (e : SessionEngine F) (t : ℕ)
      → c.active_generation ≡ none
      → Moves F J W R (before c e) (core F J (respond F J W c t))
  unfolding respond begin_generation draw step
  respond-Moves c e t idle =
      let (l, g) = draw F J W c.link in
      let c' = begin_generation F J W (record c { link = l }) g t in
      let prompt_hint = prompt_hint_of (take_prompt uuid_text c.repair).1 c.latest_user_text in
      let a : ActiveGeneration = record {
        id = g;
        base_media_time_us = t;
        latency = new_tracker l.moment.now;
      } in
      let began : Moves F J W R (before c e) (linked_to F J c' l) =
        done then started c.engine t (new_tracker l.moment.now) idle then called (binds g) in
      let l' = send_latency F J W l t g (record { phase = response_committed; elapsed_us = 0 }) in
      chain F J W R (chain F J W R began (send_latency-Goes F J W R c' l t a _ refl))
        (commit-Goes c' l' g (version_of c'.leases.active) t prompt_hint)

  start_response-none :
      (c : Coordinator F J) (t : ℕ)
      → c.active_generation ≡ none
      → start_response F J W c t ≡ respond F J W c t
  unfolding start_response
  start_response-none c t h = ap (λ o. elim o [ some a ↦ c | none ↦ respond F J W c t ]) h

  start_response-some :
      (c : Coordinator F J) (t : ℕ) (a : ActiveGeneration)
      → c.active_generation ≡ some a
      → start_response F J W c t ≡ c
  unfolding start_response
  start_response-some c t a h = ap (λ o. elim o [ some a ↦ c | none ↦ respond F J W c t ]) h

  -- A response starts where none is active, whatever the engine went through; else it is no move.
  pub start_response-Moves :
      (c : Coordinator F J) (e : SessionEngine F) (t : ℕ)
      → Keeps e.chronos.state c.engine.chronos.state
      → Moves F J W R (before c e) (core F J (start_response F J W c t))
  start_response-Moves c e t keeps = elim (Option-cases c.active_generation) [
    | inl h ↦
        subst (λ x. Moves F J W R (before c e) (core F J x)) (sym (start_response-none c t h))
          (respond-Moves c e t h)
    | inr (a, h) ↦
        subst (λ x. Moves F J W R (before c e) (core F J x)) (sym (start_response-some c t a h))
          (once F J W R (thought c.engine keeps))
  ]

  announce_cancel-Goes :
      (c : Coordinator F J) (l : Link F J) (a : ActiveGeneration) (action : InteractionAction)
      (t : ℕ)
      → c.active_generation ≡ some a
      → Goes F J W R c l (announce_cancel F J W l a action t)
  unfolding announce_cancel
  announce_cancel-Goes c l a action t is_active =
      let l1 = send_latency F J W l t a.id (mark a.latency l.moment.now cancel_requested) in
      let l2 = (send_input F J l1 (cancel_generation a.id)).0 in
      let told : Goes F J W R c l l2 =
        chain F J W R (send_latency-Goes F J W R c l t a _ is_active) (input-Goes F J W R c l1 _) in
      elim (Bool-cases (is_hard_yield action)) [
        | inl h ↦ rw h (
            chain F J W R told (
              post-Goes F J W R c l2 (codes "assistant_audio") t (λ e. with_generation F J e a.id) _
                (generation-Fits F J c.active_generation a is_active)))
        | inr h ↦ rw h told
      ]

  cancel_active-Moves :
      (c : Coordinator F J) (e : SessionEngine F) (a : ActiveGeneration)
      (action : InteractionAction) (t : ℕ)
      → c.active_generation ≡ some a
      → Moves F J W R (before c e) (core F J (cancel_active F J W c a action t))
  unfolding cancel_active
  cancel_active-Moves c e a action t is_active =
      announce_cancel-Goes (record c { engine = e }) c.link a action t is_active
      then ended c.engine (revoke c.leases a.id)

  -- A cancellation ends the active generation, whatever the engine went through.
  pub cancel_response-Moves :
      (c : Coordinator F J) (e : SessionEngine F) (action : InteractionAction) (t : ℕ)
      → Moves F J W R (before c e) (core F J (cancel_response F J W c action t))
  unfolding cancel_response
  cancel_response-Moves c e action t = elim (Option-cases c.active_generation) [
    | inl h ↦
        subst
          (λ x.
            Moves F J W R (before c e)
              (core F J (elim x [ none ↦ c | some a ↦ cancel_active F J W c a action t ])))
          (sym h) (once F J W R (idled c.engine h))
    | inr (a, h) ↦
        subst
          (λ x.
            Moves F J W R (before c e)
              (core F J (elim x [ none ↦ c | some a ↦ cancel_active F J W c a action t ])))
          (sym h) (cancel_active-Moves c e a action t h)
  ]
