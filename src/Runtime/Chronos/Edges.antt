-- ===== src/Runtime/Chronos/Edges.antt =====
-- The diagram of the floor: which decision leads from which state to which.
use openlive.Common.{ℕ, ◌≡◌, ◌⊎◌, ◌↔◌, refl, false, Option, none, some, arith}
use openlive.Common.Float.{Float}
use openlive.Protocol.Interaction.{
  Observation, InteractionAction, listen, hold_floor, backchannel, start_response, soft_duck,
  hard_yield, resume, replan,
}
use openlive.Runtime.Chronos.{
  ChronosDecision, Chronos, FloorState, listening, user_speaking, user_pause, response_pending,
  assistant_speaking, soft_ducked, yielded, effective_speech_probability,
}
use openlive.Runtime.Chronos.Observe.{observe, dispatch}

-- A decision at media time `t`.
pub data Edge (t : ℕ) : FloorState → InteractionAction → FloorState → Type 0 where
  begin : Edge t listening listen (user_speaking t)
  pause : {s : ℕ} → Edge t (user_speaking s) hold_floor (user_pause s t)
  nod : {s : ℕ} → Edge t (user_speaking s) backchannel (user_speaking s)
  continue : {s q : ℕ} → Edge t (user_pause s q) listen (user_speaking s)
  commit : {s q : ℕ} → Edge t (user_pause s q) start_response response_pending
  restart : Edge t response_pending replan (user_speaking t)
  duck : {g : ℕ} → Edge t (assistant_speaking g) soft_duck (soft_ducked g t)
  unduck : {g s : ℕ} → Edge t (soft_ducked g s) resume (assistant_speaking g)
  give_way : {g s : ℕ} → Edge t (soft_ducked g s) hard_yield yielded
  take_floor : Edge t yielded listen (user_speaking t)

ruleset edges = (begin, pause, nod, continue, commit, restart, duck, unduck, give_way, take_floor)

abbrev pub IsIrreversible : InteractionAction → Type 0
IsIrreversible a = (a ≡ start_response) ⊎ ((a ≡ replan) ⊎ (a ≡ hard_yield))

module _ (F : Float) where
  -- What an observation may do to the floor.
  abbrev pub Follows : ℕ → FloorState → FloorState → Option (ChronosDecision F) → Type 0
  Follows t s s' none = (s' ≡ s) ⊎ ((s ≡ yielded) × (s' ≡ listening))
  Follows t s s' (some d) = Edge t s d.action s'

  dispatch-Follows :
      (s : FloorState) (c : Chronos F) (e t : ℕ) (speech : F.F32) (o : Observation F)
      → c.state ≡ s
      → Follows t s (dispatch F s c e t speech o).0.state (dispatch F s c e t speech o).1
  unfolding dispatch
  dispatch-Follows listening c e t speech o h = grind (arith, edges)
  dispatch-Follows (user_speaking since) c e t speech o h = grind (arith, edges)
  dispatch-Follows (user_pause since silence) c e t speech o h = grind (arith, edges)
  dispatch-Follows response_pending c e t speech o h = grind (arith, edges)
  dispatch-Follows (assistant_speaking g) c e t speech o h = grind (arith, edges)
  dispatch-Follows (soft_ducked g overlap) c e t speech o h = grind (arith, edges)
  dispatch-Follows yielded c e t speech o h = grind (arith, edges)

  -- Every decision follows an edge of the diagram at the observation's media time; an observation
  -- with no decision leaves the floor as it was, or takes a yielded floor back to listening.
  pub observe-Edge :
      (c : Chronos F) (e t : ℕ) (o : Observation F)
      → Follows t c.state (observe F c e t o).0.state (observe F c e t o).1
  unfolding observe
  observe-Edge c e t o = dispatch-Follows c.state c e t (effective_speech_probability F o) o refl

  dispatch_reversible :
      (s : FloorState) (c : Chronos F) (e t : ℕ) (speech : F.F32) (o : Observation F)
      (d : ChronosDecision F)
      → (dispatch F s c e t speech o).1 ≡ some d
      → (d.reversible ≡ false) ↔ IsIrreversible d.action
  unfolding dispatch
  dispatch_reversible listening c e t speech o d h = grind arith
  dispatch_reversible (user_speaking since) c e t speech o d h = grind arith
  dispatch_reversible (user_pause since silence) c e t speech o d h = grind arith
  dispatch_reversible response_pending c e t speech o d h = grind arith
  dispatch_reversible (assistant_speaking g) c e t speech o d h = grind arith
  dispatch_reversible (soft_ducked g overlap) c e t speech o d h = grind arith
  dispatch_reversible yielded c e t speech o d h = grind arith

  -- A decision is marked irreversible exactly when it starts a response, replans one or yields.
  pub observe_reversible :
      (c : Chronos F) (e t : ℕ) (o : Observation F) (d : ChronosDecision F)
      → (observe F c e t o).1 ≡ some d
      → (d.reversible ≡ false) ↔ IsIrreversible d.action
  unfolding observe
  observe_reversible c e t o d h =
      dispatch_reversible c.state c e t (effective_speech_probability F o) o d h
