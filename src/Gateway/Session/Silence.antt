-- ===== src/Gateway/Session/Silence.antt =====
-- After a response is cancelled, nothing of its generation is sent.
use openlive.Common.{
  ℕ, suc, ◌+◌, ◌≡◌, inl, inr, ◌<◌, ◌≤◌, refl, sym, ap, ◌∙◌, Bool, false, Option, none, some, List,
  [], ◌∷◌, arith, ◌==◌, if◌then◌else◌,
}
use mathlib.Core.Path.{subst}
use openlive.Common.Float.{Float}
use openlive.Protocol.Interaction.{InteractionAction}
use openlive.Protocol.Capability.{ProviderManifest}
use openlive.Runtime.Store.{SessionStore}
use openlive.Gateway.Latency.{ActiveGeneration}
use openlive.Gateway.Session.{World, Moment, ServerMessage, Coordinator, new}
use openlive.Gateway.Session.Response.{cancel_response, cancel_active}
use openlive.Gateway.Session.Run.{Input, run_inputs}
use openlive.Gateway.Session.Moves.{
  Core, core, tag, IsOf, Move, drew, lost, posted, repeated, called, linked, replayed, buffered,
  kept, thought, idled, listened, started, measured, ended, Moves, done, ◌then◌,
}
use openlive.Gateway.Session.Moves.Answers.{cancel_response-Moves}
use openlive.Gateway.Session.Moves.Whole.{ran, ran-Moves, run_inputs-Moves}

abbrev is_tag : ℕ → Option ℕ → Bool
is_tag g none = false
is_tag g (some h) = h == g

-- No generation, or another one, is active.
abbrev IsOther : ℕ → Option ActiveGeneration → Type 0
IsOther g none = Unit {0}
IsOther g (some a) = ¬ (a.id ≡ g)

module _ (F : Float) (J : Type 0) where
  -- How many of the messages carry the generation.
  abbrev pub tagged : ℕ → List (ServerMessage F J) → ℕ
  tagged g [] = 0
  tagged g (m ∷ ms) = if is_tag g (tag F J m) then suc (tagged g ms) else tagged g ms

module _ (F : Float) (J : Type 0) (W : World F J) where
  open W use {new_v4}

  -- The active generation was drawn before.
  abbrev IsDrawn : ℕ → Option ActiveGeneration → Type 0
  IsDrawn drawn none = Unit {0}
  IsDrawn drawn (some a) = (k : ℕ) × (k < drawn) × (a.id ≡ new_v4 k)

  later-IsDrawn :
      (n : ℕ) (active : Option ActiveGeneration) → IsDrawn n active → IsDrawn (n + 1) active
  later-IsDrawn n none h = tt
  later-IsDrawn n (some a) (k, lt, e) = (k, omega arith, e)

  abbrev Drew : Core F J → Type 0
  Drew s = IsDrawn s.drawn s.active

  move-Drew : {s t : Core F J} → Move F J W Unit s t → Drew s → Drew t
  move-Drew {s} drew h = later-IsDrawn s.drawn s.active h
  move-Drew lost h = h
  move-Drew (posted m n of) h = h
  move-Drew (repeated r json) h = h
  move-Drew (called call) h = h
  move-Drew (linked l) h = h
  move-Drew (replayed now last) h = h
  move-Drew (buffered now id json) h = h
  move-Drew (kept now id e json p n o) h = h
  move-Drew (thought e keeps) h = h
  move-Drew (idled e idle) h = h
  move-Drew (listened e silent) h = h
  move-Drew {s} (started e base latency idle) h = (s.drawn, omega arith, refl)
  move-Drew {s} (measured a latency active) h = subst (IsDrawn s.drawn) active h
  move-Drew (ended e leases) h = tt

  moves-Drew : {s t : Core F J} → Moves F J W Unit s t → Drew s → Drew t
  moves-Drew done h = h
  moves-Drew (ms then m) h = move-Drew m (moves-Drew ms h)

  move-drawn : {s t : Core F J} → Move F J W Unit s t → s.drawn ≤ t.drawn
  move-drawn drew = omega arith
  move-drawn lost = omega arith
  move-drawn (posted m n of) = omega arith
  move-drawn (repeated r json) = omega arith
  move-drawn (called call) = omega arith
  move-drawn (linked l) = omega arith
  move-drawn (replayed now last) = omega arith
  move-drawn (buffered now id json) = omega arith
  move-drawn (kept now id e json p n o) = omega arith
  move-drawn (thought e keeps) = omega arith
  move-drawn (idled e idle) = omega arith
  move-drawn (listened e silent) = omega arith
  move-drawn (started e base latency idle) = omega arith
  move-drawn (measured a latency active) = omega arith
  move-drawn (ended e leases) = omega arith

  moves-drawn : {s t : Core F J} → Moves F J W Unit s t → s.drawn ≤ t.drawn
  moves-drawn done = omega arith
  moves-drawn (ms then m) = ground (arith, moves-drawn ms, move-drawn m)

  -- A generation that was drawn and is not active.
  record Gone (k : ℕ) (s : Core F J) : Type 0 where
    past : k < s.drawn
    other : IsOther (new_v4 k) s.active

  module _ (injective : (m n : ℕ) → new_v4 m ≡ new_v4 n → m ≡ n) where
    move-Gone : {s t : Core F J} (k : ℕ) → Move F J W Unit s t → Gone k s → Gone k t
    move-Gone k drew g = record { past = omega (arith, g.past); other = g.other }
    move-Gone k lost g = record { past = g.past; other = g.other }
    move-Gone k (posted m n of) g = record { past = g.past; other = g.other }
    move-Gone k (repeated r json) g = record { past = g.past; other = g.other }
    move-Gone k (called call) g = record { past = g.past; other = g.other }
    move-Gone k (linked l) g = record { past = g.past; other = g.other }
    move-Gone k (replayed now last) g = record { past = g.past; other = g.other }
    move-Gone k (buffered now id json) g = record { past = g.past; other = g.other }
    move-Gone k (kept now id e json p n o) g = record { past = g.past; other = g.other }
    move-Gone k (thought e keeps) g = record { past = g.past; other = g.other }
    move-Gone k (idled e idle) g = record { past = g.past; other = g.other }
    move-Gone k (listened e silent) g = record { past = g.past; other = g.other }
    move-Gone {s} k (started e base latency idle) g = record {
      past = omega (arith, g.past);
      other = λ same. ground (arith, g.past, injective s.drawn k same);
    }
    move-Gone k (measured a latency active) g = record {
      past = g.past;
      other = subst (IsOther (new_v4 k)) active g.other;
    }
    move-Gone k (ended e leases) g = record { past = g.past; other = tt }

    -- A message is of no generation that is not active.
    other-untagged :
        (g : ℕ) (active : Option ActiveGeneration) (m : ServerMessage F J)
        → IsOf F J active m
        → IsOther g active
        → is_tag g (tag F J m) ≡ false
    other-untagged g active m (inl none_tag) other = ap (is_tag g) none_tag
    other-untagged g active m (inr (a, is_active, a_tag)) other =
        let differs : ¬ (a.id ≡ g) = subst (IsOther g) is_active other in
        let unequal : (a.id == g) ≡ false = ground arith in ap (is_tag g) a_tag ∙ unequal

    move-tagged :
        {s t : Core F J} (k : ℕ)
        → Move F J W Unit s t
        → Gone k s
        → tagged F J (new_v4 k) t.outgoing ≡ tagged F J (new_v4 k) s.outgoing
    move-tagged k drew g = refl
    move-tagged k lost g = refl
    move-tagged {s} k (posted m n of) g = rw (other-untagged (new_v4 k) s.active m of g.other)
    move-tagged k (repeated r json) g = refl
    move-tagged k (called call) g = refl
    move-tagged k (linked l) g = refl
    move-tagged k (replayed now last) g = refl
    move-tagged k (buffered now id json) g = refl
    move-tagged k (kept now id e json p n o) g = refl
    move-tagged k (thought e keeps) g = refl
    move-tagged k (idled e idle) g = refl
    move-tagged k (listened e silent) g = refl
    move-tagged k (started e base latency idle) g = refl
    move-tagged k (measured a latency active) g = refl
    move-tagged k (ended e leases) g = refl

    moves-Gone : {s t : Core F J} (k : ℕ) → Moves F J W Unit s t → Gone k s → Gone k t
    moves-Gone k done g = g
    moves-Gone k (ms then m) g = move-Gone k m (moves-Gone k ms g)

    moves-tagged :
        {s t : Core F J} (k : ℕ)
        → Moves F J W Unit s t
        → Gone k s
        → tagged F J (new_v4 k) t.outgoing ≡ tagged F J (new_v4 k) s.outgoing
    moves-tagged k done g = refl
    moves-tagged k (ms then m) g = move-tagged k m (moves-Gone k ms g) ∙ moves-tagged k ms g

    cancel_response-idle :
        (c : Coordinator F J) (a : ActiveGeneration) (action : InteractionAction) (t : ℕ)
        → c.active_generation ≡ some a
        → (cancel_response F J W c action t).active_generation ≡ none
    unfolding cancel_response cancel_active
    cancel_response-idle c a action t active =
        let cancelled : cancel_response F J W c action t ≡ cancel_active F J W c a action t =
          ap (λ x. elim x [ none ↦ c | some b ↦ cancel_active F J W c b action t ]) active in
        ap (λ x. x.active_generation) cancelled

    cancelled-Gone :
        (c : Coordinator F J) (a : ActiveGeneration) (action : InteractionAction) (t k : ℕ)
        → c.active_generation ≡ some a
        → k < c.link.drawn
        → Gone k (core F J (cancel_response F J W c action t))
    cancelled-Gone c a action t k active past = record {
      past =
          ground (arith, past, moves-drawn (cancel_response-Moves F J W Unit c c.engine action t));
      other = subst (IsOther (new_v4 k)) (sym (cancel_response-idle c a action t active)) tt;
    }

  -- In every session, once the active generation is cancelled, by a barge-in or a new plan, no
  -- control or media message of that generation is sent any more, whatever the inputs that follow.
  -- Identifiers that are drawn do not repeat.
  pub cancel-silences :
      ((m n : ℕ) → new_v4 m ≡ new_v4 n → m ≡ n)
      → (session_id : ℕ) (moment : Moment) (manifest : ProviderManifest)
        (store : Option SessionStore) (safety : Bool) (inputs : List (Moment × Input F J))
        (a : ActiveGeneration) (action : InteractionAction) (t : ℕ)
        (later : List (Moment × Input F J))
      → (ran F J W session_id moment manifest store safety inputs).active_generation ≡ some a
      → let cancelled =
          cancel_response F J W
            (ran F J W session_id moment manifest store safety inputs)
            action
            t in
        tagged F J a.id (run_inputs F J W cancelled later).link.outgoing
        ≡ tagged F J a.id cancelled.link.outgoing
  unfolding new
  cancel-silences injective session_id moment manifest store safety inputs a action t later active =
      let c = ran F J W session_id moment manifest store safety inputs in
      let cancelled = cancel_response F J W c action t in
      let (k, past, drawn) : IsDrawn c.link.drawn (some a) = subst (IsDrawn c.link.drawn) active (
        moves-Drew (ran-Moves F J W Unit session_id moment manifest store safety inputs (λ h. tt))
          tt) in
      subst
        (λ g.
          tagged F J g (run_inputs F J W cancelled later).link.outgoing
          ≡ tagged F J g cancelled.link.outgoing)
        (sym drawn)
        (moves-tagged injective k (run_inputs-Moves F J W Unit cancelled later (λ h. tt))
          (cancelled-Gone injective c a action t k active past))
