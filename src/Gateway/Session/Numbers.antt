-- ===== src/Gateway/Session/Numbers.antt =====
-- The sequence numbers of the messages that a session sends.
use openlive.Common.{
  ℕ, suc, ◌<◌, ◌≤◌, ◌≡◌, ap, ◌∙◌, sym, Bool, Option, none, some, List, [], ◌∷◌, arith, sat_add64,
  u64_max,
}
use mathlib.Core.Path.{subst}
use openlive.Common.Float.{Float}
use openlive.Common.Text.{Text}
use openlive.Protocol.Event.{EventEnvelope}
use openlive.Protocol.Capability.{ProviderManifest}
use openlive.Runtime.Store.{SessionStore}
use openlive.Gateway.Session.{World, Moment, ServerMessage, control, media, raw_text, new}
use openlive.Gateway.Session.Run.{Input}
use openlive.Gateway.Session.Moves.{
  Core, number_field, Move, drew, lost, posted, repeated, called, linked, replayed, buffered, kept,
  thought, idled, listened, started, measured, ended, Moves, done, ◌then◌,
}
use openlive.Gateway.Session.Moves.Whole.{SomeReplay, ran, ran-Moves}

-- No number is missing, and they stand below the bound and each below the one before it in the list.
abbrev pub IsFalling : ℕ → List (Option ℕ) → Type 0
IsFalling bound [] = Unit {0}
IsFalling bound (none ∷ ns) = ⊥
IsFalling bound (some n ∷ ns) = (n < bound) × IsFalling n ns

weaken-IsFalling : (a b : ℕ) (ns : List (Option ℕ)) → a ≤ b → IsFalling a ns → IsFalling b ns
weaken-IsFalling a b [] le h = tt
weaken-IsFalling a b (none ∷ ns) le h = h
weaken-IsFalling a b (some n ∷ ns) le (lt, h) = (omega arith, h)

module _ (F : Float) (J : Type 0) (sequence_in : Text → Option ℕ) where
  -- The number of a message; that of a JSON text is what `sequence_in` reads in it.
  abbrev pub number : ServerMessage F J → Option ℕ
  number (control e) = some e.sequence
  number (media p) = some p.sequence
  number (raw_text json) = sequence_in json

  -- The numbers of messages, newest first.
  abbrev pub numbers : List (ServerMessage F J) → List (Option ℕ)
  numbers [] = []
  numbers (m ∷ ms) = number m ∷ numbers ms

  number-field : (m : ServerMessage F J) (n : ℕ) → number_field F J m ≡ some n → number m ≡ some n
  number-field (control e) n h = h
  number-field (media p) n h = h
  number-field (raw_text json) n h = absurd (ground arith)

module _ (F : Float) (J : Type 0) (W : World F J) where
  -- The counter has not reached its greatest value.
  abbrev pub IsLow : Core F J → Type 0
  IsLow s = s.sequence < u64_max

  pub move-IsLow : {R : Type 0} {s t : Core F J} → Move F J W R s t → IsLow t → IsLow s
  move-IsLow drew b = b
  move-IsLow lost b = omega arith
  move-IsLow (posted m n of) b = omega arith
  move-IsLow (repeated r json) b = b
  move-IsLow (called call) b = b
  move-IsLow (linked l) b = b
  move-IsLow (replayed now last) b = b
  move-IsLow (buffered now id json) b = omega arith
  move-IsLow (kept now id e json p n o) b = omega arith
  move-IsLow (thought e keeps) b = b
  move-IsLow (idled e idle) b = b
  move-IsLow (listened e silent) b = b
  move-IsLow (started e base latency idle) b = b
  move-IsLow (measured a latency active) b = b
  move-IsLow (ended e leases) b = b

module _ (F : Float) (J : Type 0) (W : World F J) (sequence_in : Text → Option ℕ)
    (reads : (e : EventEnvelope F J) (json : Text)
      → W.to_json e ≡ some json
      → sequence_in json ≡ some e.sequence) where
  abbrev Falls : Core F J → Type 0
  Falls s = IsFalling (suc s.sequence) (numbers F J sequence_in s.outgoing)

  counted-Falls :
      (s : Core F J)
      → sat_add64 s.sequence 1 < u64_max
      → Falls s
      → IsFalling (suc (sat_add64 s.sequence 1)) (numbers F J sequence_in s.outgoing)
  counted-Falls s b h = weaken-IsFalling _ _ (numbers F J sequence_in s.outgoing) (omega arith) h

  posted-Falls :
      (s : Core F J) (m : ServerMessage F J)
      → sat_add64 s.sequence 1 < u64_max
      → number F J sequence_in m ≡ some (sat_add64 s.sequence 1)
      → Falls s
      → IsFalling (suc (sat_add64 s.sequence 1)) (numbers F J sequence_in (m ∷ s.outgoing))
  posted-Falls s m b n h =
      let next = sat_add64 s.sequence 1 in
      subst (λ x. IsFalling (suc next) (x ∷ numbers F J sequence_in s.outgoing)) (sym n)
        (omega arith, weaken-IsFalling _ _ (numbers F J sequence_in s.outgoing) (omega arith) h)

  move-Falls : {s t : Core F J} → Move F J W ⊥ s t → IsLow F J W t → Falls s → Falls t
  move-Falls drew b h = h
  move-Falls {s} lost b h = counted-Falls s b h
  move-Falls {s} (posted m n of) b h = posted-Falls s m b (number-field F J sequence_in m _ n) h
  move-Falls (repeated r json) b h = absurd r
  move-Falls (called call) b h = h
  move-Falls (linked l) b h = h
  move-Falls (replayed now last) b h = h
  move-Falls {s} (buffered now id json) b h = counted-Falls s b h
  move-Falls {s} (kept now id e json p n o) b h =
      posted-Falls s (raw_text json) b (reads e json p ∙ ap some n) h
  move-Falls (thought e keeps) b h = h
  move-Falls (idled e idle) b h = h
  move-Falls (listened e silent) b h = h
  move-Falls (started e base latency idle) b h = h
  move-Falls (measured a latency active) b h = h
  move-Falls (ended e leases) b h = h

  moves-Falls : {s t : Core F J} → Moves F J W ⊥ s t → IsLow F J W t → Falls s → Falls t
  moves-Falls done b h = h
  moves-Falls (ms then m) b h = move-Falls m b (moves-Falls ms (move-IsLow F J W m b) h)

  -- In every session in which the client never asks to resume, and whose counter is below 2^64 - 1,
  -- the messages sent so far, control events, JSON texts of the resume buffer and media packets
  -- alike, carry strictly increasing sequence numbers, none above the counter. What `sequence_in`
  -- reads in the JSON text of an envelope is the envelope's sequence number.
  pub ran-IsFalling :
      (session_id : ℕ) (moment : Moment) (manifest : ProviderManifest) (store : Option SessionStore)
      (safety : Bool) (inputs : List (Moment × Input F J))
      → ¬ SomeReplay F J W inputs
      → (ran F J W session_id moment manifest store safety inputs).link.sequence < u64_max
      → let l = (ran F J W session_id moment manifest store safety inputs).link in
        IsFalling (suc l.sequence) (numbers F J sequence_in l.outgoing)
  unfolding new
  ran-IsFalling session_id moment manifest store safety inputs fresh b =
      moves-Falls (ran-Moves F J W ⊥ session_id moment manifest store safety inputs fresh) b tt
