-- ===== src/Runtime/Safety/Released.antt =====
-- What leaves the gate over a whole generation.
use mathlib.Core.Path.{subst}
use mathlib.Core.List.{append_assoc, append-nil}
use openlive.Common.{
  ℕ, ◌≡◌, inl, inr, refl, sym, ap, ◌∙◌, Bool, true, false, not, ◌||◌, none, some, List, [], ◌∷◌,
  ◌++◌, ◌==◌, ltb, leb, if◌then◌else◌, length, take, drop, arith, Bool-cases, Option-cases,
  take-append-drop,
}
use openlive.Common.Text.{Text, codes}
use openlive.Common.Trim.{trim, is_empty}
use openlive.Runtime.Safety.Ink.{ink, ink-append, ink_blank}
use openlive.Runtime.Safety.{
  SafetyDecision, SafetyPolicy, StreamingSafety, new, matches_blocklist, last_boundary,
  take_complete_clauses, already, flush, cut_short, after_clauses, hold, scan, observe_delta,
  finalize,
}

-- A call on the gate.
pub data Call : Type 0 where
  says : Text → Call
  ends : Call

abbrev pub said : Call → Text
said (says delta) = delta
said ends = []

unfoldable pub step : StreamingSafety → Call → StreamingSafety × SafetyDecision
step s (says delta) = observe_delta s delta
step s ends = finalize s

-- The gate after a history of calls, newest first; what it released, and what was said to it.
unfoldable pub after : SafetyPolicy → List Call → StreamingSafety
after p [] = new p
after p (c ∷ h) = (step (after p h) c).0

unfoldable pub released : SafetyPolicy → List Call → Text
released p [] = []
released p (c ∷ h) = released p h ++ (step (after p h) c).1.release

abbrev pub spoken : List Call → Text
spoken [] = []
spoken (c ∷ h) = spoken h ++ said c

-- From held text `before`, an open gate released `release` and holds `s'.held`: nothing but white
-- space went astray.
record Keeps (before : Text) (r : StreamingSafety × SafetyDecision) : Type 0 where
  opened : r.0.intervened ≡ false
  kept : ink r.1.release ++ ink r.0.held ≡ ink before

ink_split : (n : ℕ) (t : Text) → ink (take n t) ++ ink (drop n t) ≡ ink t
ink_split n t = sym (ink-append (take n t) (drop n t)) ∙ ap ink (take-append-drop n t)

flush-Keeps :
    (s : StreamingSafety) (reason : Text) → s.intervened ≡ false → Keeps s.held (flush s reason)
flush-Keeps s reason o = record { opened = o; kept = append-nil (ink s.held) }

after_clauses-Keeps :
    (s : StreamingSafety) (before : Text)
    → s.intervened ≡ false
    → ink s.held ≡ ink before
    → Keeps before (after_clauses (s, none))
unfolding after_clauses
after_clauses-Keeps s before o e = elim (Bool-cases (leb s.policy.max_hold_chars (length s.held))) [
  | inl full ↦ rw full (record { opened = o; kept = append-nil (ink s.held) ∙ e })
  | inr room ↦ rw room (record { opened = o; kept = e })
]

take_complete_clauses-Keeps :
    (s : StreamingSafety)
    → s.intervened ≡ false
    → Keeps s.held (after_clauses (take_complete_clauses s))
unfolding take_complete_clauses after_clauses
take_complete_clauses-Keeps s o = elim (Option-cases (last_boundary s.held)) [
  | inl e ↦ rw (e, take_complete_clauses) (after_clauses-Keeps s s.held o refl)
  | inr (n, e) ↦ elim (Bool-cases (n == 0 || ltb (length s.held) n)) [
    | inl out ↦ rw (e, take_complete_clauses, out) (after_clauses-Keeps s s.held o refl)
    | inr within ↦ elim (Bool-cases (is_empty (trim (take n s.held)))) [
      | inl blank ↦
          rw (e, take_complete_clauses, within, blank)
            (after_clauses-Keeps (record s { held = drop n s.held }) s.held o
              (ap (λ x. x ++ ink (drop n s.held)) (sym (ink_blank (take n s.held) blank))
                ∙ ink_split n s.held))
      | inr some_ink ↦
          rw (e, take_complete_clauses, within, some_ink)
            (record { opened = o; kept = ink_split n s.held })
    ]
  ]
]

pub by_mode :
    (s : StreamingSafety) (b : Bool)
    → s.policy.hold_until_clause ≡ b
    → hold s
      ≡ (if not b then flush s (codes "pass-through") else after_clauses (take_complete_clauses s))
unfolding hold
by_mode s b e =
    ap
      (λ x.
        if not x then flush s (codes "pass-through") else after_clauses (take_complete_clauses s))
      e

hold-Keeps : (s : StreamingSafety) → s.intervened ≡ false → Keeps s.held (hold s)
hold-Keeps s o = elim (Bool-cases s.policy.hold_until_clause) [
  | inl clauses ↦
      subst (Keeps s.held) (sym (by_mode s true clauses)) (take_complete_clauses-Keeps s o)
  | inr through ↦ subst (Keeps s.held) (sym (by_mode s false through)) (flush-Keeps s _ o)
]

scan-Keeps :
    (s : StreamingSafety)
    → (scan s).0.intervened ≡ false
    → s.intervened ≡ false
    → Keeps s.held (scan s)
unfolding scan
scan-Keeps s h o = elim (Option-cases (matches_blocklist s.policy s.held)) [
  | inl clear ↦ rw (clear, scan) (hold-Keeps s o)
  | inr (r, e) ↦ absurd (ground (arith, h, e))
]

finalize-Keeps :
    (s : StreamingSafety) → (finalize s).0.intervened ≡ false → Keeps s.held (finalize s)
unfolding finalize
finalize-Keeps s h = elim (Bool-cases s.intervened) [
  | inl shut ↦ absurd (ground (arith, h, shut))
  | inr o ↦ elim (Option-cases (matches_blocklist s.policy s.held)) [
    | inl clear ↦ rw (o, clear, finalize) (flush-Keeps s _ o)
    | inr (r, e) ↦ absurd (ground (arith, h, o, e))
  ]
]

pub observe_delta_open :
    (s : StreamingSafety) (delta : Text)
    → s.intervened ≡ false
    → observe_delta s delta ≡ scan (record s { held = s.held ++ delta })
unfolding observe_delta
observe_delta_open s delta o =
    ap (λ b. if b then (s, already) else scan (record s { held = s.held ++ delta })) o

observe_delta_shut :
    (s : StreamingSafety) (delta : Text)
    → s.intervened ≡ true
    → observe_delta s delta ≡ (s, already)
unfolding observe_delta
observe_delta_shut s delta i =
    ap (λ b. if b then (s, already) else scan (record s { held = s.held ++ delta })) i

finalize_shut : (s : StreamingSafety) → s.intervened ≡ true → finalize s ≡ (s, already)
unfolding finalize
finalize_shut s i =
    ap
      (λ b. if b then (s, already) else elim (matches_blocklist s.policy s.held) [
        | some reason ↦ cut_short s reason
        | none ↦ flush s (codes "finalize")
      ])
      i

pub finalize_scan :
    (s : StreamingSafety)
    → s.intervened ≡ false
    → finalize s ≡ elim (matches_blocklist s.policy s.held) [
      | some reason ↦ cut_short s reason
      | none ↦ flush s (codes "finalize")
    ]
unfolding finalize
finalize_scan s o =
    ap
      (λ b. if b then (s, already) else elim (matches_blocklist s.policy s.held) [
        | some reason ↦ cut_short s reason
        | none ↦ flush s (codes "finalize")
      ])
      o

finalize_open : (s : StreamingSafety) → (finalize s).0.intervened ≡ false → s.intervened ≡ false
finalize_open s h = elim (Bool-cases s.intervened) [
  | inl shut ↦ absurd (ground (arith, h, shut, finalize_shut s shut))
  | inr o ↦ o
]

step-Keeps :
    (s : StreamingSafety) (c : Call)
    → (step s c).0.intervened ≡ false
    → (s.intervened ≡ false) × Keeps (s.held ++ said c) (step s c)
unfolding step
step-Keeps s (says delta) h = elim (Bool-cases s.intervened) [
  | inl shut ↦ absurd (ground (arith, h, shut, observe_delta_shut s delta shut))
  | inr o ↦
      let e = observe_delta_open s delta o in
      (
        o,
        subst (Keeps (s.held ++ delta)) (sym e) (
            scan-Keeps (record s { held = s.held ++ delta }) (sym (ap (λ r. r.0.intervened) e) ∙ h)
              o),
      )
]
step-Keeps s ends h = (
  finalize_open s h,
  subst (λ t. Keeps t (finalize s)) (sym (append-nil s.held)) (finalize-Keeps s h),
)

-- As long as a gate did not intervene, what it released, followed by what it still holds, is what
-- was said to it, in order and complete, but for white space.
pub ink-released :
    (p : SafetyPolicy) (h : List Call)
    → (after p h).intervened ≡ false
    → ink (released p h) ++ ink (after p h).held ≡ ink (spoken h)
unfolding after released
ink-released p [] o = refl
ink-released p (c ∷ h) o =
    let (before, keeps) = step-Keeps (after p h) c o in
    let s = after p h in
    ap (λ x. x ++ ink (step s c).0.held) (ink-append (released p h) (step s c).1.release)
    ∙ append_assoc (ink (released p h)) (ink (step s c).1.release) (ink (step s c).0.held)
    ∙ ap (λ x. ink (released p h) ++ x) (keeps.kept ∙ ink-append s.held (said c))
    ∙ sym (append_assoc (ink (released p h)) (ink s.held) (ink (said c)))
    ∙ ap (λ x. x ++ ink (said c)) (ink-released p h before)
    ∙ sym (ink-append (spoken h) (said c))

pub step_shut : (s : StreamingSafety) (c : Call) → s.intervened ≡ true → step s c ≡ (s, already)
unfolding step
step_shut s (says delta) i = observe_delta_shut s delta i
step_shut s ends i = finalize_shut s i

after_shut :
    (p : SafetyPolicy) (h k : List Call)
    → (after p h).intervened ≡ true
    → (after p (k ++ h) ≡ after p h) × (released p (k ++ h) ≡ released p h)
unfolding after released
after_shut p h [] i = (refl, refl)
after_shut p h (c ∷ k) i =
    let (same, more) = after_shut p h k i in
    let shut = step_shut (after p (k ++ h)) c (ap (λ s. s.intervened) same ∙ i) in
    (
      ap (λ r. r.0) shut ∙ same,
      ap (λ r. released p (k ++ h) ++ r.1.release) shut ∙ append-nil (released p (k ++ h)) ∙ more,
    )

-- Once a gate has intervened, nothing more is released, whatever is said to it or ended.
released_silent :
    (p : SafetyPolicy) (h k : List Call)
    → (after p h).intervened ≡ true
    → released p (k ++ h) ≡ released p h
released_silent p h k i = (after_shut p h k i).1
