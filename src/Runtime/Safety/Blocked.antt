-- ===== src/Runtime/Safety/Blocked.antt =====
-- When the gate intervenes.
use mathlib.Core.Path.{subst}
use mathlib.Core.List.{append-nil}
use openlive.Common.{
  ℕ, zero, suc, ◌≡◌, ◌≢◌, ◌↔◌, ◌⊎◌, inl, inr, refl, sym, ap, ◌∙◌, Bool, true, false, ◌||◌, none,
  some, List, [], ◌∷◌, ◌++◌, ◌==◌, ltb, leb, length, take, drop, arith, Bool-cases, Option-cases,
}
use openlive.Common.Text.{starts_with, Text}
use openlive.Common.Trim.{trim, is_empty}
use openlive.Runtime.Safety.{
  holdback, intervene, SafetyDecision, SafetyPolicy, StreamingSafety, to_ascii_lowercase,
  contains_text, first_match, matches_blocklist, last_boundary, take_complete_clauses, already,
  after_clauses, hold, scan, finalize,
}
use openlive.Runtime.Safety.Released.{
  Call, says, ends, said, step, step_shut, by_mode, observe_delta_open, finalize_scan,
}

-- A part of a text contains no more phrases than the text.
starts_with-take :
    (n : ℕ) (xs ns : Text) → starts_with (take n xs) ns ≡ true → starts_with xs ns ≡ true
starts_with-take n xs [] h = refl
starts_with-take zero xs (m ∷ ns) h = cc
starts_with-take (suc n) [] (m ∷ ns) h = cc
starts_with-take (suc n) (x ∷ xs) (m ∷ ns) h = ground (arith, starts_with-take n xs ns)

contains_text-take :
    (n : ℕ) (xs ns : Text) → contains_text (take n xs) ns ≡ true → contains_text xs ns ≡ true
unfolding contains_text
contains_text-take n [] [] h = refl
contains_text-take n (x ∷ xs) [] h = refl
contains_text-take zero xs (m ∷ ns) h = cc
contains_text-take (suc n) [] (m ∷ ns) h = cc
contains_text-take (suc n) (x ∷ xs) (m ∷ ns) h =
    ground (arith, contains_text-take n xs (m ∷ ns), starts_with-take (suc n) (x ∷ xs) (m ∷ ns))

contains_text-drop :
    (n : ℕ) (xs ns : Text) → contains_text (drop n xs) ns ≡ true → contains_text xs ns ≡ true
unfolding contains_text
contains_text-drop zero xs ns h = h
contains_text-drop (suc n) [] ns h = h
contains_text-drop (suc n) (x ∷ xs) ns h = ground (arith, contains_text-drop n xs ns)

lower-take : (n : ℕ) (xs : Text) → to_ascii_lowercase (take n xs) ≡ take n (to_ascii_lowercase xs)
lower-take zero xs = refl
lower-take (suc n) [] = refl
lower-take (suc n) (x ∷ xs) = ground (arith, lower-take n xs)

lower-drop : (n : ℕ) (xs : Text) → to_ascii_lowercase (drop n xs) ≡ drop n (to_ascii_lowercase xs)
lower-drop zero xs = refl
lower-drop (suc n) [] = refl
lower-drop (suc n) (x ∷ xs) = lower-drop n xs

first_match-part :
    (needles : List Text) (part whole : Text)
    → ((ns : Text) → contains_text part ns ≡ true → contains_text whole ns ≡ true)
    → first_match needles whole ≡ none
    → first_match needles part ≡ none
unfolding first_match
first_match-part [] part whole f h = refl
first_match-part (n ∷ needles) part whole f h =
    ground (arith, h, f (to_ascii_lowercase n), first_match-part needles part whole f)

pub clean-take :
    (p : SafetyPolicy) (n : ℕ) (t : Text)
    → matches_blocklist p t ≡ none
    → matches_blocklist p (take n t) ≡ none
unfolding matches_blocklist
clean-take p n t h =
    ap (first_match p.blocklist) (lower-take n t)
    ∙ first_match-part p.blocklist _ _ (λ ns. contains_text-take n (to_ascii_lowercase t) ns) h

pub clean-drop :
    (p : SafetyPolicy) (n : ℕ) (t : Text)
    → matches_blocklist p t ≡ none
    → matches_blocklist p (drop n t) ≡ none
unfolding matches_blocklist
clean-drop p n t h =
    ap (first_match p.blocklist) (lower-drop n t)
    ∙ first_match-part p.blocklist _ _ (λ ns. contains_text-drop n (to_ascii_lowercase t) ns) h

-- A decision on clean text: no intervention, and what passes is clean.
record IsClean (p : SafetyPolicy) (d : SafetyDecision) : Type 0 where
  open_gate : d.disposition ≢ intervene
  clean : (d.disposition ≡ holdback) ⊎ (matches_blocklist p d.release ≡ none)

after_clauses-IsClean :
    (s : StreamingSafety)
    → matches_blocklist s.policy s.held ≡ none
    → IsClean s.policy (after_clauses (s, none)).1
unfolding after_clauses
after_clauses-IsClean s h = elim (Bool-cases (leb s.policy.max_hold_chars (length s.held))) [
  | inl full ↦ rw full (record { open_gate = λ e. cc; clean = inr h })
  | inr room ↦ rw room (record { open_gate = λ e. cc; clean = inl refl })
]

clauses-IsClean :
    (s : StreamingSafety)
    → matches_blocklist s.policy s.held ≡ none
    → IsClean s.policy (after_clauses (take_complete_clauses s)).1
unfolding take_complete_clauses after_clauses
clauses-IsClean s h = elim (Option-cases (last_boundary s.held)) [
  | inl e ↦ rw (e, take_complete_clauses) (after_clauses-IsClean s h)
  | inr (n, e) ↦ elim (Bool-cases (n == 0 || ltb (length s.held) n)) [
    | inl out ↦ rw (e, take_complete_clauses, out) (after_clauses-IsClean s h)
    | inr within ↦ elim (Bool-cases (is_empty (trim (take n s.held)))) [
      | inl blank ↦
          rw (e, take_complete_clauses, within, blank)
            (after_clauses-IsClean (record s { held = drop n s.held })
              (clean-drop s.policy n s.held h))
      | inr some_ink ↦
          rw (e, take_complete_clauses, within, some_ink)
            (record { open_gate = λ q. cc; clean = inr (clean-take s.policy n s.held h) })
    ]
  ]
]

hold-IsClean :
    (s : StreamingSafety) → matches_blocklist s.policy s.held ≡ none → IsClean s.policy (hold s).1
hold-IsClean s h = elim (Bool-cases s.policy.hold_until_clause) [
  | inl clauses ↦
      subst (λ r. IsClean s.policy r.1) (sym (by_mode s true clauses)) (clauses-IsClean s h)
  | inr through ↦
      subst (λ r. IsClean s.policy r.1) (sym (by_mode s false through))
        (record { open_gate = λ e. cc; clean = inr h })
]

-- What a call decides, by what it finds.
data Judged (p : SafetyPolicy) (i : Bool) (text : Text) (d : SafetyDecision) : Type 0 where
  shut : i ≡ true → d ≡ already → Judged p i text d
  blocked :
      {reason : Text}
      → matches_blocklist p text ≡ some reason
      → d.disposition ≡ intervene
      → Judged p i text d
  let_by : i ≡ false → matches_blocklist p text ≡ none → IsClean p d → Judged p i text d

scan-Judged :
    (s : StreamingSafety) → s.intervened ≡ false → Judged s.policy s.intervened s.held (scan s).1
unfolding scan
scan-Judged s o = elim (Option-cases (matches_blocklist s.policy s.held)) [
  | inl clear ↦ rw (clear, scan) (let_by o clear (hold-IsClean s clear))
  | inr (r, e) ↦ rw (e, scan) (blocked e refl)
]

finalize-Judged :
    (s : StreamingSafety)
    → s.intervened ≡ false
    → Judged s.policy s.intervened s.held (finalize s).1
finalize-Judged s o =
    subst (λ r. Judged s.policy s.intervened s.held r.1) (sym (finalize_scan s o))
      (elim (Option-cases (matches_blocklist s.policy s.held)) [
        | inl clear ↦ rw clear (let_by o clear (record { open_gate = λ e. cc; clean = inr clear }))
        | inr (r, e) ↦ rw e (blocked e refl)
      ])

open-Judged :
    (s : StreamingSafety) (c : Call)
    → s.intervened ≡ false
    → Judged s.policy s.intervened (s.held ++ said c) (step s c).1
unfolding step
open-Judged s (says delta) o =
    subst (λ r. Judged s.policy s.intervened (s.held ++ delta) r.1)
      (sym (observe_delta_open s delta o)) (scan-Judged (record s { held = s.held ++ delta }) o)
open-Judged s ends o =
    subst (λ t. Judged s.policy s.intervened t (finalize s).1) (sym (append-nil s.held))
      (finalize-Judged s o)

step-Judged :
    (s : StreamingSafety) (c : Call) → Judged s.policy s.intervened (s.held ++ said c) (step s c).1
step-Judged s c = elim (Bool-cases s.intervened) [
  | inl i ↦ shut i (ap (λ r. r.1) (step_shut s c i))
  | inr o ↦ open-Judged s c o
]

-- A call intervenes exactly if the gate has intervened before, or what it holds together with what
-- is said now contains a phrase of the block list, in any case of its ASCII letters.
pub step_intervenes_iff :
    (s : StreamingSafety) (c : Call)
    → ((step s c).1.disposition ≡ intervene) ↔ (
        (s.intervened ≡ true)
        ⊎ ((reason : Text) × (matches_blocklist s.policy (s.held ++ said c) ≡ some reason)))
step_intervenes_iff s c = elim (step-Judged s c) [
  | shut i e ↦ (λ h. inl i, λ h. ap (λ d. d.disposition) e)
  | blocked m e ↦ (λ h. inr (_, m), λ h. e)
  | let_by o m clean ↦ (
    λ h. absurd (clean.open_gate h),
    λ h. absurd (elim h [ inl i ↦ ground (arith, i, o) | inr (r, e) ↦ ground (arith, m, e) ]),
  )
]
