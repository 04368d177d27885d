-- ===== src/Runtime/Safety/Across.antt =====
-- What leaves the gate over all deltas of a generation: phrases that stand across two releases.
use mathlib.Core.Path.{subst}
use mathlib.Core.List.{append_assoc, append-nil}
use openlive.Common.{
  ◌<◌, ◌≡◌, ◌⊎◌, inl, inr, refl, sym, ap, ◌∙◌, true, false, ◌||◌, none, List, [], ◌∷◌, ◌++◌, ◌==◌,
  ltb, leb, length, take, drop, arith, Bool-cases, Option-cases, All, take-append, take-append-drop,
}
use openlive.Common.Text.{Text}
use openlive.Common.Trim.{trim, is_empty}
use openlive.Runtime.Safety.{
  SafetyDecision, SafetyPolicy, StreamingSafety, contains_text, first_match, matches_blocklist,
  last_boundary, take_complete_clauses, after_clauses, scan,
}
use openlive.Runtime.Safety.Released.{
  Call, says, ends, after, released, step, step_shut, by_mode, observe_delta_open, finalize_scan,
}
use openlive.Runtime.Safety.Blocked.{clean-take, clean-drop}
use openlive.Runtime.Safety.Phrases.{IsPlain, Ends, clean-join, last_boundary-Ends}

-- What a scan of clean text releases and goes on to hold.
record Goes (p : SafetyPolicy) (text : Text) (r : StreamingSafety × SafetyDecision) : Type 0 where
  ended : Ends r.1.release
  clean : matches_blocklist p r.0.held ≡ none
  -- What is dropped is only text before which nothing is released.
  whole : (r.1.release ≡ []) ⊎ (r.1.release ++ r.0.held ≡ text)
  same : r.0.policy ≡ p

waiting-Goes :
    (text : Text) (s : StreamingSafety)
    → matches_blocklist s.policy s.held ≡ none
    → length s.held < s.policy.max_hold_chars
    → Goes s.policy text (after_clauses (s, none))
unfolding after_clauses
waiting-Goes text s h short =
    let room : leb s.policy.max_hold_chars (length s.held) ≡ false = ground arith in
    rw room (record { ended = inl refl; clean = h; whole = inl refl; same = refl })

clauses-Goes :
    (s : StreamingSafety)
    → matches_blocklist s.policy s.held ≡ none
    → length (take_complete_clauses s).0.held < s.policy.max_hold_chars
    → Goes s.policy s.held (after_clauses (take_complete_clauses s))
unfolding take_complete_clauses after_clauses
clauses-Goes s h short = elim (Option-cases (last_boundary s.held)) [
  | inl e ↦
      rw (e, take_complete_clauses)
        (waiting-Goes s.held s h (rw (e, take_complete_clauses) at short))
  | inr (n, e) ↦ elim (Bool-cases (n == 0 || ltb (length s.held) n)) [
    | inl out ↦
        rw (e, take_complete_clauses, out)
          (waiting-Goes s.held s h (rw (e, take_complete_clauses, out) at short))
    | inr within ↦ elim (Bool-cases (is_empty (trim (take n s.held)))) [
      | inl blank ↦
          rw (e, take_complete_clauses, within, blank)
            (waiting-Goes s.held (record s { held = drop n s.held })
              (clean-drop s.policy n s.held h) (rw (e, take_complete_clauses, within) at short))
      | inr some_ink ↦
          rw (e, take_complete_clauses, within, some_ink)
            (record {
              ended = inr (last_boundary-Ends s.held n e);
              clean = clean-drop s.policy n s.held h;
              whole = inr (take-append-drop n s.held);
              same = refl;
            })
    ]
  ]
]

-- The calls that say some deltas, newest first.
abbrev pub saying : List Text → List Call
saying [] = []
saying (delta ∷ deltas) = says delta ∷ saying deltas

-- Never is as much text held after its last clause as forces the gate to release it.
abbrev pub IsShort : SafetyPolicy → List Text → Type 0
IsShort p [] = Unit {0}
IsShort p (delta ∷ deltas) =
    let s = after p (saying deltas) in
    (length (take_complete_clauses (record s { held = s.held ++ delta })).0.held < p.max_hold_chars)
    × IsShort p deltas

-- The state of an open gate after some deltas: it has released whole clauses, and neither these nor
-- what it holds contain a phrase.
record Stands (p : SafetyPolicy) (out : Text) (s : StreamingSafety) : Type 0 where
  ended : Ends out
  clean_out : matches_blocklist p out ≡ none
  clean_held : matches_blocklist p s.held ≡ none
  same : s.policy ≡ p

scan-Goes :
    (s : StreamingSafety)
    → s.policy.hold_until_clause ≡ true
    → length (take_complete_clauses s).0.held < s.policy.max_hold_chars
    → (scan s).0.intervened ≡ false
    → Goes s.policy s.held (scan s)
unfolding scan
scan-Goes s clauses short o = elim (Option-cases (matches_blocklist s.policy s.held)) [
  | inl clear ↦
      rw (clear, scan)
        (subst (Goes s.policy s.held) (sym (by_mode s true clauses)) (clauses-Goes s clear short))
  | inr (r, e) ↦ absurd (ground (arith, o, e))
]

-- A scan that leaves the gate open found no phrase.
scan_clear :
    (s : StreamingSafety) → (scan s).0.intervened ≡ false → matches_blocklist s.policy s.held ≡ none
unfolding scan
scan_clear s o = elim (Option-cases (matches_blocklist s.policy s.held)) [
  | inl clear ↦ clear
  | inr (r, e) ↦ absurd (ground (arith, o, e))
]

-- Released whole clauses, and a release of more of them.
Ends-append : (x y : Text) → Ends x → Ends y → Ends (x ++ y)
Ends-append x y e (inl nothing) = subst Ends (sym (ap (λ t. x ++ t) nothing ∙ append-nil x)) e
Ends-append x y e (inr (zs, b, h, q)) =
    inr (x ++ zs, b, h, ap (λ t. x ++ t) q ∙ sym (append_assoc x zs (b ∷ [])))

Goes-Stands :
    (p : SafetyPolicy) (out text : Text) (s : StreamingSafety)
    (r : StreamingSafety × SafetyDecision)
    → All IsPlain p.blocklist
    → matches_blocklist p text ≡ none
    → Stands p out s
    → Goes p text r
    → Stands p (out ++ r.1.release) r.0
Goes-Stands p out text s r plain clear k g = record {
  ended = Ends-append out r.1.release k.ended g.ended;
  clean_out = elim g.whole [
    | inl nothing ↦
        subst (λ t. matches_blocklist p t ≡ none)
          (sym (ap (λ t. out ++ t) nothing ∙ append-nil out)) k.clean_out
    | inr q ↦ clean-join p out r.1.release plain k.ended k.clean_out (
        subst (λ t. matches_blocklist p t ≡ none)
          (ap (take (length r.1.release)) (sym q) ∙ take-append _ r.1.release r.0.held refl)
          (clean-take p (length r.1.release) text clear))
  ];
  clean_held = g.clean;
  same = g.same;
}

says-Stands :
    (s : StreamingSafety) (out delta : Text)
    → s.policy.hold_until_clause ≡ true
    → All IsPlain s.policy.blocklist
    → length (take_complete_clauses (record s { held = s.held ++ delta })).0.held
      < s.policy.max_hold_chars
    → s.intervened ≡ false
    → (step s (says delta)).0.intervened ≡ false
    → Stands s.policy out s
    → Stands s.policy (out ++ (step s (says delta)).1.release) (step s (says delta)).0
unfolding step
says-Stands s out delta clauses plain short o o' k =
    let s' : StreamingSafety = record s { held = s.held ++ delta } in
    let e = observe_delta_open s delta o in
    let still : (scan s').0.intervened ≡ false = sym (ap (λ r. r.0.intervened) e) ∙ o' in
    subst (λ r. Stands s.policy (out ++ r.1.release) r.0) (sym e)
      (Goes-Stands s.policy out (s.held ++ delta) s (scan s') plain (scan_clear s' still) k
        (scan-Goes s' clauses short still))

-- An open gate was open before.
step_open :
    (s : StreamingSafety) (c : Call) → (step s c).0.intervened ≡ false → s.intervened ≡ false
step_open s c o = elim (Bool-cases s.intervened) [
  | inl shut ↦ absurd (ground (arith, o, shut, step_shut s c shut))
  | inr still ↦ still
]

plain-silent : (needles : List Text) → All IsPlain needles → first_match needles [] ≡ none
unfolding first_match contains_text
plain-silent [] plain = refl
plain-silent ([] ∷ needles) plain = absurd plain.0
plain-silent ((n ∷ ns) ∷ needles) plain = plain-silent needles plain.1

after-Stands :
    (p : SafetyPolicy) (deltas : List Text)
    → p.hold_until_clause ≡ true
    → All IsPlain p.blocklist
    → IsShort p deltas
    → (after p (saying deltas)).intervened ≡ false
    → Stands p (released p (saying deltas)) (after p (saying deltas))
unfolding after released matches_blocklist
after-Stands p [] clauses plain short o =
    let silent = plain-silent p.blocklist plain in
    record { ended = inl refl; clean_out = silent; clean_held = silent; same = refl }
after-Stands p (delta ∷ deltas) clauses plain short o =
    let s = after p (saying deltas) in
    let out = released p (saying deltas) in
    let open_before = step_open s (says delta) o in
    let k = after-Stands p deltas clauses plain short.1 open_before in
    subst
      (λ q.
        q.hold_until_clause ≡ true
        → All IsPlain q.blocklist
        → length (take_complete_clauses (record s { held = s.held ++ delta })).0.held
          < q.max_hold_chars
        → Stands q out s
        → Stands q (out ++ (step s (says delta)).1.release) (step s (says delta)).0)
      k.same (λ c l b i. says-Stands s out delta c l b open_before o i) clauses plain short.0 k

ends_release :
    (s : StreamingSafety)
    → s.intervened ≡ false
    → matches_blocklist s.policy s.held ≡ none
    → (step s ends).1.release ≡ s.held
unfolding step
ends_release s o clear = ap (λ r. r.1.release) (finalize_scan s o) ∙ rw clear refl

-- With a policy that holds text until a clause ends, and phrases none of which contains a clause
-- boundary, all that a gate releases over the deltas of a generation, taken together, contains no
-- phrase of the block list in any case of its ASCII letters, also where the phrase came in pieces:
-- neither before nor after the end of the generation, as long as the gate did not intervene and the
-- text after the last clause never reached `max_hold_chars`. Nor does it together with what the gate
-- still holds.
pub released_clean :
    (p : SafetyPolicy) (deltas : List Text)
    → p.hold_until_clause ≡ true
    → All IsPlain p.blocklist
    → IsShort p deltas
    → (after p (saying deltas)).intervened ≡ false
    → (matches_blocklist p (released p (saying deltas)) ≡ none)
      × (matches_blocklist p (released p (saying deltas) ++ (after p (saying deltas)).held) ≡ none)
      × (matches_blocklist p (released p (ends ∷ saying deltas)) ≡ none)
unfolding released
released_clean p deltas clauses plain short o =
    let s = after p (saying deltas) in
    let out = released p (saying deltas) in
    let k = after-Stands p deltas clauses plain short o in
    let whole = clean-join p out s.held plain k.ended k.clean_out k.clean_held in
    let clear = ap (λ q. matches_blocklist q s.held) k.same ∙ k.clean_held in
    (k.clean_out, whole, ap (λ t. matches_blocklist p (out ++ t)) (ends_release s o clear) ∙ whole)
