-- ===== src/Examples/Releases.antt =====
-- crates/openlive-runtime/src/safety.rs on concrete deltas.
use openlive.Common.{◌≡◌, ◌↔◌, ◌⊎◌, refl, true, false, some, none, List, [], ◌∷◌, ◌++◌, arith}
use openlive.Common.Text.{Text, codes}
use openlive.Common.Trim.{trim, trim_start, is_whitespace}
use openlive.Runtime.Safety.{
  holdback, intervene, SafetyPolicy, new, decide, contains_text, first_match, matches_blocklist,
  last_boundary, take_complete_clauses, after_clauses, hold, scan, observe_delta,
}
use openlive.Runtime.Safety.Ink.{ink}
use openlive.Runtime.Safety.Released.{Call, says, ends, step, after, released, spoken, ink-released}
use openlive.Runtime.Safety.Blocked.{step_intervenes_iff}
use openlive.Runtime.Safety.Across.{saying, IsShort, released_clean}
use openlive.Runtime.Safety.Blank.{line_break_lost}

abbrev strict : SafetyPolicy
strict = record { blocklist = codes "bad" ∷ []; hold_until_clause = true; max_hold_chars = 8 }

-- "Hi. All", then "ok".
abbrev chat : List Call
chat = says (codes "ok") ∷ says (codes "Hi. All") ∷ []

chat_open : (after strict chat).intervened ≡ false
unfolding after step observe_delta scan hold after_clauses take_complete_clauses last_boundary
    matches_blocklist first_match contains_text trim trim_start is_whitespace
chat_open = refl

ink-released_example :
    ink (released strict chat) ++ ink (after strict chat).held ≡ ink (spoken chat)
ink-released_example = ink-released strict chat chat_open

step_intervenes_iff_example :
    ((step (new strict) (says (codes "BaD"))).1.disposition ≡ intervene)
    ↔ ((false ≡ true) ⊎ ((reason : Text) × (matches_blocklist strict (codes "BaD") ≡ some reason)))
step_intervenes_iff_example = step_intervenes_iff (new strict) (says (codes "BaD"))

-- "Hi. Is", "it b" and "a? Ok" keep the phrase in pieces that never meet.
abbrev pieces : List Text
pieces = codes "a? Ok" ∷ codes "it b" ∷ codes "Hi. Is" ∷ []

pieces_open : (after strict (saying pieces)).intervened ≡ false
unfolding after step observe_delta scan hold after_clauses take_complete_clauses last_boundary
    matches_blocklist first_match contains_text trim trim_start is_whitespace
pieces_open = refl

pieces-IsShort : IsShort strict pieces
unfolding after step observe_delta scan hold after_clauses take_complete_clauses last_boundary
    matches_blocklist first_match contains_text trim trim_start is_whitespace
pieces-IsShort = (omega arith, (omega arith, (omega arith, tt)))

released_clean_example :
    (matches_blocklist strict (released strict (saying pieces)) ≡ none)
    × (matches_blocklist strict
          (released strict (saying pieces) ++ (after strict (saying pieces)).held)
        ≡ none)
    × (matches_blocklist strict (released strict (ends ∷ saying pieces)) ≡ none)
released_clean_example =
    released_clean strict pieces refl ((refl, (refl, (refl, tt))), tt) pieces-IsShort pieces_open

-- Where the hold limit is reached within a phrase, its first part leaves, and then the rest.
abbrev hasty : SafetyPolicy
hasty = record { blocklist = codes "a bomb" ∷ []; hold_until_clause = true; max_hold_chars = 4 }

phrase_leaves : released hasty (saying (codes "omb." ∷ codes "xa b" ∷ [])) ≡ codes "xa bomb."
unfolding after step observe_delta scan hold after_clauses take_complete_clauses last_boundary
    matches_blocklist first_match contains_text trim trim_start is_whitespace released
phrase_leaves = refl

line_break_lost_example :
    observe_delta (new strict) (10 ∷ [])
    ≡ (new strict, decide holdback [] (codes "holding for clause boundary"))
unfolding matches_blocklist first_match contains_text
line_break_lost_example = line_break_lost strict refl (omega arith) refl
