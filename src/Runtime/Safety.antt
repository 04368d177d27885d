-- ===== src/Runtime/Safety.antt =====
-- crates/openlive-runtime/src/safety.rs: the gate that holds assistant text back up to the end of a
-- clause. Text is a list of code points, so a byte offset of the source is a number of characters.
pub mod Ink
pub mod Released
pub mod Blocked
pub mod Phrases
pub mod Across
pub mod Blank
use openlive.Common.{
  ℕ, suc, ◌+◌, ◌-◌, Bool, true, false, not, ◌&&◌, ◌||◌, Option, none, some, List, [], ◌∷◌, ◌++◌,
  ◌==◌, ltb, leb, if◌then◌else◌, length, take, drop, map,
}
use openlive.Common.Text.{Text, codes, starts_with}
use openlive.Common.Trim.{trim, is_empty}

pub data SafetyDisposition : Type 0 where
  pass holdback intervene : SafetyDisposition

pub record SafetyDecision : Type 0 where
  pub disposition : SafetyDisposition
  pub release : Text
  pub reason : Text

pub record SafetyPolicy : Type 0 where
  pub blocklist : List Text
  pub hold_until_clause : Bool
  pub max_hold_chars : ℕ

abbrev pub default_policy : SafetyPolicy
default_policy = record {
  blocklist =
      codes "build a bomb"
      ∷ codes "how to make a bomb"
      ∷ codes "credit card number is"
      ∷ codes "ssn is"
      ∷ [];
  hold_until_clause = true;
  max_hold_chars = 480;
}

pub record StreamingSafety : Type 0 where
  pub policy : SafetyPolicy
  pub held : Text
  pub intervened : Bool

abbrev pub new : SafetyPolicy → StreamingSafety
new policy = record { policy = policy; held = []; intervened = false }

-- `str::to_ascii_lowercase`
abbrev pub to_ascii_lowercase : Text → Text
to_ascii_lowercase [] = []
to_ascii_lowercase (c ∷ cs) = (if leb 65 c && leb c 90 then c + 32 else c) ∷ to_ascii_lowercase cs

-- `str::contains`
unfoldable pub contains_text : Text → Text → Bool
contains_text [] needle = starts_with [] needle
contains_text (c ∷ cs) needle = starts_with (c ∷ cs) needle || contains_text cs needle

-- The first phrase of the list that the text, in lower case, contains.
unfoldable pub first_match : List Text → Text → Option Text
first_match [] lower = none
first_match (needle ∷ needles) lower =
    if contains_text lower (to_ascii_lowercase needle)
    then some (codes "blocklist match: " ++ needle)
    else first_match needles lower

unfoldable pub matches_blocklist : SafetyPolicy → Text → Option Text
matches_blocklist policy text = first_match policy.blocklist (to_ascii_lowercase text)

abbrev pub is_boundary : ℕ → Bool
is_boundary c = c == 46 || (c == 33 || (c == 63 || c == 10))

-- Where the last clause ends: how many characters there are up to the last boundary.
unfoldable pub last_boundary : Text → Option ℕ
last_boundary [] = none
last_boundary (c ∷ cs) = elim (last_boundary cs) [
  | some n ↦ some (suc n)
  | none ↦ if is_boundary c then some 1 else none
]

-- `release`, unless there is nothing but white space in it.
abbrev pub non_blank : Text → Option Text
non_blank release = if is_empty (trim release) then none else some release

unfoldable pub take_complete_clauses : StreamingSafety → StreamingSafety × Option Text
take_complete_clauses s = elim (last_boundary s.held) [
  | none ↦ (s, none)
  | some end ↦
      if end == 0 || ltb (length s.held) end
      then (s, none)
      else (record s { held = drop end s.held }, non_blank (take end s.held))
]

abbrev pub decide : SafetyDisposition → Text → Text → SafetyDecision
decide disposition release reason = record {
  disposition = disposition;
  release = release;
  reason = reason;
}

abbrev pub already : SafetyDecision
already = decide intervene [] (codes "generation already intervened")

abbrev pub notice : Text
notice = codes "I can't help with that request."

-- All that is held leaves.
abbrev pub flush : StreamingSafety → Text → StreamingSafety × SafetyDecision
flush s reason = (record s { held = [] }, decide pass s.held reason)

abbrev pub cut_short : StreamingSafety → Text → StreamingSafety × SafetyDecision
cut_short s reason = (record s { intervened = true; held = [] }, decide intervene notice reason)

unfoldable pub after_clauses : StreamingSafety × Option Text → StreamingSafety × SafetyDecision
after_clauses (s, some release) = (s, decide pass release (codes "clause boundary"))
after_clauses (s, none) =
    if leb s.policy.max_hold_chars (length s.held)
    then flush s (codes "max hold exceeded")
    else (s, decide holdback [] (codes "holding for clause boundary"))

-- What happens to held text that matches no phrase.
unfoldable pub hold : StreamingSafety → StreamingSafety × SafetyDecision
hold s =
    if not s.policy.hold_until_clause
    then flush s (codes "pass-through")
    else after_clauses (take_complete_clauses s)

unfoldable pub scan : StreamingSafety → StreamingSafety × SafetyDecision
scan s = elim (matches_blocklist s.policy s.held) [
  | some reason ↦ cut_short s reason
  | none ↦ hold s
]

unfoldable pub observe_delta : StreamingSafety → Text → StreamingSafety × SafetyDecision
observe_delta s delta =
    if s.intervened then (s, already) else scan (record s { held = s.held ++ delta })

unfoldable pub finalize : StreamingSafety → StreamingSafety × SafetyDecision
finalize s = if s.intervened then (s, already) else elim (matches_blocklist s.policy s.held) [
  | some reason ↦ cut_short s reason
  | none ↦ flush s (codes "finalize")
]
