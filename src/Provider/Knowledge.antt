-- ===== src/Provider/Knowledge.antt =====
-- crates/openlive-provider/src/knowledge.rs: `needs_deep_cognition`, which tells the prompts for a
-- slower model from the others.
use openlive.Common.{
  ℕ, Bool, true, false, ◌&&◌, ◌||◌, ◌+◌, List, [], ◌∷◌, any, leb, if◌then◌else◌, length, keep,
}
use openlive.Common.Text.{Text, codes}
use openlive.Common.Trim.{is_whitespace}
use openlive.Runtime.Safety.{to_ascii_lowercase, contains_text}

-- `split_whitespace().count()`: how many words begin, where `inside` says whether the character
-- before belongs to one.
unfoldable pub word_count : (inside : Bool) → Text → ℕ
unfolding is_whitespace
word_count inside [] = 0
word_count inside (c ∷ cs) =
    let in_word = word_count true cs in
    let outside = word_count false cs in
    if is_whitespace c then outside else if inside then in_word else in_word + 1

abbrev pub markers : List Text
markers =
    codes "step by step"
    ∷ codes "think carefully"
    ∷ codes "reason about"
    ∷ codes "analyze"
    ∷ codes "compare and contrast"
    ∷ codes "write a"
    ∷ codes "implement"
    ∷ codes "debug"
    ∷ codes "prove that"
    ∷ codes "algorithm"
    ∷ codes "architecture"
    ∷ codes "trade-off"
    ∷ codes "tradeoff"
    ∷ codes "multi-step"
    ∷ codes "plan for"
    ∷ codes "design a"
    ∷ []

abbrev is_ascii_digit : ℕ → Bool
is_ascii_digit c = leb 48 c && leb c 57

unfoldable pub needs_deep_cognition : Text → Bool
unfolding word_count contains_text
needs_deep_cognition transcript =
    let t = to_ascii_lowercase transcript in
    let words = word_count false t in
    leb 40 words
    || (any (λ m. contains_text t m) markers
        || ((contains_text t (codes "?") && leb 18 words)
            || leb 6 (length (keep is_ascii_digit t))))
