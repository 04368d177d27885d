-- ===== src/Runtime/Safety/Phrases.antt =====
-- Phrases within a clause, and texts that are cut at clause boundaries.
use mathlib.Core.List.{append_assoc}
use openlive.Common.{
  ℕ, suc, ◌+◌, ◌≡◌, ◌⊎◌, inl, inr, refl, sym, ap, ◌∙◌, true, false, ◌&&◌, none, some, List, [], ◌∷◌,
  ◌++◌, ◌==◌, leb, if◌then◌else◌, take, arith, Bool-cases, Option-cases, All,
}
use openlive.Common.Text.{starts_with, Text}
use openlive.Runtime.Safety.{
  SafetyPolicy, to_ascii_lowercase, contains_text, first_match, matches_blocklist, is_boundary,
  last_boundary,
}

abbrev pub IsInner : Text → Type 0
IsInner = All (λ c. is_boundary c ≡ false)

-- A phrase within a clause: it is not empty, and no character of it ends a clause.
abbrev pub IsPlain : Text → Type 0
IsPlain [] = ⊥
IsPlain (c ∷ cs) = IsInner (c ∷ cs)

apart : (b n : ℕ) → is_boundary b ≡ true → is_boundary n ≡ false → (b == n) ≡ false
apart b n h i = ground arith

-- Whether a phrase within a clause stands before a boundary does not depend on what comes after it.
starts_with-inner :
    (xs : Text) (b : ℕ) (ys ns : Text)
    → is_boundary b ≡ true
    → IsInner ns
    → starts_with (xs ++ b ∷ ys) ns ≡ starts_with (xs ++ b ∷ []) ns
starts_with-inner xs b ys [] h i = refl
starts_with-inner [] b ys (n ∷ ns) h i = ground (arith, apart b n h i.0)
starts_with-inner (x ∷ xs) b ys (n ∷ ns) h i =
    ap (λ r. (x == n) && r) (starts_with-inner xs b ys ns h i.1)

-- A phrase within a clause is on one side of a boundary.
contains_text-sides :
    (xs : Text) (b : ℕ) (ys : Text) (n : ℕ) (ns : Text)
    → is_boundary b ≡ true
    → IsInner (n ∷ ns)
    → contains_text (xs ++ b ∷ []) (n ∷ ns) ≡ false
    → contains_text ys (n ∷ ns) ≡ false
    → contains_text (xs ++ b ∷ ys) (n ∷ ns) ≡ false
unfolding contains_text
contains_text-sides [] b ys n ns h i left right = ground (arith, apart b n h i.0)
contains_text-sides (x ∷ xs) b ys n ns h i left right =
    ground
      (arith, starts_with-inner (x ∷ xs) b ys (n ∷ ns) h i, contains_text-sides xs b ys n ns h i)

lower-append :
    (xs ys : Text) → to_ascii_lowercase (xs ++ ys) ≡ to_ascii_lowercase xs ++ to_ascii_lowercase ys
lower-append [] ys = refl
lower-append (x ∷ xs) ys = ground (arith, lower-append xs ys)

lower-boundary : (b : ℕ) → is_boundary b ≡ true → to_ascii_lowercase (b ∷ []) ≡ b ∷ []
lower-boundary b h = ground arith

lower-IsInner : (ns : Text) → IsInner ns → IsInner (to_ascii_lowercase ns)
lower-IsInner [] i = tt
lower-IsInner (n ∷ ns) i = (ground (arith, i.0), lower-IsInner ns i.1)

-- The text is empty or ends in a clause boundary.
abbrev pub Ends : Text → Type 0
Ends x = (x ≡ []) ⊎ ((zs : Text) × (b : ℕ) × (is_boundary b ≡ true) × (x ≡ zs ++ b ∷ []))

first_match-sides :
    (needles : List Text) (xs : Text) (b : ℕ) (ys : Text)
    → is_boundary b ≡ true
    → All IsPlain needles
    → first_match needles (xs ++ b ∷ []) ≡ none
    → first_match needles ys ≡ none
    → first_match needles (xs ++ b ∷ ys) ≡ none
unfolding first_match
first_match-sides [] xs b ys h p left right = refl
first_match-sides ([] ∷ needles) xs b ys h p left right = absurd p.0
first_match-sides ((n ∷ ns) ∷ needles) xs b ys h p left right =
    let sides =
      contains_text-sides xs b ys (if leb 65 n && leb n 90 then n + 32 else n)
        (to_ascii_lowercase ns) h (lower-IsInner (n ∷ ns) p.0) in
    ground (arith, left, right, sides, first_match-sides needles xs b ys h p.1)

-- Text that contains no phrase, up to a boundary, and more such text contain none together.
pub clean-join :
    (p : SafetyPolicy) (x y : Text)
    → All IsPlain p.blocklist
    → Ends x
    → matches_blocklist p x ≡ none
    → matches_blocklist p y ≡ none
    → matches_blocklist p (x ++ y) ≡ none
unfolding matches_blocklist
clean-join p x y plain (inl e) left right = rw e right
clean-join p x y plain (inr (zs, b, h, e)) left right =
    let low = to_ascii_lowercase in
    let before : low x ≡ low zs ++ b ∷ [] =
      ap low e ∙ lower-append zs (b ∷ []) ∙ ap (λ t. low zs ++ t) (lower-boundary b h) in
    let whole : low (x ++ y) ≡ low zs ++ b ∷ low y =
      lower-append x y ∙ ap (λ t. t ++ low y) before ∙ append_assoc (low zs) (b ∷ []) (low y) in
    ap (first_match p.blocklist) whole
    ∙ first_match-sides p.blocklist (low zs) b (low y) h plain
        (ap (first_match p.blocklist) (sym before) ∙ left) right

pub last_boundary-Ends :
    (t : Text) (n : ℕ)
    → last_boundary t ≡ some n
    → (zs : Text) × (b : ℕ) × (is_boundary b ≡ true) × (take n t ≡ zs ++ b ∷ [])
unfolding last_boundary
last_boundary-Ends [] n h = absurd (ground arith)
last_boundary-Ends (c ∷ cs) n h = elim (Option-cases (last_boundary cs)) [
  | inr (m, e) ↦
      let (zs, b, q, r) = last_boundary-Ends cs m e in
      let same : suc m ≡ n = ground arith in (c ∷ zs, b, q, rw (sym same) (ap (◌∷◌ c) r))
  | inl e ↦ elim (Bool-cases (is_boundary c)) [
    | inl q ↦ let same : 1 ≡ n = ground arith in ([], c, q, rw (sym same) refl)
    | inr q ↦ absurd (ground arith)
  ]
]
