-- ===== src/Runtime/Safety/Ink.antt =====
-- The text without its white space, and what `str::trim` does to it.
use mathlib.Core.List.{reverse, reverse-cons, reverse-reverse, append-nil}
use openlive.Common.{
  ◌≡◌, inl, inr, refl, sym, ap, ◌∙◌, true, not, [], ◌∷◌, ◌++◌, keep, arith, Bool-cases,
}
use openlive.Common.Text.{Text}
use openlive.Common.Trim.{trim, trim_start, is_empty, is_whitespace}

-- The text without its white space.
abbrev pub ink : Text → Text
ink = keep (λ c. not (is_whitespace c))

pub ink-append : (s t : Text) → ink (s ++ t) ≡ ink s ++ ink t
ink-append [] t = refl
ink-append (c ∷ s) t = ground (arith, ink-append s t)

ink-reverse : (s : Text) → ink (reverse s) ≡ reverse (ink s)
ink-reverse [] = refl
ink-reverse (c ∷ s) =
    ap ink (reverse-cons c s)
    ∙ ink-append (reverse s) (c ∷ [])
    ∙ elim (Bool-cases (is_whitespace c)) [
      | inl blank ↦ rw blank (append-nil (ink (reverse s)) ∙ ink-reverse s)
      | inr ink_there ↦
          rw ink_there (ap (λ x. x ++ c ∷ []) (ink-reverse s) ∙ sym (reverse-cons c (ink s)))
    ]

ink-trim_start : (s : Text) → ink (trim_start s) ≡ ink s
unfolding trim_start
ink-trim_start [] = refl
ink-trim_start (c ∷ s) = ground (arith, ink-trim_start s)

ink-trim : (s : Text) → ink (trim s) ≡ ink s
unfolding trim
ink-trim s =
    ink-reverse (trim_start (reverse (trim_start s)))
    ∙ ap reverse (ink-trim_start (reverse (trim_start s)))
    ∙ ap reverse (ink-reverse (trim_start s))
    ∙ reverse-reverse (ink (trim_start s))
    ∙ ink-trim_start s

is_empty-nil : (t : Text) → is_empty t ≡ true → t ≡ []
is_empty-nil [] h = refl
is_empty-nil (c ∷ t) h = cc

pub ink_blank : (s : Text) → is_empty (trim s) ≡ true → ink s ≡ []
ink_blank s h = sym (ink-trim s) ∙ ap ink (is_empty-nil (trim s) h)
