-- ===== src/Common/Text.antt =====
-- Text as its code points, and the decimal form of a number as `format!` prints it.
use Prim.Native.Nat.{ℕ, zero, suc, ◌+◌, ◌-◌, ◌*◌, ◌/◌, ◌%◌, ◌≤◌, ◌<◌}
use Prim.Native.Char.{code}
use Prim.Native.String.{String}
use mathlib.Core.Path.{◌≡◌, refl, sym, ap, ◌∙◌}
use mathlib.Core.Bool.{Bool, true, false, ◌&&◌}
use mathlib.Core.List.{List, [], ◌∷◌, ◌++◌}
use native.Mathlib.Omega.{arith}
use native.Mathlib.Decide.{ℕ_discrete}
use mathlib.Core.Logic.{inl, inr}
use openlive.Common.Tests.{◌==◌, ltb, ltb→lt, if◌then◌else◌, Bool-cases}
use openlive.Common.Lists.{All}

abbrev pub Text : Type 0
Text = List ℕ

abbrev pub codes : String → Text
codes String.[] = []
codes (String.◌∷◌ c s) = code c ∷ codes s

unfoldable pub text_discrete : Discrete Text
text_discrete = hlevel ℕ_discrete

-- `==` of two texts.
abbrev pub text_eq : Text → Text → Bool
text_eq s t = elim (text_discrete s t) [ yes e ↦ true | no n ↦ false ]

-- `str::starts_with`
abbrev pub starts_with : Text → Text → Bool
starts_with text [] = true
starts_with [] (n ∷ ns) = false
starts_with (c ∷ cs) (n ∷ ns) = c == n && starts_with cs ns

-- The digits of a number, most significant first, on fuel above the number.
digits : ℕ → ℕ → Text
digits zero n = []
digits (suc f) n =
    let rest = digits f (n / 10) ++ (48 + n % 10) ∷ [] in if ltb n 10 then (48 + n) ∷ [] else rest

-- `format!("{n}")`
unfoldable pub decimal : ℕ → Text
unfolding digits
decimal n = digits (suc n) n

abbrev pub IsDigit : ℕ → Type 0
IsDigit c = (48 ≤ c) × (c ≤ 57)

-- The number that a row of digits denotes, after those already read.
value : ℕ → Text → ℕ
value a [] = a
value a (c ∷ cs) = value (a * 10 + (c - 48)) cs

value-append : (a c : ℕ) (xs : Text) → value a (xs ++ c ∷ []) ≡ value a xs * 10 + (c - 48)
unfolding value
value-append a c [] = refl
value-append a c (x ∷ xs) = value-append (a * 10 + (x - 48)) c xs

value-digits : (f n : ℕ) → n < f → value 0 (digits f n) ≡ n
unfolding value digits
value-digits zero n h = elim h [ ]
value-digits (suc f) n h =
    ground (arith, value-append 0 (48 + n % 10) (digits f (n / 10)), value-digits f (n / 10))

All-append_IsDigit : (xs ys : Text) → All IsDigit xs → All IsDigit ys → All IsDigit (xs ++ ys)
All-append_IsDigit [] ys h k = k
All-append_IsDigit (x ∷ xs) ys h k = (h.0, All-append_IsDigit xs ys h.1 k)

digits-IsDigit : (f n : ℕ) → All IsDigit (digits f n)
unfolding digits
digits-IsDigit zero n = tt
digits-IsDigit (suc f) n = elim (Bool-cases (ltb n 10)) [
  | inl small ↦ rw small (omega (arith, ltb→lt n 10 small))
  | inr large ↦
      rw large (All-append_IsDigit (digits f (n / 10)) _ (digits-IsDigit f (n / 10)) (omega arith))
]

pub decimal-IsDigit : (n : ℕ) → All IsDigit (decimal n)
unfolding decimal
decimal-IsDigit n = digits-IsDigit (suc n) n

-- Two numbers with one decimal form are equal.
pub decimal-injective : (m n : ℕ) → decimal m ≡ decimal n → m ≡ n
unfolding decimal
decimal-injective m n h =
    sym (value-digits (suc m) m (omega arith))
    ∙ ap (value 0) h
    ∙ value-digits (suc n) n (omega arith)

-- A row of digits is split off at the first character that is not one.
pub digits_split :
    (c : ℕ) (xs ys us vs : Text)
    → 57 < c
    → All IsDigit xs
    → All IsDigit ys
    → xs ++ c ∷ us ≡ ys ++ c ∷ vs
    → (xs ≡ ys) × (us ≡ vs)
digits_split c [] [] us vs big h k e = (refl, cc)
digits_split c [] (y ∷ ys) us vs big h k e = absurd (ground arith)
digits_split c (x ∷ xs) [] us vs big h k e = absurd (ground arith)
digits_split c (x ∷ xs) (y ∷ ys) us vs big h k e =
    ground (arith, digits_split c xs ys us vs big h.1 k.1)
