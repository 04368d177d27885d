-- ===== src/Common/Map.antt =====
-- A hash map as an association list, over keys whose equality is decided. Where the source walks
-- a `HashMap`, its order is unspecified: the model walks the list, and no theorem rests on that.
use mathlib.Core.Logic.{ite, if_pos, if_neg}
use mathlib.Core.Path.{◌≡◌, refl, sym}
use mathlib.Core.Bool.{Bool, true, false}
use mathlib.Core.Option.{Option, none, some}
use mathlib.Core.List.{List, [], ◌∷◌}
use native.Mathlib.Omega.{arith}

module _ {ℓ} {K V : Type ℓ} (d : Discrete K) where
  unfoldable pub lookup : K → List (K × V) → Option V
  lookup k [] = none
  lookup k ((j, v) ∷ m) = ite (d j k) (some v) (lookup k m)

  -- `HashMap::insert`: the value at the key is replaced, or a new entry is made.
  unfoldable pub insert : K → V → List (K × V) → List (K × V)
  insert k v [] = (k, v) ∷ []
  insert k v ((j, w) ∷ m) = ite (d j k) ((k, v) ∷ m) ((j, w) ∷ insert k v m)

  unfoldable pub remove : K → List (K × V) → List (K × V)
  remove k [] = []
  remove k ((j, w) ∷ m) = ite (d j k) (remove k m) ((j, w) ∷ remove k m)

  abbrev pub contains_key : K → List (K × V) → Bool
  contains_key k m = elim (lookup k m) [ none ↦ false | some v ↦ true ]

  pub lookup-insert :
      (k j : K) (v : V) (m : List (K × V))
      → lookup j (insert k v m) ≡ ite (d k j) (some v) (lookup j m)
  unfolding lookup insert
  lookup-insert k j v [] = refl
  lookup-insert k j v ((i, w) ∷ m) = ground (arith, lookup-insert k j v m)

  pub lookup-insert_self : (k : K) (v : V) (m : List (K × V)) → lookup k (insert k v m) ≡ some v
  unfolding lookup insert
  lookup-insert_self k v [] = ground arith
  lookup-insert_self k v ((i, w) ∷ m) = ground (arith, lookup-insert_self k v m)

  pub lookup-remove :
      (k j : K) (m : List (K × V)) → lookup j (remove k m) ≡ ite (d k j) none (lookup j m)
  unfolding lookup remove
  lookup-remove k j [] = ground arith
  lookup-remove k j ((i, w) ∷ m) = ground (arith, lookup-remove k j m)

  pub lookup-remove_self : (k : K) (m : List (K × V)) → lookup k (remove k m) ≡ none
  lookup-remove_self k m = ground (arith, lookup-remove k k m)

  -- No key stands twice.
  abbrev pub IsUnique : List (K × V) → Type ℓ
  IsUnique [] = Unit
  IsUnique ((k, v) ∷ m) = (lookup k m ≡ none) × IsUnique m

  pub insert-IsUnique : (k : K) (v : V) (m : List (K × V)) → IsUnique m → IsUnique (insert k v m)
  unfolding insert lookup
  insert-IsUnique k v [] u = (refl, tt)
  insert-IsUnique k v ((j, w) ∷ m) u = elim (d j k) [
    | yes same ↦ rw (if_pos _ same) (rw same at u.0, u.1)
    | no other ↦
        rw (if_neg _ other)
          (rw (lookup-insert k j v m, if_neg _ (λ e. other (sym e))) u.0, insert-IsUnique k v m u.1)
  ]

  pub remove-IsUnique : (k : K) (m : List (K × V)) → IsUnique m → IsUnique (remove k m)
  unfolding remove
  remove-IsUnique k [] u = tt
  remove-IsUnique k ((j, w) ∷ m) u = elim (d j k) [
    | yes same ↦ rw (if_pos _ same) (remove-IsUnique k m u.1)
    | no other ↦
        rw (if_neg _ other)
          (rw (lookup-remove k j m, if_neg _ (λ e. other (sym e))) u.0, remove-IsUnique k m u.1)
  ]
