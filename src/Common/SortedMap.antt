-- ===== src/Common/SortedMap.antt =====
-- A `BTreeMap` over numbers: an association list with ascending keys.
use Prim.Native.Nat.{ℕ, suc, ◌≤◌, ◌<◌}
use mathlib.Core.Logic.{ite}
use mathlib.Core.Path.{◌≡◌, refl}
use mathlib.Core.Bool.{Bool}
use mathlib.Core.Option.{none, some}
use mathlib.Core.List.{List, [], ◌∷◌}
use native.Mathlib.Omega.{arith}
use native.Mathlib.Decide.{ℕ_discrete}
use openlive.Common.Tests.{ltb, ◌==◌, if◌then◌else◌}
use openlive.Common.Lists.{keep}
use openlive.Common.Map.{lookup, remove}

module _ {V : Type 0} where
  unfoldable pub insert_sorted : ℕ → V → List (ℕ × V) → List (ℕ × V)
  insert_sorted k v [] = (k, v) ∷ []
  insert_sorted k v ((j, w) ∷ m) =
      if ltb k j
      then (k, v) ∷ (j, w) ∷ m
      else if k == j
      then (k, v) ∷ m
      else (j, w) ∷ insert_sorted k v m

  -- The keys ascend from `low` on.
  abbrev pub IsAscending : ℕ → List (ℕ × V) → Type 0
  IsAscending low [] = Unit
  IsAscending low ((k, v) ∷ m) = (low ≤ k) × IsAscending (suc k) m

  pub IsAscending-mono : (a b : ℕ) (m : List (ℕ × V)) → b ≤ a → IsAscending a m → IsAscending b m
  IsAscending-mono a b [] h s = tt
  IsAscending-mono a b ((k, v) ∷ m) h s = (omega arith, s.1)

  pub lookup-insert_sorted :
      (k j : ℕ) (v : V) (m : List (ℕ × V))
      → lookup ℕ_discrete j (insert_sorted k v m)
        ≡ ite (ℕ_discrete k j) (some v) (lookup ℕ_discrete j m)
  unfolding lookup insert_sorted
  lookup-insert_sorted k j v [] = refl
  lookup-insert_sorted k j v ((i, w) ∷ m) = ground (arith, lookup-insert_sorted k j v m)

  pub insert_sorted-IsAscending :
      (low k : ℕ) (v : V) (m : List (ℕ × V))
      → low ≤ k
      → IsAscending low m
      → IsAscending low (insert_sorted k v m)
  unfolding insert_sorted
  insert_sorted-IsAscending low k v [] h s = (h, tt)
  insert_sorted-IsAscending low k v ((i, w) ∷ m) h s =
      ground (arith, insert_sorted-IsAscending (suc i) k v m)

  pub remove-IsAscending :
      (low k : ℕ) (m : List (ℕ × V)) → IsAscending low m → IsAscending low (remove ℕ_discrete k m)
  unfolding remove
  remove-IsAscending low k [] s = tt
  remove-IsAscending low k ((i, w) ∷ m) s =
      ground (
        arith,
        remove-IsAscending (suc i) k m,
        IsAscending-mono (suc i) low (remove ℕ_discrete k m),
      )

  pub lookup_below :
      (low k : ℕ) (m : List (ℕ × V)) → IsAscending low m → k < low → lookup ℕ_discrete k m ≡ none
  unfolding lookup
  lookup_below low k [] s h = refl
  lookup_below low k ((i, w) ∷ m) s h = ground (arith, lookup_below (suc i) k m)

  pub keep-IsAscending :
      (low : ℕ) (p : ℕ × V → Bool) (m : List (ℕ × V))
      → IsAscending low m
      → IsAscending low (keep p m)
  keep-IsAscending low p [] s = tt
  keep-IsAscending low p ((i, w) ∷ m) s =
      ground (arith, keep-IsAscending (suc i) p m, IsAscending-mono (suc i) low (keep p m))
