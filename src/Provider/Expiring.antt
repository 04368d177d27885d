-- ===== src/Provider/Expiring.antt =====
-- The `purge` that crates/openlive-provider/src/pending_actions.rs and session_context.rs have in
-- common: entries older than `ttl` leave, then the oldest ones until at most `cap` are left. Instants
-- are nanoseconds of the monotonic clock. The loop runs on fuel, one step for each entry.
use openlive.Common.{
  ℕ, zero, suc, ◌+◌, ◌-◌, ◌≤◌, ◌<◌, ◌≡◌, inl, inr, refl, sym, ap, Bool, none, some, List, [], ◌∷◌,
  arith, ltb, if◌then◌else◌, length, keep, length-keep-le, Bool-cases, Option-cases,
}
use mathlib.Core.Path.{subst}
use openlive.Common.Map.{lookup, insert, remove, lookup-remove, IsUnique}

module _ {K V : Type 0} (d : Discrete K) (stamp : V → ℕ) where
  -- The key of the entry with the least instant: `min_by_key` gives the first of them.
  unfoldable pub oldest : K → V → List (K × V) → K
  oldest k v [] = k
  oldest k v ((j, w) ∷ m) = if ltb (stamp w) (stamp v) then oldest j w m else oldest k v m

  unfoldable pub drop_oldest : ℕ → ℕ → List (K × V) → List (K × V)
  drop_oldest cap zero m = m
  drop_oldest cap (suc fuel) [] = []
  drop_oldest cap (suc fuel) ((k, v) ∷ m) =
      let rest = drop_oldest cap fuel (remove d (oldest k v m) ((k, v) ∷ m)) in
      if ltb cap (length ((k, v) ∷ m)) then rest else (k, v) ∷ m

  abbrev is_fresh : ℕ → ℕ → K × V → Bool
  is_fresh ttl now (k, v) = ltb (now - stamp v) ttl

  unfoldable pub purge : (ttl cap now : ℕ) → List (K × V) → List (K × V)
  purge ttl cap now m =
      let fresh = keep (is_fresh ttl now) m in drop_oldest cap (length fresh) fresh

  pub remove-shorter : (k : K) (m : List (K × V)) → length (remove d k m) ≤ length m
  unfolding remove
  remove-shorter k [] = omega arith
  remove-shorter k ((j, w) ∷ m) = ground (arith, remove-shorter k m)

  remove-found :
      (k : K) (v : V) (m : List (K × V)) → lookup d k m ≡ some v → length (remove d k m) < length m
  unfolding remove lookup
  remove-found k v [] h = absurd (ground arith)
  remove-found k v ((j, w) ∷ m) h = ground (arith, remove-shorter k m, remove-found k v m)

  behind :
      (k : K) (v : V) (x : K) (m : List (K × V)) (w : V)
      → lookup d x m ≡ some w
      → (y : V) × (lookup d x ((k, v) ∷ m) ≡ some y)
  unfolding lookup
  behind k v x m w found = elim (d k x) [
    | yes same ↦ (v, ground arith)
    | no other ↦ (w, ground arith)
  ]

  between :
      (k : K) (v : V) (j : K) (u : V) (x : K) (m : List (K × V)) (w : V)
      → lookup d x ((k, v) ∷ m) ≡ some w
      → (y : V) × (lookup d x ((k, v) ∷ (j, u) ∷ m) ≡ some y)
  unfolding lookup
  between k v j u x m w found = elim (d k x) [
    | yes same ↦ (v, ground arith)
    | no other ↦ elim (d j x) [ yes same ↦ (u, ground arith) | no apart ↦ (w, ground arith) ]
  ]

  oldest-found :
      (k : K) (v : V) (m : List (K × V)) → (w : V) × (lookup d (oldest k v m) ((k, v) ∷ m) ≡ some w)
  unfolding lookup oldest
  oldest-found k v [] = (v, ground arith)
  oldest-found k v ((j, w) ∷ m) =
      let Found = λ (x : K). (y : V) × (lookup d x ((k, v) ∷ (j, w) ∷ m) ≡ some y) in
      let pick = λ (b : Bool). if b then oldest j w m else oldest k v m in
      elim (Bool-cases (ltb (stamp w) (stamp v))) [
        | inl older ↦
            let (x, found) = oldest-found j w m in
            subst Found (sym (ap pick older)) (behind k v (oldest j w m) ((j, w) ∷ m) x found)
        | inr younger ↦
            let (x, found) = oldest-found k v m in
            subst Found (sym (ap pick younger)) (between k v j w (oldest k v m) m x found)
      ]

  -- Removing the oldest entry takes at least one away.
  remove-oldest :
      (k : K) (v : V) (m : List (K × V)) → length (remove d (oldest k v m) ((k, v) ∷ m)) ≤ length m
  remove-oldest k v m =
      let (w, found) = oldest-found k v m in
      omega (arith, remove-found (oldest k v m) w ((k, v) ∷ m) found)

  drop_oldest-bound :
      (cap fuel : ℕ) (m : List (K × V))
      → length m ≤ cap + fuel
      → length (drop_oldest cap fuel m) ≤ cap
  unfolding drop_oldest
  drop_oldest-bound cap zero m le = omega arith
  drop_oldest-bound cap (suc fuel) [] le = omega arith
  drop_oldest-bound cap (suc fuel) ((k, v) ∷ m) le =
      let rest = remove d (oldest k v m) ((k, v) ∷ m) in
      ground (arith, remove-oldest k v m, drop_oldest-bound cap fuel rest)

  drop_oldest-lookup :
      (cap fuel : ℕ) (m : List (K × V)) (k : K) (v : V)
      → lookup d k (drop_oldest cap fuel m) ≡ some v
      → lookup d k m ≡ some v
  unfolding drop_oldest
  drop_oldest-lookup cap zero m k v h = h
  drop_oldest-lookup cap (suc fuel) [] k v h = h
  drop_oldest-lookup cap (suc fuel) ((j, w) ∷ m) k v h =
      let old = oldest j w m in
      let rest = remove d old ((j, w) ∷ m) in
      elim (Bool-cases (ltb cap (length ((j, w) ∷ m)))) [
        | inl over ↦
            let kept = drop_oldest-lookup cap fuel rest k v (rw (over, drop_oldest) at h) in
            ground (arith, kept, lookup-remove d old k ((j, w) ∷ m))
        | inr under ↦ rw (under, drop_oldest) at h
      ]

  keep-lookup :
      (ttl now : ℕ) (m : List (K × V)) (k : K) (v : V)
      → IsUnique d m
      → lookup d k (keep (is_fresh ttl now) m) ≡ some v
      → (lookup d k m ≡ some v) × (now - stamp v < ttl)
  unfolding lookup
  keep-lookup ttl now [] k v u h = absurd (ground arith)
  keep-lookup ttl now ((j, w) ∷ m) k v u h = elim (Bool-cases (is_fresh ttl now (j, w))) [
    | inl fresh ↦ ground (arith, keep-lookup ttl now m k v u.1)
    | inr stale ↦ ground (arith, u.0, keep-lookup ttl now m k v u.1)
  ]

  keep-missing :
      (ttl now : ℕ) (m : List (K × V)) (k : K)
      → lookup d k m ≡ none
      → lookup d k (keep (is_fresh ttl now) m) ≡ none
  unfolding lookup
  keep-missing ttl now [] k gone = refl
  keep-missing ttl now ((j, w) ∷ m) k gone = elim (Bool-cases (is_fresh ttl now (j, w))) [
    | inl fresh ↦ ground (arith, keep-missing ttl now m k)
    | inr stale ↦ ground (arith, keep-missing ttl now m k)
  ]

  -- A purge brings no key back.
  pub purge-missing :
      (ttl cap now : ℕ) (m : List (K × V)) (k : K)
      → lookup d k m ≡ none
      → lookup d k (purge ttl cap now m) ≡ none
  unfolding purge
  purge-missing ttl cap now m k gone =
      let fresh = keep (is_fresh ttl now) m in
      elim (Option-cases (lookup d k (purge ttl cap now m))) [
        | inl missing ↦ missing
        | inr (v, found) ↦
            let kept = drop_oldest-lookup cap (length fresh) fresh k v found in
            absurd (ground (arith, keep-missing ttl now m k gone))
      ]

  -- A purge ends with at most `cap` entries, however many there were: its loop takes one away each
  -- time, so that as many rounds as there are entries are enough. What it keeps was there, and is
  -- younger than `ttl`.
  pub purge-bounded :
      (ttl cap now : ℕ) (m : List (K × V))
      → IsUnique d m
      → (length (purge ttl cap now m) ≤ cap)
        × ((k : K) (v : V)
            → lookup d k (purge ttl cap now m) ≡ some v
            → (lookup d k m ≡ some v) × (now - stamp v < ttl))
  unfolding purge
  purge-bounded ttl cap now m u =
      let fresh = keep (is_fresh ttl now) m in
      (
        drop_oldest-bound cap (length fresh) fresh (omega arith),
        λ k v h. keep-lookup ttl now m k v u (drop_oldest-lookup cap (length fresh) fresh k v h),
      )

  drop_oldest-all : (cap fuel : ℕ) (m : List (K × V)) → length m ≤ cap → drop_oldest cap fuel m ≡ m
  unfolding drop_oldest
  drop_oldest-all cap zero m le = refl
  drop_oldest-all cap (suc fuel) [] le = refl
  drop_oldest-all cap (suc fuel) ((k, v) ∷ m) le = ground arith

  keep-fresh :
      (ttl now : ℕ) (m : List (K × V)) (k : K) (v : V)
      → lookup d k m ≡ some v
      → now - stamp v < ttl
      → lookup d k (keep (is_fresh ttl now) m) ≡ some v
  unfolding lookup
  keep-fresh ttl now [] k v h fresh = h
  keep-fresh ttl now ((j, w) ∷ m) k v h fresh = elim (Bool-cases (is_fresh ttl now (j, w))) [
    | inl young ↦ ground (arith, keep-fresh ttl now m k v)
    | inr stale ↦ ground (arith, keep-fresh ttl now m k v)
  ]

  -- Where there is room, a purge keeps every entry younger than `ttl`.
  pub purge-keeps :
      (ttl cap now : ℕ) (m : List (K × V)) (k : K) (v : V)
      → length m ≤ cap
      → lookup d k m ≡ some v
      → now - stamp v < ttl
      → lookup d k (purge ttl cap now m) ≡ some v
  unfolding purge
  purge-keeps ttl cap now m k v le h fresh =
      let young = keep (is_fresh ttl now) m in
      let all =
        drop_oldest-all cap (length young) young
          (omega (arith, length-keep-le (is_fresh ttl now) m, le)) in
      rw all (keep-fresh ttl now m k v h fresh)

  pub length-insert-le :
      (k : K) (v : V) (m : List (K × V)) → length (insert d k v m) ≤ suc (length m)
  unfolding insert
  length-insert-le k v [] = omega arith
  length-insert-le k v ((j, w) ∷ m) = ground (arith, length-insert-le k v m)
