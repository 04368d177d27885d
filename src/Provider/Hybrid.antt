-- ===== src/Provider/Hybrid.antt =====
-- crates/openlive-provider/src/hybrid.rs: the loop of `open_session` that routes the inputs of a
-- session to its fast child and, if there is one, its deep child. A channel is the list of what was
-- sent into it, newest first.
use openlive.Common.{
  ℕ, ◌∙◌, ◌+◌, ◌==◌, arith, ◌≡◌, inl, inr, Bool, true, false, ◌&&◌, Option, none, some, List, [],
  ◌∷◌, if◌then◌else◌, Bool-cases,
}
use openlive.Common.Float.{Float}
use openlive.Provider.Knowledge.{needs_deep_cognition}
use openlive.Provider.{ProviderInput, audio_frame, commit_response, cancel_generation, close}

pub record Children (F : Float) : Type 0 where
  pub fast : List (ProviderInput F)
  pub deep : Option (List (ProviderInput F))

module _ (F : Float) where
  unfoldable pub to_fast : Children F → ProviderInput F → Children F
  to_fast c input = record c { fast = input ∷ c.fast }

  -- `if let Some(ref din) = deep_in { .. }`
  unfoldable pub to_deep : Children F → ProviderInput F → Children F
  to_deep c input = elim c.deep [ none ↦ c | some sent ↦ record c { deep = some (input ∷ sent) } ]

  abbrev has_deep : Children F → Bool
  has_deep c = elim c.deep [ none ↦ false | some sent ↦ true ]

  -- One input; the loop ends after `close`.
  unfoldable pub route : Children F → ProviderInput F → Children F
  unfolding to_fast to_deep
  route c (audio_frame t frame) = to_deep (to_fast c (audio_frame t frame)) (audio_frame t frame)
  route c (commit_response g version t prompt_hint) =
      let commit = commit_response g version t prompt_hint in
      if has_deep c && needs_deep_cognition prompt_hint
      then to_deep (to_fast c (cancel_generation g)) commit
      else to_fast (to_deep c (cancel_generation g)) commit
  route c (cancel_generation g) = to_deep (to_fast c (cancel_generation g)) (cancel_generation g)
  route c close = to_deep (to_fast c close) close

  unfoldable pub route_all : Children F → List (ProviderInput F) → Children F
  unfolding route
  route_all c [] = c
  route_all c (close ∷ inputs) = route c close
  route_all c (input ∷ inputs) = route_all (route c input) inputs

  -- How many commits, and how many commits and cancels, of generation `g` are in the list.
  abbrev pub asks : ℕ → List (ProviderInput F) → ℕ
  asks g [] = 0
  asks g (commit_response k version t prompt_hint ∷ inputs) =
      (if g == k then 1 else 0) + asks g inputs
  asks g (audio_frame t frame ∷ inputs) = asks g inputs
  asks g (cancel_generation k ∷ inputs) = asks g inputs
  asks g (close ∷ inputs) = asks g inputs

  abbrev pub told : ℕ → List (ProviderInput F) → ℕ
  told g [] = 0
  told g (commit_response k version t prompt_hint ∷ inputs) =
      (if g == k then 1 else 0) + told g inputs
  told g (audio_frame t frame ∷ inputs) = told g inputs
  told g (cancel_generation k ∷ inputs) = (if g == k then 1 else 0) + told g inputs
  told g (close ∷ inputs) = told g inputs

  -- The inputs up to the first `close`.
  abbrev pub heard : List (ProviderInput F) → List (ProviderInput F)
  heard [] = []
  heard (close ∷ inputs) = close ∷ []
  heard (input ∷ inputs) = input ∷ heard inputs

  abbrev pub deep_sent : Children F → List (ProviderInput F)
  deep_sent c = elim c.deep [ none ↦ [] | some sent ↦ sent ]

  -- What one input, or a list of them, adds to the counts of the children.
  abbrev pub Shares : ℕ → Children F → List (ProviderInput F) → Children F → Type 0
  Shares g c inputs after =
      (asks g after.fast + asks g (deep_sent after)
        ≡ asks g c.fast + asks g (deep_sent c) + asks g inputs)
      × (told g after.fast ≡ told g c.fast + told g inputs)
      × (told g (deep_sent after)
          ≡ told g (deep_sent c) + (if has_deep c then told g inputs else 0))
      × (has_deep after ≡ has_deep c)

  alone-Shares :
      (g : ℕ) (fast : List (ProviderInput F)) (input : ProviderInput F)
      → let c : Children F = record { fast = fast; deep = none } in
        Shares g c (input ∷ []) (route c input)
  unfolding route to_fast to_deep
  alone-Shares g fast (audio_frame t frame) = ground arith
  alone-Shares g fast (commit_response k v t hint) = ground arith
  alone-Shares g fast (cancel_generation k) = ground arith
  alone-Shares g fast close = ground arith

  both-Shares :
      (g : ℕ) (fast sent : List (ProviderInput F)) (input : ProviderInput F)
      → let c : Children F = record { fast = fast; deep = some sent } in
        Shares g c (input ∷ []) (route c input)
  unfolding route to_fast to_deep
  both-Shares g fast sent (audio_frame t frame) = ground arith
  both-Shares g fast sent (commit_response k v t hint) =
      elim (Bool-cases (needs_deep_cognition hint)) [
        | inl complex ↦ ground arith
        | inr simple ↦ ground arith
      ]
  both-Shares g fast sent (cancel_generation k) = ground arith
  both-Shares g fast sent close = ground arith

  route-Shares :
      (g : ℕ) (fast : List (ProviderInput F)) (deep : Option (List (ProviderInput F)))
      (input : ProviderInput F)
      → let c : Children F = record { fast = fast; deep = deep } in
        Shares g c (input ∷ []) (route c input)
  route-Shares g fast none input = alone-Shares g fast input
  route-Shares g fast (some sent) input = both-Shares g fast sent input

  asks-cons :
      (g : ℕ) (i : ProviderInput F) (rest : List (ProviderInput F))
      → (asks g (i ∷ rest) ≡ asks g (i ∷ []) + asks g rest)
        × (told g (i ∷ rest) ≡ told g (i ∷ []) + told g rest)
  asks-cons g (audio_frame t frame) rest = (omega arith, omega arith)
  asks-cons g (commit_response k v t hint) rest = (omega arith, omega arith)
  asks-cons g (cancel_generation k) rest = (omega arith, omega arith)
  asks-cons g close rest = (omega arith, omega arith)

  only_if :
      (b : Bool) (m n : ℕ) → (if b then m + n else 0) ≡ (if b then m else 0) + (if b then n else 0)
  only_if true m n = omega arith
  only_if false m n = omega arith

  Shares-cons :
      (g : ℕ) (c d e : Children F) (i : ProviderInput F) (rest : List (ProviderInput F))
      → Shares g c (i ∷ []) d
      → Shares g d rest e
      → Shares g c (i ∷ rest) e
  Shares-cons g c d e i rest (a, b, x, y) (a', b', x', y') =
      let (p, q) = asks-cons g i rest in
      let both = only_if (has_deep c) (told g (i ∷ [])) (told g rest) in
      let later = rw y at x' in
      (
        omega (arith, a, a', p),
        omega (arith, b, b', q),
        rw q (omega (arith, x, later, both)),
        y' ∙ y,
      )

  -- Whatever the inputs of a session: those up to the first `close` are routed, each commit of a
  -- generation among them reaches exactly one child, and every child hears of that generation exactly
  -- as often as the session spoke of it, by the commit itself or by a cancel. A missing deep child
  -- stays missing, and the fast child then gets every commit.
  pub route_all-Shares :
      (g : ℕ) (c : Children F) (inputs : List (ProviderInput F))
      → Shares g c (heard inputs) (route_all c inputs)
  unfolding route_all
  route_all-Shares g c [] = ground arith
  route_all-Shares g c (close ∷ inputs) = route-Shares g c.fast c.deep close
  route_all-Shares g c (audio_frame t frame ∷ inputs) =
      let i : ProviderInput F = audio_frame t frame in
      Shares-cons g c (route c i) (route_all (route c i) inputs) i (heard inputs)
        (route-Shares g c.fast c.deep i) (route_all-Shares g (route c i) inputs)
  route_all-Shares g c (commit_response k v t hint ∷ inputs) =
      let i : ProviderInput F = commit_response k v t hint in
      Shares-cons g c (route c i) (route_all (route c i) inputs) i (heard inputs)
        (route-Shares g c.fast c.deep i) (route_all-Shares g (route c i) inputs)
  route_all-Shares g c (cancel_generation k ∷ inputs) =
      let i : ProviderInput F = cancel_generation k in
      Shares-cons g c (route c i) (route_all (route c i) inputs) i (heard inputs)
        (route-Shares g c.fast c.deep i) (route_all-Shares g (route c i) inputs)
