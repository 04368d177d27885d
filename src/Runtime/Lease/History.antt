-- ===== src/Runtime/Lease/History.antt =====
-- Which generation may answer, told from the history of calls alone.
use openlive.Common.{ℕ, ◌≡◌, ◌≢◌, ◌↔◌, refl, true, none, List, [], ◌∷◌, arith}
use openlive.Common.Text.{Text}
use openlive.Runtime.Lease.{AnswerLeaseManager, new, begin_user_turn, accepts, revoke, issue}

pub data Call : Type 0 where
  begins : Call
  issues revokes : ℕ → Call

-- A history lists its calls newest first. The lease that counts is the one issued last; a user
-- turn begun since, or a revocation of its generation, ends it.
abbrev pub MayAnswer : ℕ → List Call → Type 0
MayAnswer g [] = ⊥
MayAnswer g (begins ∷ h) = ⊥
MayAnswer g (issues k ∷ h) = k ≡ g
MayAnswer g (revokes k ∷ h) = (k ≢ g) × MayAnswer g h

module _ (new_v5 : ℕ → Text → ℕ) where
  unfoldable pub step : AnswerLeaseManager → Call → AnswerLeaseManager
  unfolding begin_user_turn issue revoke
  step m begins = begin_user_turn m
  step m (issues g) = (issue new_v5 m g).0
  step m (revokes g) = revoke m g

  unfoldable pub after : ℕ → List Call → AnswerLeaseManager
  unfolding step new
  after session [] = new session
  after session (c ∷ h) = step (after session h) c

  -- While a user turn is open no lease is active.
  closed_by_turn :
      (session : ℕ) (h : List Call)
      → (after session h).user_turn_open ≡ true
      → (after session h).active ≡ none
  unfolding after step begin_user_turn issue revoke new
  closed_by_turn session [] e = refl
  closed_by_turn session (begins ∷ h) e = ground (arith, closed_by_turn session h)
  closed_by_turn session (issues g ∷ h) e = ground arith
  closed_by_turn session (revokes g ∷ h) e = ground (arith, closed_by_turn session h)

  accepts-MayAnswer :
      (session g : ℕ) (h : List Call) → accepts (after session h) g ≡ true → MayAnswer g h
  unfolding after step begin_user_turn issue revoke new accepts
  accepts-MayAnswer session g [] e = ground arith
  accepts-MayAnswer session g (begins ∷ h) e = ground (arith, closed_by_turn session h)
  accepts-MayAnswer session g (issues k ∷ h) e = ground arith
  accepts-MayAnswer session g (revokes k ∷ h) e = ground (arith, accepts-MayAnswer session g h)

  MayAnswer-accepts :
      (session g : ℕ) (h : List Call) → MayAnswer g h → accepts (after session h) g ≡ true
  unfolding after step begin_user_turn issue revoke new accepts
  MayAnswer-accepts session g [] e = absurd e
  MayAnswer-accepts session g (begins ∷ h) e = absurd e
  MayAnswer-accepts session g (issues k ∷ h) e = ground arith
  MayAnswer-accepts session g (revokes k ∷ h) e =
      ground (arith, MayAnswer-accepts session g h e.1, e.0)

  -- After any calls on a new manager, generation `g` is accepted exactly when `g` holds the lease
  -- issued last and since then no user turn began and no call revoked `g`.
  pub accepts_iff :
      (session g : ℕ) (h : List Call) → (accepts (after session h) g ≡ true) ↔ MayAnswer g h
  accepts_iff session g h = (accepts-MayAnswer session g h, MayAnswer-accepts session g h)
