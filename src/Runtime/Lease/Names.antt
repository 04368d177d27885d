-- ===== src/Runtime/Lease/Names.antt =====
-- The texts from which lease identifiers are derived, and when two leases have one identifier.
use openlive.Common.{
  ℕ, suc, ◌≤◌, ◌<◌, ◌≡◌, ◌≢◌, ◌∙◌, refl, sym, List, [], ◌∷◌, ◌++◌, arith, sat_add64, u64_max,
}
use openlive.Common.Text.{Text, decimal, decimal-IsDigit, decimal-injective, digits_split}
use openlive.Runtime.Lease.{lease_name, new, begin_user_turn, revoke, issue}
use openlive.Runtime.Lease.History.{Call, begins, issues, revokes, step, after}

pub lease_name-injective : (v s v' s' : ℕ) → lease_name v s ≡ lease_name v' s' → (v ≡ v') × (s ≡ s')
unfolding lease_name
lease_name-injective v s v' s' e =
    let parts : (decimal v ≡ decimal v') × (decimal s ≡ decimal s') =
      digits_split 58 (decimal v) (decimal v') (decimal s) (decimal s') (omega arith)
        (decimal-IsDigit v) (decimal-IsDigit v') (cc) in
    (decimal-injective v v' parts.0, decimal-injective s s' parts.1)

-- How many leases a history issued.
abbrev pub issued : List Call → ℕ
issued [] = 0
issued (begins ∷ h) = issued h
issued (issues g ∷ h) = suc (issued h)
issued (revokes g ∷ h) = issued h

issued-append : (k h : List Call) → issued h ≤ issued (k ++ h)
issued-append [] h = omega arith
issued-append (begins ∷ k) h = issued-append k h
issued-append (issues g ∷ k) h = omega (arith, issued-append k h)
issued-append (revokes g ∷ k) h = issued-append k h

module _ (new_v5 : ℕ → Text → ℕ) where
  -- The lease counter counts the leases issued, until it saturates.
  pub lease_sequence-issued :
      (session : ℕ) (h : List Call)
      → issued h ≤ u64_max
      → (after new_v5 session h).lease_sequence ≡ issued h
  unfolding after step begin_user_turn issue revoke new
  lease_sequence-issued session [] b = omega arith
  lease_sequence-issued session (begins ∷ h) b = ground (arith, lease_sequence-issued session h)
  lease_sequence-issued session (issues g ∷ h) b = ground (arith, lease_sequence-issued session h)
  lease_sequence-issued session (revokes g ∷ h) b = ground (arith, lease_sequence-issued session h)

  session_id-kept : (session : ℕ) (h : List Call) → (after new_v5 session h).session_id ≡ session
  unfolding after step begin_user_turn issue revoke new
  session_id-kept session [] = refl
  session_id-kept session (begins ∷ h) = ground (arith, session_id-kept session h)
  session_id-kept session (issues g ∷ h) = session_id-kept session h
  session_id-kept session (revokes g ∷ h) = ground (arith, session_id-kept session h)

  issued_lease :
      (session g : ℕ) (h : List Call)
      → let m = after new_v5 session h in
        (issue new_v5 m g).1.lease_id
        ≡ new_v5 session (lease_name m.conversation_version (sat_add64 m.lease_sequence 1))
  unfolding issue
  issued_lease session g h = rw (session_id-kept session h)

  -- As long as a session issued fewer than 2^64 - 1 leases, two leases that `issue` makes at
  -- different times, whatever was called between them, have the same identifier only if
  -- `Uuid::new_v5` makes the same identifier of two different texts.
  pub lease_ids-collide :
      (session g k : ℕ) (h later : List Call)
      → issued (later ++ issues g ∷ h) < u64_max
      → (issue new_v5 (after new_v5 session h) g).1.lease_id
        ≡ (issue new_v5 (after new_v5 session (later ++ issues g ∷ h)) k).1.lease_id
      → (s t : Text) × (s ≢ t) × (new_v5 session s ≡ new_v5 session t)
  lease_ids-collide session g k h later b same =
      let m = after new_v5 session h in
      let n = after new_v5 session (later ++ issues g ∷ h) in
      (
        lease_name m.conversation_version (sat_add64 m.lease_sequence 1),
        lease_name n.conversation_version (sat_add64 n.lease_sequence 1),
        λ e.
            let sequences = (lease_name-injective _ _ _ _ e).1 in
            absurd (
              omega (
                arith,
                sequences,
                issued-append later (issues g ∷ h),
                lease_sequence-issued session h,
                lease_sequence-issued session (later ++ issues g ∷ h),
              )),
        sym (issued_lease session g h) ∙ same ∙ issued_lease session k (later ++ issues g ∷ h),
      )
