-- ===== src/Gateway/Tasks/Outcomes.antt =====
-- One outcome for each acknowledged task.
use openlive.Common.{
  ℕ, ◌+◌, ◌≤◌, ◌≡◌, inl, inr, refl, ◌∙◌, Bool, true, false, ◌||◌, Option, none, some, List, [], ◌∷◌,
  ◌++◌, arith, ◌==◌, ℕ_discrete, Option-cases, Bool-cases,
}
use openlive.Common.Float.{Float}
use openlive.Common.Map.{lookup, insert, contains_key, lookup-insert, lookup-remove}
use openlive.Common.Text.{Text}
use openlive.Common.Trim.{trim, is_empty}
use openlive.Protocol.Task.{
  TaskResultKind, EvidenceKind, TaskRequested, TaskAcknowledged, success, failure, cancelled,
}
use openlive.Gateway.Tasks.{
  TaskRecord, PendingOutcome, TaskOrchestrator, timed_out, finished, called_off,
}
use openlive.Gateway.Tasks.Operations.{
  new, admit, accept, bind_pending_to_generation, attach_evidence, attach_to, evidence_for, resolve,
  resolve_all, cons_some, expire_deadlines, cancel_task, complete_tasks_for_generation,
}
use openlive.Gateway.Tasks.Life.{
  IsValid, Call, admits, binds, attaches, expires, cancels, finishes, step, after, outcomes,
  after-IsValid, resolve-IsValid, lookup-bind_all, known-none,
}

abbrev pub bit : Bool → ℕ
bit true = 1
bit false = 0

-- How many of the outcomes are about task `k`.
abbrev pub outcomes_of : ℕ → List PendingOutcome → ℕ
outcomes_of k [] = 0
outcomes_of k (o ∷ os) = bit (o.task_id == k) + outcomes_of k os

outcomes_of-append :
    (k : ℕ) (os ps : List PendingOutcome)
    → outcomes_of k (os ++ ps) ≡ outcomes_of k os + outcomes_of k ps
outcomes_of-append k [] ps = omega arith
outcomes_of-append k (o ∷ os) ps = omega (arith, outcomes_of-append k os ps)

outcomes_of-cons_some :
    (k : ℕ) (o : Option PendingOutcome) (os : List PendingOutcome)
    → outcomes_of k (cons_some o os) ≡ outcomes_of k (cons_some o []) + outcomes_of k os
outcomes_of-cons_some k none os = omega arith
outcomes_of-cons_some k (some o) os = omega arith

module _ (F : Float) (k : ℕ) where
  abbrev pub is_active : TaskOrchestrator F → Bool
  is_active s = contains_key ℕ_discrete k s.active

  abbrev pub is_resolved : TaskOrchestrator F → Bool
  is_resolved s = contains_key ℕ_discrete k s.completed

  -- A call that moves task `k` from active to resolved gives out its outcome, and no other does.
  record Moves (s s' : TaskOrchestrator F) (os : List PendingOutcome) : Type 0 where
    counted : outcomes_of k os + bit (is_resolved s) ≡ bit (is_resolved s')
    kept : bit (is_active s) + bit (is_resolved s) ≡ bit (is_active s') + bit (is_resolved s')

  module _ (result : TaskResultKind) (outcome : ℕ → TaskRecord → List ℕ → PendingOutcome)
      (tagged : (j : ℕ) (r : TaskRecord) (es : List ℕ) → (outcome j r es).task_id ≡ j) where
    resolve-Moves :
        (s : TaskOrchestrator F) (j : ℕ)
        → IsValid F s
        → Moves s (resolve F result outcome s j).0 (cons_some (resolve F result outcome s j).1 [])
    unfolding resolve
    resolve-Moves s j v = elim (Option-cases (lookup ℕ_discrete j s.active)) [
      | inl e ↦ rw (e, resolve) (record { counted = omega arith; kept = refl })
      | inr (r, e) ↦
          rw (e, resolve)
            (record {
              counted = ground (
                arith,
                e,
                v.disjoint j,
                lookup-insert ℕ_discrete j k result s.completed,
                tagged j r (evidence_for F s j),
              );
              kept = ground (
                arith,
                e,
                v.disjoint j,
                lookup-remove ℕ_discrete j k s.active,
                lookup-insert ℕ_discrete j k result s.completed,
              );
            })
    ]

    resolve_all-Moves :
        (s : TaskOrchestrator F) (js : List ℕ)
        → IsValid F s
        → Moves s (resolve_all F result outcome s js).0 (resolve_all F result outcome s js).1
    unfolding resolve_all
    resolve_all-Moves s [] v = record { counted = omega arith; kept = refl }
    resolve_all-Moves s (j ∷ js) v =
        let s' = (resolve F result outcome s j).0 in
        let one = resolve-Moves s j v in
        let rest = resolve_all-Moves s' js (resolve-IsValid F result outcome s j v) in
        record {
          counted = omega (
            arith,
            one.counted,
            rest.counted,
            outcomes_of-cons_some k (resolve F result outcome s j).1
                (resolve_all F result outcome s' js).1,
          );
          kept = one.kept ∙ rest.kept;
        }

  abbrev about : Option TaskAcknowledged → ℕ
  about none = 0
  about (some ack) = bit (ack.task_id == k)

  -- What a call acknowledges of task `k`: 1 where an admission succeeds.
  abbrev pub acknowledged_by : TaskOrchestrator F → Call → ℕ
  acknowledged_by s (admits default now q p) = about (admit F s default q p now).1
  acknowledged_by s _ = 0

  abbrev pub acknowledgements : List Call → ℕ
  acknowledgements [] = 0
  acknowledgements (c ∷ h) = acknowledged_by (after F h) c + acknowledgements h

  record Balances (s s' : TaskOrchestrator F) (acks : ℕ) (os : List PendingOutcome) : Type 0 where
    counted : outcomes_of k os + bit (is_resolved s) ≡ bit (is_resolved s')
    kept :
        acks + (bit (is_active s) + bit (is_resolved s)) ≡ bit (is_active s') + bit (is_resolved s')

  fresh-Balances :
      (s : TaskOrchestrator F) (j : ℕ) (r : TaskRecord)
      → (lookup ℕ_discrete j s.active ≡ none) × (lookup ℕ_discrete j s.completed ≡ none)
      → Balances s (record s { active = insert ℕ_discrete j r s.active }) (bit (j == k)) []
  fresh-Balances s j r f = record {
    counted = omega arith;
    kept = ground (arith, f, lookup-insert ℕ_discrete j k r s.active);
  }

  present-Balances :
      (s : TaskOrchestrator F) (j : ℕ) (r r' : TaskRecord)
      → lookup ℕ_discrete j s.active ≡ some r
      → Balances s (record s { active = insert ℕ_discrete j r' s.active }) 0 []
  present-Balances s j r r' h = record {
    counted = omega arith;
    kept = ground (arith, h, lookup-insert ℕ_discrete j k r' s.active);
  }

  admit-Balances :
      (s : TaskOrchestrator F) (default now : ℕ) (q : TaskRequested) (p : Option Text)
      → Balances s (admit F s default q p now).0 (about (admit F s default q p now).1) []
  unfolding admit accept
  admit-Balances s default now q p = elim (Bool-cases (is_empty (trim q.intent))) [
    | inl blank ↦ rw blank (record { counted = omega arith; kept = omega arith })
    | inr named ↦
        elim (Bool-cases (
          contains_key ℕ_discrete q.task_id s.active
          || contains_key ℕ_discrete q.task_id s.completed)) [
            | inl known ↦ rw (named, known) (record { counted = omega arith; kept = omega arith })
            | inr fresh ↦
                rw (named, fresh) (fresh-Balances s q.task_id _ (known-none F q.task_id s fresh))
          ]
  ]

  of_Moves :
      (s s' : TaskOrchestrator F) (os : List PendingOutcome) → Moves s s' os → Balances s s' 0 os
  of_Moves s s' os m = record { counted = m.counted; kept = omega (arith, m.kept) }

  attach-Balances :
      (s : TaskOrchestrator F) (j : ℕ) (kind : EvidenceKind) (e : ℕ)
      → Balances s (attach_evidence F s j kind e).0 0 []
  unfolding attach_evidence attach_to
  attach-Balances s j kind e = elim (Option-cases (lookup ℕ_discrete j s.active)) [
    | inl h ↦ rw (h, attach_evidence) (record { counted = omega arith; kept = omega arith })
    | inr (r, h) ↦ rw (h, attach_evidence) (present-Balances s j r _ h)
  ]

  step-Balances :
      (s : TaskOrchestrator F) (c : Call)
      → IsValid F s
      → Balances s (step F s c).0 (acknowledged_by s c) (step F s c).1
  unfolding step expire_deadlines cancel_task complete_tasks_for_generation
      bind_pending_to_generation timed_out called_off finished
  step-Balances s (admits default now q p) v = admit-Balances s default now q p
  step-Balances s (binds g) v = record {
    counted = omega arith;
    kept = ground (arith, lookup-bind_all g k s.active);
  }
  step-Balances s (attaches j kind e) v = attach-Balances s j kind e
  step-Balances s (expires now) v =
      of_Moves s _ _ (resolve_all-Moves failure timed_out (λ j r es. refl) s _ v)
  step-Balances s (cancels j reason) v =
      of_Moves s _ _ (resolve-Moves cancelled (called_off reason) (λ j r es. refl) s j v)
  step-Balances s (finishes g) v =
      of_Moves s _ _ (resolve_all-Moves success finished (λ j r es. refl) s _ v)

  after-Balances :
      (h : List Call)
      → (outcomes_of k (outcomes F h) ≡ bit (is_resolved (after F h)))
        × (acknowledgements h ≡ bit (is_active (after F h)) + bit (is_resolved (after F h)))
  unfolding after outcomes new lookup
  after-Balances [] = (omega arith, omega arith)
  after-Balances (c ∷ h) =
      let b = step-Balances (after F h) c (after-IsValid F h) in
      let past = after-Balances h in
      (
        omega (
          arith,
          b.counted,
          past.0,
          outcomes_of-append k (step F (after F h) c).1 (outcomes F h),
        ),
        omega (arith, b.kept, past.1),
      )

  -- After any calls on a new orchestrator, task `k` was acknowledged at most once. It has exactly
  -- one outcome if it was acknowledged and is no longer active, and none otherwise.
  pub outcome_once :
      (h : List Call)
      → (acknowledgements h ≤ 1)
        × (acknowledgements h ≡ bit (is_active (after F h)) + outcomes_of k (outcomes F h))
  outcome_once h =
      let (counted, acknowledged) = after-Balances h in
      (ground (arith, acknowledged, (after-IsValid F h).disjoint k), omega arith)
