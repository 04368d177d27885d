-- ===== src/Gateway/Tasks/Life.antt =====
-- The life of a task: what one call changes, and what holds after any calls.
use openlive.Common.{
  ℕ, ◌≡◌, ◌⊎◌, inl, inr, refl, false, ◌||◌, Option, none, some, List, [], ◌∷◌, ◌++◌, arith,
  ℕ_discrete, Option-cases, Bool-cases,
}
use openlive.Common.Float.{Float}
use openlive.Common.Map.{
  lookup, insert, remove, contains_key, lookup-insert, lookup-remove, IsUnique, insert-IsUnique,
  remove-IsUnique,
}
use openlive.Common.Text.{Text}
use openlive.Common.Trim.{trim, is_empty}
use openlive.Protocol.Task.{
  TaskResultKind, EvidenceKind, TaskRequested, success, failure, cancelled,
}
use openlive.Gateway.Tasks.{
  TaskRecord, PendingOutcome, TaskOrchestrator, timed_out, finished, called_off,
}
use openlive.Gateway.Tasks.Operations.{
  new, admit, bind_all, bind_record, bind_pending_to_generation, attach_evidence, resolve,
  resolve_all, cons_some, expire_deadlines, cancel_task, complete_tasks_for_generation,
}

-- Each record stands under its own id.
abbrev pub IsKeyed : List (ℕ × TaskRecord) → Type 0
IsKeyed [] = Unit
IsKeyed ((k, r) ∷ m) = (r.task_id ≡ k) × IsKeyed m

module _ (F : Float) where
  -- No task is active twice, and none is both active and resolved.
  pub record IsValid (s : TaskOrchestrator F) : Type 0 where
    pub unique : IsUnique ℕ_discrete s.active
    pub keyed : IsKeyed s.active
    pub disjoint :
        (k : ℕ) → (lookup ℕ_discrete k s.active ≡ none) ⊎ (lookup ℕ_discrete k s.completed ≡ none)

insert-IsKeyed :
    (k : ℕ) (r : TaskRecord) (m : List (ℕ × TaskRecord))
    → r.task_id ≡ k
    → IsKeyed m
    → IsKeyed (insert ℕ_discrete k r m)
unfolding insert
insert-IsKeyed k r [] e h = (e, tt)
insert-IsKeyed k r ((j, w) ∷ m) e h = ground (arith, insert-IsKeyed k r m e)

remove-IsKeyed : (k : ℕ) (m : List (ℕ × TaskRecord)) → IsKeyed m → IsKeyed (remove ℕ_discrete k m)
unfolding remove
remove-IsKeyed k [] h = tt
remove-IsKeyed k ((j, w) ∷ m) h = ground (arith, remove-IsKeyed k m)

lookup-IsKeyed :
    (k : ℕ) (r : TaskRecord) (m : List (ℕ × TaskRecord))
    → IsKeyed m
    → lookup ℕ_discrete k m ≡ some r
    → r.task_id ≡ k
unfolding lookup
lookup-IsKeyed k r [] h e = cc
lookup-IsKeyed k r ((j, w) ∷ m) h e = ground (arith, lookup-IsKeyed k r m)

pub lookup-bind_all :
    (g k : ℕ) (m : List (ℕ × TaskRecord))
    → lookup ℕ_discrete k (bind_all g m)
      ≡ elim (lookup ℕ_discrete k m) [ none ↦ none | some r ↦ some (bind_record g r) ]
unfolding lookup bind_all
lookup-bind_all g k [] = refl
lookup-bind_all g k ((j, r) ∷ m) = ground (arith, lookup-bind_all g k m)

bind_all-IsUnique :
    (g : ℕ) (m : List (ℕ × TaskRecord)) → IsUnique ℕ_discrete m → IsUnique ℕ_discrete (bind_all g m)
unfolding bind_all
bind_all-IsUnique g [] u = tt
bind_all-IsUnique g ((j, r) ∷ m) u =
    (ground (arith, lookup-bind_all g j m, u.0), bind_all-IsUnique g m u.1)

bind_all-IsKeyed : (g : ℕ) (m : List (ℕ × TaskRecord)) → IsKeyed m → IsKeyed (bind_all g m)
unfolding bind_all bind_record
bind_all-IsKeyed g [] h = tt
bind_all-IsKeyed g ((j, r) ∷ m) h = ground (arith, bind_all-IsKeyed g m h.1)

module _ (F : Float) where
  pub resolve-IsValid :
      (result : TaskResultKind) (outcome : ℕ → TaskRecord → List ℕ → PendingOutcome)
      (s : TaskOrchestrator F) (k : ℕ)
      → IsValid F s
      → IsValid F (resolve F result outcome s k).0
  unfolding resolve
  resolve-IsValid result outcome s k v = elim (Option-cases (lookup ℕ_discrete k s.active)) [
    | inl e ↦ rw (e, resolve) v
    | inr (r, e) ↦
        rw (e, resolve)
          (record {
            unique = remove-IsUnique ℕ_discrete k s.active v.unique;
            keyed = remove-IsKeyed k s.active v.keyed;
            disjoint = λ j. ground (
              arith,
              v.disjoint j,
              lookup-remove ℕ_discrete k j s.active,
              lookup-insert ℕ_discrete k j result s.completed,
            );
          })
  ]

  resolve_all-IsValid :
      (result : TaskResultKind) (outcome : ℕ → TaskRecord → List ℕ → PendingOutcome)
      (s : TaskOrchestrator F) (ks : List ℕ)
      → IsValid F s
      → IsValid F (resolve_all F result outcome s ks).0
  unfolding resolve_all
  resolve_all-IsValid result outcome s [] v = v
  resolve_all-IsValid result outcome s (k ∷ ks) v =
      resolve_all-IsValid result outcome (resolve F result outcome s k).0 ks
        (resolve-IsValid result outcome s k v)

  -- Writing a record at a key that is not resolved.
  set-IsValid :
      (s : TaskOrchestrator F) (k : ℕ) (r : TaskRecord)
      → r.task_id ≡ k
      → lookup ℕ_discrete k s.completed ≡ none
      → IsValid F s
      → IsValid F (record s { active = insert ℕ_discrete k r s.active })
  set-IsValid s k r e f v = record {
    unique = insert-IsUnique ℕ_discrete k r s.active v.unique;
    keyed = insert-IsKeyed k r s.active e v.keyed;
    disjoint = λ j. ground (arith, v.disjoint j, f, lookup-insert ℕ_discrete k j r s.active);
  }

  pub known-none :
      (k : ℕ) (s : TaskOrchestrator F)
      → (contains_key ℕ_discrete k s.active || contains_key ℕ_discrete k s.completed) ≡ false
      → (lookup ℕ_discrete k s.active ≡ none) × (lookup ℕ_discrete k s.completed ≡ none)
  known-none k s h = ground arith

  admit-IsValid :
      (s : TaskOrchestrator F) (default now : ℕ) (q : TaskRequested) (p : Option Text)
      → IsValid F s
      → IsValid F (admit F s default q p now).0
  unfolding admit
  admit-IsValid s default now q p v = elim (Bool-cases (is_empty (trim q.intent))) [
    | inl blank ↦ rw blank v
    | inr named ↦
        elim (Bool-cases (
          contains_key ℕ_discrete q.task_id s.active
          || contains_key ℕ_discrete q.task_id s.completed)) [
            | inl known ↦ rw (named, known) v
            | inr fresh ↦
                rw (named, fresh)
                  (set-IsValid s q.task_id _ refl (known-none q.task_id s fresh).1 v)
          ]
  ]

  attach_evidence-IsValid :
      (s : TaskOrchestrator F) (k : ℕ) (kind : EvidenceKind) (e : ℕ)
      → IsValid F s
      → IsValid F (attach_evidence F s k kind e).0
  unfolding attach_evidence
  attach_evidence-IsValid s k kind e v = elim (Option-cases (lookup ℕ_discrete k s.active)) [
    | inl h ↦ rw (h, attach_evidence) v
    | inr (r, h) ↦
        rw (h, attach_evidence)
          (set-IsValid s k _ (lookup-IsKeyed k r s.active v.keyed h) (ground (arith, v.disjoint k))
            v)
  ]

  bind-IsValid :
      (s : TaskOrchestrator F) (g : ℕ)
      → IsValid F s
      → IsValid F (bind_pending_to_generation F s g).0
  unfolding bind_pending_to_generation
  bind-IsValid s g v = record {
    unique = bind_all-IsUnique g s.active v.unique;
    keyed = bind_all-IsKeyed g s.active v.keyed;
    disjoint = λ j. ground (arith, v.disjoint j, lookup-bind_all g j s.active);
  }

-- A call on the orchestrator's tasks, with what it is given.
pub data Call : Type 0 where
  admits : (default_deadline now_ms : ℕ) → TaskRequested → Option Text → Call
  binds : (generation_id : ℕ) → Call
  attaches : (task_id : ℕ) → EvidenceKind → (evidence_id : ℕ) → Call
  expires : (now_ms : ℕ) → Call
  cancels : (task_id : ℕ) → Option Text → Call
  finishes : (generation_id : ℕ) → Call

module _ (F : Float) where
  -- The new state, and the outcomes for the session to send.
  unfoldable pub step : TaskOrchestrator F → Call → TaskOrchestrator F × List PendingOutcome
  step s (admits default now q p) = ((admit F s default q p now).0, [])
  step s (binds g) = ((bind_pending_to_generation F s g).0, [])
  step s (attaches k kind e) = ((attach_evidence F s k kind e).0, [])
  step s (expires now) = expire_deadlines F s now
  step s (cancels k reason) = let (s', o) = cancel_task F s k reason in (s', cons_some o [])
  step s (finishes g) = complete_tasks_for_generation F s g

  -- Every call keeps the tasks valid: no task is active twice, each is filed under its own id, and
  -- none is both active and resolved.
  pub step-IsValid : (s : TaskOrchestrator F) (c : Call) → IsValid F s → IsValid F (step s c).0
  unfolding step expire_deadlines cancel_task complete_tasks_for_generation
  step-IsValid s (admits default now q p) v = admit-IsValid F s default now q p v
  step-IsValid s (binds g) v = bind-IsValid F s g v
  step-IsValid s (attaches k kind e) v = attach_evidence-IsValid F s k kind e v
  step-IsValid s (expires now) v = resolve_all-IsValid F failure timed_out s _ v
  step-IsValid s (cancels k reason) v = resolve-IsValid F cancelled (called_off reason) s k v
  step-IsValid s (finishes g) v = resolve_all-IsValid F success finished s _ v

  -- The state after a history of calls, newest first, and all outcomes it gave out.
  unfoldable pub after : List Call → TaskOrchestrator F
  unfolding step
  after [] = new F
  after (c ∷ h) = (step (after h) c).0

  unfoldable pub outcomes : List Call → List PendingOutcome
  outcomes [] = []
  outcomes (c ∷ h) = (step (after h) c).1 ++ outcomes h

  pub after-IsValid : (h : List Call) → IsValid F (after h)
  unfolding after new lookup
  after-IsValid [] = record { unique = tt; keyed = tt; disjoint = λ k. inl refl }
  after-IsValid (c ∷ h) = step-IsValid (after h) c (after-IsValid h)
