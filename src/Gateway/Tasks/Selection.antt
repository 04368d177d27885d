-- ===== src/Gateway/Tasks/Selection.antt =====
-- Which tasks a deadline or a finished generation resolves.
use openlive.Common.{
  ℕ, ◌≡◌, inl, inr, refl, Bool, false, ◌&&◌, Option, none, some, List, [], ◌∷◌, arith, ◌==◌, leb,
  if◌then◌else◌, keep, ℕ_discrete, Option-cases,
}
use openlive.Common.Float.{Float}
use openlive.Common.Map.{lookup, contains_key, lookup-insert, lookup-remove, IsUnique}
use openlive.Protocol.Task.{TaskResultKind, success, failure}
use openlive.Gateway.Tasks.{
  TaskRecord, PendingOutcome, TaskOrchestrator, values, bound_to, timed_out, finished,
}
use openlive.Gateway.Tasks.Operations.{
  ids, resolve, resolve_all, contains, expire_deadlines, complete_tasks_for_generation,
}
use openlive.Gateway.Tasks.Life.{IsValid, IsKeyed}

-- A record that is there and passes a test.
abbrev pub passes : (TaskRecord → Bool) → Option TaskRecord → Bool
passes p none = false
passes p (some r) = p r

abbrev selected : (TaskRecord → Bool) → List (ℕ × TaskRecord) → List ℕ
selected p m = ids (keep p (values m))

contains-selected :
    (p : TaskRecord → Bool) (k : ℕ) (m : List (ℕ × TaskRecord))
    → IsUnique ℕ_discrete m
    → IsKeyed m
    → contains (selected p m) k ≡ passes p (lookup ℕ_discrete k m)
unfolding lookup
contains-selected p k [] u h = refl
contains-selected p k ((j, r) ∷ m) u h = ground (arith, contains-selected p k m u.1 h.1)

module _ (F : Float) (result : TaskResultKind)
    (outcome : ℕ → TaskRecord → List ℕ → PendingOutcome) where
  -- What becomes of task `k` where the tasks `ks` are resolved.
  record Resolves (k : ℕ) (hit : Bool) (s s' : TaskOrchestrator F) : Type 0 where
    active : lookup ℕ_discrete k s'.active ≡ (if hit then none else lookup ℕ_discrete k s.active)
    completed : lookup ℕ_discrete k s'.completed ≡ (
        if hit && contains_key ℕ_discrete k s.active
        then some result
        else lookup ℕ_discrete k s.completed)

  resolve-Resolves :
      (s : TaskOrchestrator F) (j k : ℕ) → Resolves k (j == k) s (resolve F result outcome s j).0
  unfolding resolve
  resolve-Resolves s j k = elim (Option-cases (lookup ℕ_discrete j s.active)) [
    | inl e ↦ rw (e, resolve) (record { active = ground (arith, e); completed = ground (arith, e) })
    | inr (r, e) ↦
        rw (e, resolve)
          (record {
            active = ground (arith, lookup-remove ℕ_discrete j k s.active);
            completed = ground (arith, e, lookup-insert ℕ_discrete j k result s.completed);
          })
  ]

  resolve_all-Resolves :
      (s : TaskOrchestrator F) (js : List ℕ) (k : ℕ)
      → Resolves k (contains js k) s (resolve_all F result outcome s js).0
  unfolding resolve_all
  resolve_all-Resolves s [] k = record { active = refl; completed = refl }
  resolve_all-Resolves s (j ∷ js) k =
      let s' = (resolve F result outcome s j).0 in
      let one = resolve-Resolves s j k in
      let rest = resolve_all-Resolves s' js k in
      record {
        active = ground (arith, one.active, rest.active);
        completed = ground (arith, one.active, one.completed, rest.completed);
      }

module _ (F : Float) where
  -- From `s` to `s'` exactly the active tasks that pass the test are resolved, with `result`; every
  -- other task stays active with its record as it was, or resolved with its result.
  pub record Settles (p : TaskRecord → Bool) (result : TaskResultKind) (s s' : TaskOrchestrator F)
      : Type 0 where
    pub active :
        (k : ℕ)
        → lookup ℕ_discrete k s'.active
          ≡ (if passes p (lookup ℕ_discrete k s.active) then none else lookup ℕ_discrete k s.active)
    pub completed :
        (k : ℕ)
        → lookup ℕ_discrete k s'.completed ≡ (
            if passes p (lookup ℕ_discrete k s.active)
            then some result
            else lookup ℕ_discrete k s.completed)

  resolve_all-Settles :
      (p : TaskRecord → Bool) (result : TaskResultKind)
      (outcome : ℕ → TaskRecord → List ℕ → PendingOutcome) (s : TaskOrchestrator F)
      → IsValid F s
      → Settles p result s (resolve_all F result outcome s (selected p s.active)).0
  resolve_all-Settles p result outcome s v = record {
    active = λ k. ground (
      arith,
      (resolve_all-Resolves F result outcome s (selected p s.active) k).active,
      contains-selected p k s.active v.unique v.keyed,
    );
    completed = λ k. ground (
      arith,
      (resolve_all-Resolves F result outcome s (selected p s.active) k).completed,
      contains-selected p k s.active v.unique v.keyed,
    );
  }

  -- On a valid orchestrator, `expire_deadlines` fails exactly the active tasks whose deadline is
  -- not after `now_ms`, and leaves every other task as it was.
  pub expire_deadlines-Settles :
      (s : TaskOrchestrator F) (now_ms : ℕ)
      → IsValid F s
      → Settles (λ r. leb r.deadline_ms now_ms) failure s (expire_deadlines F s now_ms).0
  unfolding expire_deadlines
  expire_deadlines-Settles s now_ms v = resolve_all-Settles _ failure timed_out s v

  -- On a valid orchestrator, a finished generation completes exactly the active tasks bound to it,
  -- and leaves the tasks of other generations and the unbound ones as they were.
  pub complete_tasks-Settles :
      (s : TaskOrchestrator F) (g : ℕ)
      → IsValid F s
      → Settles (bound_to g) success s (complete_tasks_for_generation F s g).0
  unfolding complete_tasks_for_generation
  complete_tasks-Settles s g v = resolve_all-Settles (bound_to g) success finished s v
