-- ===== src/Gateway/Tasks/Operations.antt =====
-- apps/openlive-gateway/src/session_state.rs, lines 296 to 585: the operations on tasks.
use openlive.Common.{
  ℕ, Bool, true, false, not, ◌&&◌, ◌||◌, Option, none, some, List, [], ◌∷◌, ◌++◌, map, ◌==◌, leb,
  if◌then◌else◌, keep, any, sat_add64, u32_max, ℕ_discrete,
}
use openlive.Common.Float.{Float}
use openlive.Common.Map.{lookup, insert, remove, contains_key}
use openlive.Common.Text.{Text, codes}
use openlive.Common.Trim.{trim, is_empty}
use openlive.Protocol.Task.{
  TaskResultKind, EvidenceKind, TaskRequested, TaskAcknowledged, queued, success, failure,
  cancelled,
}
use openlive.Gateway.Tasks.{
  EvidenceKind-discrete, TaskRecord, PendingOutcome, TaskOrchestrator, unwrap_or, values, is_visual,
  is_none, bound_to, timed_out, finished, called_off,
}

-- The deadline of a request that names none; 0 stands for no default.
unfoldable pub implicit_deadline : ℕ → ℕ → ℕ
implicit_deadline default_deadline now_ms =
    if default_deadline == 0 then sat_add64 now_ms u32_max else sat_add64 now_ms default_deadline

unfoldable pub bind_record : ℕ → TaskRecord → TaskRecord
bind_record g r = elim r.generation_id [ none ↦ record r { generation_id = some g } | some h ↦ r ]

unfoldable pub bind_all : ℕ → List (ℕ × TaskRecord) → List (ℕ × TaskRecord)
bind_all g [] = []
bind_all g ((k, r) ∷ m) = (k, bind_record g r) ∷ bind_all g m

abbrev is_unbound : TaskRecord → Bool
is_unbound r = elim r.generation_id [ none ↦ true | some h ↦ false ]

abbrev pub ids : List TaskRecord → List ℕ
ids = map (λ r. r.task_id)

abbrev pub contains : List ℕ → ℕ → Bool
contains xs a = any (λ x. x == a) xs

abbrev pub cons_some : Option PendingOutcome → List PendingOutcome → List PendingOutcome
cons_some none os = os
cons_some (some o) os = o ∷ os

module _ (F : Float) where
  unfoldable pub new : TaskOrchestrator F
  new = record {
    active = [];
    completed = [];
    buffered_by_id = [];
    buffered_by_seq = [];
    links_by_source = [];
    links_by_target = [];
  }

  -- A request that passed the checks.
  unfoldable pub accept :
      TaskOrchestrator F
      → TaskRequested
      → Option Text
      → ℕ
      → TaskOrchestrator F × Option TaskAcknowledged
  accept s request provider_id deadline_ms =
      let r : TaskRecord = record {
        task_id = request.task_id;
        intent = request.intent;
        deadline_ms = deadline_ms;
        generation_id = request.generation_id;
        collected_evidence = [];
      } in
      let warnings =
        if any is_visual request.evidence_required && is_none provider_id
        then codes "no provider bound to this task; visual evidence may be unavailable" ∷ []
        else [] in
      (
        record s { active = insert ℕ_discrete request.task_id r s.active },
        some (record {
          task_id = request.task_id;
          status = queued;
          deadline_ms = deadline_ms;
          provider_id = provider_id;
          warnings = warnings;
        }),
      )

  unfoldable pub admit :
      TaskOrchestrator F
      → (default_deadline : ℕ) → TaskRequested
      → Option Text
      → (now_ms : ℕ) → TaskOrchestrator F × Option TaskAcknowledged
  unfolding accept implicit_deadline
  admit s default_deadline request provider_id now_ms =
      if is_empty (trim request.intent)
      then (s, none)
      else if contains_key ℕ_discrete request.task_id s.active
          || contains_key ℕ_discrete request.task_id s.completed
      then (s, none)
      else accept s request provider_id
          (unwrap_or request.deadline_ms (implicit_deadline default_deadline now_ms))

  unfoldable pub bind_pending_to_generation : TaskOrchestrator F → ℕ → TaskOrchestrator F × List ℕ
  unfolding bind_all bind_record
  bind_pending_to_generation s g =
      (record s { active = bind_all g s.active }, ids (keep is_unbound (values s.active)))

  -- A bucket that is not there yet is empty: `entry(kind).or_default()` makes it.
  unfoldable pub attach_to :
      TaskOrchestrator F → ℕ → TaskRecord → EvidenceKind → ℕ → TaskOrchestrator F × Bool
  attach_to s task_id r kind evidence_id =
      let bucket = unwrap_or (lookup EvidenceKind-discrete kind r.collected_evidence) [] in
      let known = contains bucket evidence_id in
      let bucket' = if known then bucket else bucket ++ evidence_id ∷ [] in
      let r' = record r {
        collected_evidence = insert EvidenceKind-discrete kind bucket' r.collected_evidence;
      } in
      (record s { active = insert ℕ_discrete task_id r' s.active }, not known)

  unfoldable pub attach_evidence :
      TaskOrchestrator F → ℕ → EvidenceKind → ℕ → TaskOrchestrator F × Bool
  unfolding attach_to
  attach_evidence s task_id kind evidence_id = elim (lookup ℕ_discrete task_id s.active) [
    | none ↦ (s, false)
    | some r ↦ attach_to s task_id r kind evidence_id
  ]

  unfoldable pub evidence_for : TaskOrchestrator F → ℕ → List ℕ
  evidence_for s task_id =
      map (λ l. l.target_id) (unwrap_or (lookup ℕ_discrete task_id s.links_by_source) [])

  unfoldable pub tasks_for_evidence : TaskOrchestrator F → ℕ → List ℕ
  tasks_for_evidence s evidence_id =
      map (λ l. l.source_id) (unwrap_or (lookup ℕ_discrete evidence_id s.links_by_target) [])

  unfoldable pub task_ids_for_generation : TaskOrchestrator F → ℕ → List ℕ
  task_ids_for_generation s g = ids (keep (bound_to g) (values s.active))

  -- Take a task off the active ones, note its result and make its outcome.
  unfoldable pub resolve :
      TaskResultKind
      → (ℕ → TaskRecord → List ℕ → PendingOutcome)
      → TaskOrchestrator F
      → ℕ
      → TaskOrchestrator F × Option PendingOutcome
  resolve result outcome s task_id = elim (lookup ℕ_discrete task_id s.active) [
    | none ↦ (s, none)
    | some r ↦ (
      record s {
        active = remove ℕ_discrete task_id s.active;
        completed = insert ℕ_discrete task_id result s.completed;
      },
      some (outcome task_id r (evidence_for s task_id)),
    )
  ]

  -- The loops of `expire_deadlines` and `complete_tasks_for_generation` over the selected ids.
  unfoldable pub resolve_all :
      TaskResultKind
      → (ℕ → TaskRecord → List ℕ → PendingOutcome)
      → TaskOrchestrator F
      → List ℕ
      → TaskOrchestrator F × List PendingOutcome
  resolve_all result outcome s [] = (s, [])
  resolve_all result outcome s (task_id ∷ rest) =
      let (s', o) = resolve result outcome s task_id in
      let (s'', os) = resolve_all result outcome s' rest in (s'', cons_some o os)

  unfoldable pub expire_deadlines :
      TaskOrchestrator F → ℕ → TaskOrchestrator F × List PendingOutcome
  expire_deadlines s now_ms =
      resolve_all failure timed_out s (ids (keep (λ r. leb r.deadline_ms now_ms) (values s.active)))

  unfoldable pub cancel_task :
      TaskOrchestrator F → ℕ → Option Text → TaskOrchestrator F × Option PendingOutcome
  cancel_task s task_id reason = resolve cancelled (called_off reason) s task_id

  unfoldable pub complete_tasks_for_generation :
      TaskOrchestrator F → ℕ → TaskOrchestrator F × List PendingOutcome
  complete_tasks_for_generation s g =
      resolve_all success finished s (ids (keep (bound_to g) (values s.active)))
