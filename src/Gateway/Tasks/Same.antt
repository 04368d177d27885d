-- ===== src/Gateway/Tasks/Same.antt =====
-- What the operations of the orchestrator leave alone: the buffer, the tasks, and a bound on the
-- buffered sequence numbers.
use openlive.Common.{
  ℕ, ◌+◌, ◌≡◌, inl, inr, ◌<◌, refl, sym, ◌∙◌, ◌||◌, Option, none, List, [], ◌∷◌, arith, ℕ_discrete,
  any, Bool-cases, Option-cases,
}
use mathlib.Core.Path.{subst₂}
use openlive.Common.Float.{Float}
use openlive.Common.Map.{lookup, contains_key, lookup-remove}
use openlive.Common.SortedMap.{lookup-insert_sorted}
use openlive.Common.Text.{Text}
use openlive.Common.Trim.{trim, is_empty}
use openlive.Protocol.Task.{TaskResultKind, TaskRequested, EvidenceKind, EvidenceLink}
use openlive.Gateway.Tasks.{TaskRecord, PendingOutcome, TaskOrchestrator, BufferedEvent}
use openlive.Gateway.Tasks.Operations.{
  admit, bind_pending_to_generation, attach_evidence, resolve, resolve_all, expire_deadlines,
  cancel_task, complete_tasks_for_generation,
}
use openlive.Gateway.Tasks.Life.{
  Call, step, admits, binds, attaches, expires, cancels, finishes, IsValid,
}
use openlive.Gateway.Tasks.Links.{link_evidence, add_link, stored, stored_eq, links_from}
use openlive.Gateway.Tasks.Resume.{Agrees, buffer_outbound, purge_one, purge_all}

module _ (F : Float) where
  -- Two states with the same buffer.
  pub record SameBuffer (s s' : TaskOrchestrator F) : Type 0 where
    pub by_id : s'.buffered_by_id ≡ s.buffered_by_id
    pub by_seq : s'.buffered_by_seq ≡ s.buffered_by_seq

  -- Two states with the same tasks.
  pub record SameTasks (s s' : TaskOrchestrator F) : Type 0 where
    pub active : s'.active ≡ s.active
    pub completed : s'.completed ≡ s.completed

  pub same-SameBuffer : (s : TaskOrchestrator F) → SameBuffer s s
  same-SameBuffer s = record { by_id = refl; by_seq = refl }

  same-SameTasks : (s : TaskOrchestrator F) → SameTasks s s
  same-SameTasks s = record { active = refl; completed = refl }

  resolve-SameBuffer :
      (result : TaskResultKind) (outcome : ℕ → TaskRecord → List ℕ → PendingOutcome)
      (s : TaskOrchestrator F) (k : ℕ)
      → SameBuffer s (resolve F result outcome s k).0
  unfolding resolve
  resolve-SameBuffer result outcome s k = elim (Option-cases (lookup ℕ_discrete k s.active)) [
    | inl h ↦ rw (h, resolve) (same-SameBuffer s)
    | inr (r, h) ↦ rw (h, resolve) (record { by_id = refl; by_seq = refl })
  ]

  resolve_all-SameBuffer :
      (result : TaskResultKind) (outcome : ℕ → TaskRecord → List ℕ → PendingOutcome)
      (s : TaskOrchestrator F) (ks : List ℕ)
      → SameBuffer s (resolve_all F result outcome s ks).0
  unfolding resolve_all
  resolve_all-SameBuffer result outcome s [] = same-SameBuffer s
  resolve_all-SameBuffer result outcome s (k ∷ ks) =
      let s' = (resolve F result outcome s k).0 in
      let one = resolve-SameBuffer result outcome s k in
      let rest = resolve_all-SameBuffer result outcome s' ks in
      record { by_id = rest.by_id ∙ one.by_id; by_seq = rest.by_seq ∙ one.by_seq }

  admit-SameBuffer :
      (s : TaskOrchestrator F) (default now : ℕ) (q : TaskRequested) (p : Option Text)
      → SameBuffer s (admit F s default q p now).0
  unfolding admit
  admit-SameBuffer s default now q p = elim (Bool-cases (is_empty (trim q.intent))) [
    | inl blank ↦ rw blank (same-SameBuffer s)
    | inr named ↦
        elim (Bool-cases (
          contains_key ℕ_discrete q.task_id s.active
          || contains_key ℕ_discrete q.task_id s.completed)) [
            | inl known ↦ rw (named, known) (same-SameBuffer s)
            | inr fresh ↦ rw (named, fresh) (record { by_id = refl; by_seq = refl })
          ]
  ]

  attach_evidence-SameBuffer :
      (s : TaskOrchestrator F) (k : ℕ) (kind : EvidenceKind) (e : ℕ)
      → SameBuffer s (attach_evidence F s k kind e).0
  unfolding attach_evidence
  attach_evidence-SameBuffer s k kind e = elim (Option-cases (lookup ℕ_discrete k s.active)) [
    | inl h ↦ rw (h, attach_evidence) (same-SameBuffer s)
    | inr (r, h) ↦ rw (h, attach_evidence) (record { by_id = refl; by_seq = refl })
  ]

  pub step-SameBuffer : (s : TaskOrchestrator F) (c : Call) → SameBuffer s (step F s c).0
  unfolding step bind_pending_to_generation expire_deadlines cancel_task
      complete_tasks_for_generation
  step-SameBuffer s (admits default now q p) = admit-SameBuffer s default now q p
  step-SameBuffer s (binds g) = record { by_id = refl; by_seq = refl }
  step-SameBuffer s (attaches k kind e) = attach_evidence-SameBuffer s k kind e
  step-SameBuffer s (expires now) = resolve_all-SameBuffer _ _ s _
  step-SameBuffer s (cancels k reason) = resolve-SameBuffer _ _ s k
  step-SameBuffer s (finishes g) = resolve_all-SameBuffer _ _ s _

  pub link_evidence-Same :
      (s : TaskOrchestrator F) (l : EvidenceLink F)
      → SameBuffer s (link_evidence F s l).0 × SameTasks s (link_evidence F s l).0
  unfolding link_evidence add_link
  link_evidence-Same s l =
      elim (Bool-cases (any (λ x. stored_eq F x (stored F l)) (links_from F s l.source_id))) [
        | inl h ↦ rw (h, link_evidence) (same-SameBuffer s, same-SameTasks s)
        | inr h ↦
            rw (h, link_evidence)
              (record { by_id = refl; by_seq = refl }, record { active = refl; completed = refl })
      ]

  pub buffer_outbound-SameTasks :
      (s : TaskOrchestrator F) (now n id : ℕ) (json : Text)
      → SameTasks s (buffer_outbound F s now n id json).0
  unfolding buffer_outbound
  buffer_outbound-SameTasks s now n id json =
      elim (Bool-cases (contains_key ℕ_discrete id s.buffered_by_id)) [
        | inl h ↦ rw (h, buffer_outbound) (same-SameTasks s)
        | inr h ↦ rw (h, buffer_outbound) (record { active = refl; completed = refl })
      ]

  purge_one-SameTasks : (s : TaskOrchestrator F) (n : ℕ) → SameTasks s (purge_one F s n)
  unfolding purge_one
  purge_one-SameTasks s n = elim (Option-cases (lookup ℕ_discrete n s.buffered_by_seq)) [
    | inl h ↦ rw (h, purge_one) (same-SameTasks s)
    | inr (b, h) ↦ rw (h, purge_one) (record { active = refl; completed = refl })
  ]

  pub purge_all-SameTasks : (s : TaskOrchestrator F) (ns : List ℕ) → SameTasks s (purge_all F s ns)
  unfolding purge_all
  purge_all-SameTasks s [] = same-SameTasks s
  purge_all-SameTasks s (n ∷ ns) =
      let one = purge_one-SameTasks s n in
      let rest = purge_all-SameTasks (purge_one F s n) ns in
      record { active = rest.active ∙ one.active; completed = rest.completed ∙ one.completed }

  -- Nothing is buffered above the number.
  abbrev pub IsBelow : ℕ → List (ℕ × BufferedEvent) → Type 0
  IsBelow bound m = (n : ℕ) → bound < n → lookup ℕ_discrete n m ≡ none

  purge_one-IsBelow :
      (s : TaskOrchestrator F) (bound n : ℕ)
      → IsBelow bound s.buffered_by_seq
      → IsBelow bound (purge_one F s n).buffered_by_seq
  unfolding purge_one
  purge_one-IsBelow s bound n below = elim (Option-cases (lookup ℕ_discrete n s.buffered_by_seq)) [
    | inl h ↦ rw (h, purge_one) below
    | inr (b, h) ↦
        rw (h, purge_one)
          (λ k lt. ground (arith, below k lt, lookup-remove ℕ_discrete n k s.buffered_by_seq))
  ]

  pub purge_all-IsBelow :
      (s : TaskOrchestrator F) (bound : ℕ) (ns : List ℕ)
      → IsBelow bound s.buffered_by_seq
      → IsBelow bound (purge_all F s ns).buffered_by_seq
  unfolding purge_all
  purge_all-IsBelow s bound [] below = below
  purge_all-IsBelow s bound (n ∷ ns) below =
      purge_all-IsBelow (purge_one F s n) bound ns (purge_one-IsBelow s bound n below)

  pub buffer_outbound-IsBelow :
      (s : TaskOrchestrator F) (bound now id : ℕ) (json : Text)
      → IsBelow bound s.buffered_by_seq
      → IsBelow (bound + 1) (buffer_outbound F s now (bound + 1) id json).0.buffered_by_seq
  unfolding buffer_outbound
  buffer_outbound-IsBelow s bound now id json below =
      elim (Bool-cases (contains_key ℕ_discrete id s.buffered_by_id)) [
        | inl h ↦ rw (h, buffer_outbound) (λ k lt. below k (omega arith))
        | inr h ↦
            rw (h, buffer_outbound)
              (λ k lt. ground (
                arith,
                below k,
                lookup-insert_sorted (bound + 1) k
                    (record { event_id = id; buffered_at = now; envelope_json = json })
                    s.buffered_by_seq,
              ))
      ]

  pub same-Agrees : (s s' : TaskOrchestrator F) → SameBuffer s s' → Agrees F s → Agrees F s'
  same-Agrees s s' e a =
      subst₂ (λ i q. Agrees F (record s' { buffered_by_id = i; buffered_by_seq = q })) (sym e.by_id)
        (sym e.by_seq) (record { by_id = a.by_id; by_seq = a.by_seq; ascending = a.ascending })

  pub same-IsValid : (s s' : TaskOrchestrator F) → SameTasks s s' → IsValid F s → IsValid F s'
  same-IsValid s s' e v =
      subst₂ (λ x y. IsValid F (record s' { active = x; completed = y })) (sym e.active)
        (sym e.completed) (record { unique = v.unique; keyed = v.keyed; disjoint = v.disjoint })
