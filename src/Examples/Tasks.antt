-- ===== src/Examples/Tasks.antt =====
-- apps/openlive-gateway/src/session_state.rs: the orchestrator on concrete tasks.
use openlive.Common.{
  ℕ, ◌≡◌, ◌↔◌, ◌≤◌, ◌+◌, refl, none, some, List, [], ◌∷◌, arith, In, leb, ℕ_discrete,
}
use openlive.Common.Float.{milli}
use openlive.Common.Map.{lookup}
use openlive.Common.Text.{codes}
use openlive.Protocol.Task.{TaskRequested, EvidenceLink, task_proof, visual, success, failure}
use openlive.Gateway.Tasks.{TaskOrchestrator, bound_to}
use openlive.Gateway.Tasks.Operations.{
  new, evidence_for, tasks_for_evidence, expire_deadlines, complete_tasks_for_generation,
}
use openlive.Gateway.Tasks.Life.{
  IsValid, Call, admits, binds, expires, finishes, step, after, outcomes, step-IsValid,
  after-IsValid,
}
use openlive.Gateway.Tasks.Outcomes.{acknowledgements, outcomes_of, is_active, bit, outcome_once}
use openlive.Gateway.Tasks.Selection.{Settles, expire_deadlines-Settles, complete_tasks-Settles}
use openlive.Gateway.Tasks.Links.{linked, evidence_for_iff, relinked_confidence}
use openlive.Gateway.Tasks.Resume.{
  Agrees, buffer_outbound, replay_after, above, buffer_outbound-Agrees,
}
use openlive.Gateway.Tasks.Replay.{retained, jsons, replay_after_exact, replay_after_keeps_old}

abbrev request : ℕ → TaskRequested
request k = record {
  task_id = k;
  intent = codes "look";
  context = none;
  deadline_ms = some 5000;
  evidence_required = visual ∷ [];
  generation_id = none;
}

-- Two tasks, of which the second comes too late for generation 7.
abbrev calls : List Call
calls = admits 45000 200 (request 2) none ∷ binds 7 ∷ admits 45000 100 (request 1) none ∷ []

step-IsValid_example : IsValid milli (step milli (after milli calls) (expires 6000)).0
step-IsValid_example =
    step-IsValid milli (after milli calls) (expires 6000) (after-IsValid milli calls)

outcome_once_example :
    (acknowledgements milli 1 (finishes 7 ∷ calls) ≤ 1)
    × (acknowledgements milli 1 (finishes 7 ∷ calls)
        ≡ bit (is_active milli 1 (after milli (finishes 7 ∷ calls)))
          + outcomes_of 1 (outcomes milli (finishes 7 ∷ calls)))
outcome_once_example = outcome_once milli 1 (finishes 7 ∷ calls)

expire_deadlines-Settles_example :
    Settles milli
      (λ r. leb r.deadline_ms 6000)
      failure
      (after milli calls)
      (expire_deadlines milli (after milli calls) 6000).0
expire_deadlines-Settles_example =
    expire_deadlines-Settles milli (after milli calls) 6000 (after-IsValid milli calls)

abbrev link : EvidenceLink milli
link = record { source_id = 1; target_id = 20; link_type = task_proof; confidence = 600 }

evidence_for_iff_example :
    In 20 (evidence_for milli (linked milli (link ∷ [])) 1)
    ↔ In 1 (tasks_for_evidence milli (linked milli (link ∷ [])) 20)
evidence_for_iff_example = evidence_for_iff milli (link ∷ []) 1 20

complete_tasks-Settles_example :
    Settles milli
      (bound_to 7)
      success
      (after milli calls)
      (complete_tasks_for_generation milli (after milli calls) 7).0
complete_tasks-Settles_example =
    complete_tasks-Settles milli (after milli calls) 7 (after-IsValid milli calls)

relinked_confidence_example :
    evidence_for milli (linked milli (record link { confidence = 700 } ∷ link ∷ [])) 1
    ≡ 20 ∷ 20 ∷ []
relinked_confidence_example = relinked_confidence milli link 700 refl

new-Agrees : Agrees milli (new milli)
unfolding new lookup
new-Agrees = record { by_id = λ e n h. cc; by_seq = λ n b h. cc; ascending = tt }

-- One envelope, buffered at the start.
abbrev buffered : TaskOrchestrator milli
unfolding buffer_outbound new lookup
buffered = (buffer_outbound milli (new milli) 0 4 40 (codes "{}")).0

buffered-Agrees : Agrees milli buffered
unfolding buffered new lookup
buffered-Agrees = buffer_outbound-Agrees milli (new milli) 0 4 40 (codes "{}") refl new-Agrees

replay_after_exact_example :
    let (s', sent) = replay_after milli buffered 60000000000 3 in
    (s'.buffered_by_seq ≡ retained 60000000000 3 buffered.buffered_by_seq)
    × (sent ≡ jsons (above 3 s'.buffered_by_seq))
    × ((replay_after milli s' 60000000000 3).1 ≡ sent)
replay_after_exact_example =
    replay_after_exact milli buffered 60000000000 3 buffered-Agrees.ascending

replay_after_keeps_old_example :
    lookup ℕ_discrete 4 (replay_after milli buffered 60000000000 4).0.buffered_by_seq
    ≡ lookup ℕ_discrete 4 buffered.buffered_by_seq
replay_after_keeps_old_example =
    replay_after_keeps_old milli buffered 60000000000 4 4 buffered-Agrees.ascending (omega arith)
