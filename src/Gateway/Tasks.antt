-- ===== src/Gateway/Tasks.antt =====
-- apps/openlive-gateway/src/session_state.rs, lines 163 to 585: the orchestrator of the tasks that the
-- gateway has acknowledged. Hash maps are association lists; deadlines are epoch milliseconds below
-- 2^64. The process-wide default deadline, an atomic in the source, is an argument of `admit`.
pub mod Operations
pub mod Life
pub mod Replay
pub mod Resume
pub mod Links
pub mod Selection
pub mod Outcomes
pub mod Same
use openlive.Common.{
  ℕ, suc, ◌+◌, Bool, true, false, ◌&&◌, ◌||◌, Option, none, some, List, [], ◌∷◌, ◌++◌, map, ◌==◌,
  leb, if◌then◌else◌, length, keep, any, sat_add64, u32_max, ℕ_discrete,
}
use openlive.Common.Float.{Float}
use openlive.Common.Map.{lookup, insert, remove, contains_key}
use openlive.Common.Text.{Text, codes, decimal}
use openlive.Common.Trim.{trim, is_empty}
use openlive.Protocol.Task.{
  TaskStatus, TaskResultKind, EvidenceKind, EvidenceLinkType, TaskRequested, TaskAcknowledged,
  EvidenceLink, queued, success, failure, cancelled, transcript, tool_call, visual, timing,
}

pub EvidenceKind-discrete : Discrete EvidenceKind
EvidenceKind-discrete = hlevel

abbrev pub default_task_deadline_ms : ℕ
default_task_deadline_ms = 45000

pub record TaskRecord : Type 0 where
  pub task_id : ℕ
  pub intent : Text
  pub deadline_ms : ℕ
  pub generation_id : Option ℕ
  pub collected_evidence : List (EvidenceKind × List ℕ)

pub record BufferedEvent : Type 0 where
  pub event_id : ℕ
  pub buffered_at : ℕ
  pub envelope_json : Text

pub record StoredEvidenceLink (F : Float) : Type 0 where
  pub source_id : ℕ
  pub target_id : ℕ
  pub link_type : EvidenceLinkType
  pub confidence : F.F32

pub record PendingOutcome : Type 0 where
  pub task_id : ℕ
  pub intent : Text
  pub result : TaskResultKind
  pub evidence_ids : List ℕ
  pub error_code : Option Text
  pub error_detail : Option Text
  pub summary : Text

pub record TaskOrchestrator (F : Float) : Type 0 where
  pub active : List (ℕ × TaskRecord)
  pub completed : List (ℕ × TaskResultKind)
  pub buffered_by_id : List (ℕ × ℕ)
  pub buffered_by_seq : List (ℕ × BufferedEvent)
  pub links_by_source : List (ℕ × List (StoredEvidenceLink F))
  pub links_by_target : List (ℕ × List (StoredEvidenceLink F))

-- Helpers of the standard library.
abbrev pub unwrap_or {ℓ} : {A : Type ℓ} → Option A → A → A
unwrap_or none d = d
unwrap_or (some a) d = a

abbrev pub values : List (ℕ × TaskRecord) → List TaskRecord
values [] = []
values ((k, r) ∷ m) = r ∷ values m

abbrev pub is_visual : EvidenceKind → Bool
is_visual visual = true
is_visual _ = false

abbrev pub is_none : Option Text → Bool
is_none none = true
is_none (some t) = false

abbrev pub bound_to : ℕ → TaskRecord → Bool
bound_to g r = elim r.generation_id [ none ↦ false | some h ↦ h == g ]

-- `format!("{kind:?}").to_lowercase()`
abbrev kind_text : EvidenceKind → Text
kind_text transcript = codes "transcript"
kind_text tool_call = codes "toolcall"
kind_text visual = codes "visual"
kind_text timing = codes "timing"

-- `kinds.join(", ")`
abbrev join : List Text → Text
join [] = []
join (t ∷ []) = t
join (t ∷ (u ∷ ts)) = t ++ (codes ", " ++ join (u ∷ ts))

-- An intent in the quotes that the summaries use.
abbrev quoted : Text → Text
quoted intent = 0x201c ∷ (intent ++ 0x201d ∷ [])

unfoldable pub timed_out : ℕ → TaskRecord → List ℕ → PendingOutcome
timed_out task_id r evidence_ids = record {
  task_id = task_id;
  intent = r.intent;
  result = failure;
  evidence_ids = evidence_ids;
  error_code = some (codes "DEADLINE_ELAPSED");
  error_detail = some (
      codes "task deadline of "
      ++ (decimal r.deadline_ms ++ codes " ms elapsed before the provider completed"));
  summary = quoted r.intent ++ codes " timed out before completion";
}

abbrev kinds_of : List (EvidenceKind × List ℕ) → List Text
kinds_of [] = []
kinds_of ((k, ids) ∷ m) = kind_text k ∷ kinds_of m

abbrev completion_summary : TaskRecord → List ℕ → Text
completion_summary r [] = quoted r.intent ++ codes " completed (no evidence collected)"
completion_summary r (e ∷ es) =
    quoted r.intent
    ++ (codes " completed · "
        ++ (decimal (length (e ∷ es))
            ++ (codes " evidence · " ++ join (kinds_of r.collected_evidence))))

unfoldable pub finished : ℕ → TaskRecord → List ℕ → PendingOutcome
finished task_id r evidence_ids = record {
  task_id = task_id;
  intent = r.intent;
  result = success;
  evidence_ids = evidence_ids;
  error_code = none;
  error_detail = none;
  summary = completion_summary r evidence_ids;
}

unfoldable pub called_off : Option Text → ℕ → TaskRecord → List ℕ → PendingOutcome
called_off reason task_id r evidence_ids = record {
  task_id = task_id;
  intent = r.intent;
  result = cancelled;
  evidence_ids = evidence_ids;
  error_code = some (codes "CLIENT_CANCELLED");
  error_detail = some (unwrap_or reason (codes "cancelled by client"));
  summary = quoted r.intent ++ codes " cancelled";
}
