-- ===== src/Protocol/Task.antt =====
-- crates/openlive-protocol/src/lib.rs: tasks, their outcomes and the evidence linked to them. `J` is
-- the JSON value type of serde_json.
use openlive.Common.{ℕ, Bool, Option, List}
use openlive.Common.Text.{Text}
use openlive.Common.Float.{Float}

pub record TaskCreated : Type 0 where
  pub task_id : ℕ
  pub kind : Text
  pub conversation_version : ℕ

pub record TaskResult (F : Float) (J : Type 0) : Type 0 where
  pub task_id : ℕ
  pub conversation_version : ℕ
  pub content : J
  pub confidence : F.F32

pub data EvidenceKind : Type 0 where
  transcript tool_call visual timing : EvidenceKind

pub record TaskRequested : Type 0 where
  pub task_id : ℕ
  pub intent : Text
  pub context : Option Text
  pub deadline_ms : Option ℕ
  pub evidence_required : List EvidenceKind
  pub generation_id : Option ℕ

pub data TaskStatus : Type 0 where
  queued in_progress blocked : TaskStatus

pub record TaskAcknowledged : Type 0 where
  pub task_id : ℕ
  pub status : TaskStatus
  pub deadline_ms : ℕ
  pub provider_id : Option Text
  pub warnings : List Text

pub record TaskCancel : Type 0 where
  pub task_id : ℕ
  pub reason : Option Text

pub data TaskResultKind : Type 0 where
  success failure cancelled : TaskResultKind

pub record TaskOutcome : Type 0 where
  pub task_id : ℕ
  pub result : TaskResultKind
  pub summary : Text
  pub evidence_ids : List ℕ
  pub error_code : Option Text
  pub error_detail : Option Text

pub data EvidenceLinkType : Type 0 where
  task_proof task_context task_failure : EvidenceLinkType

pub record EvidenceLink (F : Float) : Type 0 where
  pub source_id : ℕ
  pub target_id : ℕ
  pub link_type : EvidenceLinkType
  pub confidence : F.F32

pub record SessionResume : Type 0 where
  pub session_id : ℕ
  pub last_sequence_seen : ℕ
  pub replay_evidence : Bool
