-- ===== src/Runtime/Lease.antt =====
-- crates/openlive-runtime/src/lease.rs: the leases under which an assistant generation may answer.
-- Identifiers are 128-bit numbers. `new_v5`, a parameter, stands for `Uuid::new_v5`.
pub mod History
pub mod Names
use openlive.Common.{
  ℕ, Bool, true, false, Option, none, some, List, ◌++◌, ◌==◌, if◌then◌else◌, sat_add64,
}
use openlive.Common.Text.{Text, codes, decimal}

pub record AnswerLease : Type 0 where
  pub lease_id : ℕ
  pub conversation_version : ℕ
  pub generation_id : ℕ

pub record AnswerLeaseManager : Type 0 where
  pub session_id : ℕ
  pub conversation_version : ℕ
  pub lease_sequence : ℕ
  pub user_turn_open : Bool
  pub active : Option AnswerLease

-- The text that a lease's identifier is derived from.
unfoldable pub lease_name : ℕ → ℕ → Text
lease_name version sequence =
    codes "answer:" ++ (decimal version ++ (codes ":" ++ decimal sequence))

unfoldable pub new : ℕ → AnswerLeaseManager
new session_id = record {
  session_id = session_id;
  conversation_version = 0;
  lease_sequence = 0;
  user_turn_open = false;
  active = none;
}

unfoldable pub begin_user_turn : AnswerLeaseManager → AnswerLeaseManager
begin_user_turn m = if m.user_turn_open then m else record m {
  conversation_version = sat_add64 m.conversation_version 1;
  user_turn_open = true;
  active = none;
}

abbrev holds : ℕ → Option AnswerLease → Bool
holds generation_id none = false
holds generation_id (some lease) = lease.generation_id == generation_id

unfoldable pub accepts : AnswerLeaseManager → ℕ → Bool
accepts m generation_id = holds generation_id m.active

unfoldable pub revoke : AnswerLeaseManager → ℕ → AnswerLeaseManager
revoke m generation_id = if holds generation_id m.active then record m { active = none } else m

module _ (new_v5 : ℕ → Text → ℕ) where
  unfoldable pub issue : AnswerLeaseManager → ℕ → AnswerLeaseManager × AnswerLease
  issue m generation_id =
      let sequence = sat_add64 m.lease_sequence 1 in
      let lease : AnswerLease = record {
        lease_id = new_v5 m.session_id (lease_name m.conversation_version sequence);
        conversation_version = m.conversation_version;
        generation_id = generation_id;
      } in
      (record m { lease_sequence = sequence; user_turn_open = false; active = some lease }, lease)
