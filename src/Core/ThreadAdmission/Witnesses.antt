-- ===== src/Core/ThreadAdmission/Witnesses.antt =====
-- A run whose thread is archived.
use agent_chat_bridge.Prelude.{false, none, some}
use agent_chat_bridge.Storage.Runs.Attempts.{Admission}
use agent_chat_bridge.Storage.Runs.Witnesses.{hash_of, lease_a, refused_thread}
use agent_chat_bridge.Core.ThreadAdmission.{
  CodexReply, thread, thrown, admit_thread, ThreadAdmission,
}

abbrev admitted_attempt : Admission
admitted_attempt = record {
  job_id = "j1";
  generation = 1;
  native_thread_id = some "th";
  native_turn_id = none;
  recovery_required = false;
}

abbrev archived : CodexReply
archived = thrown (record {
  outcome = "rejected";
  reason = some (record { kind = "thread_archived"; thread_id = "th" });
})

abbrev replaced : ThreadAdmission
replaced =
    admit_thread hash_of "feishu" lease_a archived (thread "new") "r" 7 admitted_attempt
      refused_thread

abbrev replaced_again : ThreadAdmission
replaced_again =
    admit_thread hash_of "feishu" lease_a archived (thread "newer") "s" 8 admitted_attempt
      replaced.tables
