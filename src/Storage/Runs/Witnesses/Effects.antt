-- ===== src/Storage/Runs/Witnesses/Effects.antt =====
-- The theorems on effects and recoveries at a few rows.
use agent_chat_bridge.Storage.Runs.Recoveries.{recovery_field}
use agent_chat_bridge.Prelude.{sort_by}
use agent_chat_bridge.Storage.Runs.Claims.{claim_outbox, predecessor_sent}
use agent_chat_bridge.Prelude.{find?, one_of, update}
use agent_chat_bridge.Storage.ForwardJobs.{required, js_length}
use agent_chat_bridge.Storage.Runs.Leases.{owned_effect}
use agent_chat_bridge.Storage.Runs.Settlement.{settle_outbox}
use agent_chat_bridge.Prelude.{String, false, Option, none, some, List, [], ◌∷◌, ◌≡◌, refl, ok, inl}
use agent_chat_bridge.Json.{null}
use agent_chat_bridge.Storage.Runs.{RunJob, Effect, Recovery, Store}
use agent_chat_bridge.Storage.Runs.Settlement.{Settlement, settled}
use agent_chat_bridge.Storage.Runs.Settlement.Laws.{IsEarned, settle_outbox-IsEarned}
use agent_chat_bridge.Storage.Runs.Claims.{RunClaim, lease_effect}
use agent_chat_bridge.Storage.Runs.Claims.Laws.{
  IsHandedOut, current_outbox, claim_outbox-IsHandedOut,
}
use agent_chat_bridge.Storage.Runs.Recoveries.{RecoveryVerdict}
use agent_chat_bridge.Storage.Runs.RecoveryQueue.{close, finish_recovery}
use agent_chat_bridge.Storage.Runs.RecoveryQueue.Laws.{finish_recovery-again}
use agent_chat_bridge.Storage.Runs.Witnesses.{hash_of, no_order, none_locked, a_job, two_runs}

abbrev an_effect : String → Option String → String → Option String → Effect
an_effect id predecessor status token = record {
  id = id;
  connection_id = "feishu";
  conversation_id = "oc";
  idempotency_key = id;
  kind = "reply";
  payload_hash = "p";
  payload = null;
  job_id = some "j3";
  predecessor_id = predecessor;
  platform_uuid = "u";
  status = status;
  attempts = 0;
  lease_owner = none;
  lease_token = token;
  lease_expires_at = some 100;
  first_attempt_at = none;
  next_attempt_at = 1;
  error_code = none;
  result = null;
  cleanup_pending = false;
  created_at = 1;
  updated_at = 1;
}

abbrev awaiting : RunJob
awaiting = a_job "j3" "reply_pending" "c"

abbrev before_settlement : Store
before_settlement = record (two_runs [] []) {
  jobs = awaiting ∷ [];
  outbox = an_effect "e1" none "running" (some "c") ∷ [];
}

abbrev sent : Settlement
sent = record { status = "sent"; result = null; error_code = none; next_attempt_at = none }

abbrev succeeded : RunJob
succeeded = record awaiting { status = "succeeded"; updated_at = 9 }

abbrev after_settlement : Store
after_settlement = record (two_runs [] []) {
  jobs = succeeded ∷ [];
  outbox = settled sent 9 (an_effect "e1" none "running" (some "c")) ∷ [];
}

settle_outbox-IsEarned_example : IsEarned before_settlement.jobs after_settlement.outbox succeeded
unfolding settle_outbox owned_effect required js_length find? one_of update
settle_outbox-IsEarned_example =
    settle_outbox-IsEarned "feishu" (record { id = "e1"; lease_token = "c" }) sent 9
      before_settlement after_settlement succeeded refl (inl refl) refl

abbrev chain : List Effect
chain = an_effect "e1" none "sent" none ∷ an_effect "e2" (some "e1") "pending" none ∷ []

abbrev worker : RunClaim
worker = record { owner = "w"; limit = 5; lease_ms = 1000 }

abbrev leased : Effect
leased = lease_effect "w" "tk" 1009 9 (an_effect "e2" (some "e1") "pending" none)

claim_outbox-IsHandedOut_example :
    IsHandedOut "tk" 1009 9 none_locked
      (current_outbox "feishu" no_order none_locked false 9 chain)
      leased
unfolding claim_outbox required js_length sort_by update predecessor_sent find?
claim_outbox-IsHandedOut_example =
    claim_outbox-IsHandedOut "feishu" no_order none_locked worker false "tk" 9 chain
      (an_effect "e1" none "sent" none ∷ leased ∷ []) (leased ∷ []) leased refl (inl refl)

abbrev asked : Recovery
asked = record {
  id = "r1";
  run_id = "j3";
  connection_id = "feishu";
  conversation_id = some "oc";
  caller_id = "admin";
  idempotency_key = "k";
  payload_hash = "p";
  action = "abandon_verified";
  expected_generation = 1;
  native_thread_id = none;
  native_turn_id = none;
  evidence = "seen";
  status = "running";
  lease_owner = some "w";
  lease_token = some "c";
  lease_expires_at = some 100;
  error_code = none;
  result_hash = none;
  created_at = 1;
  updated_at = 1;
}

abbrev rejection : RecoveryVerdict
rejection = record { outcome = "rejected"; error_code = none; verified = none }

abbrev before_verdict : Store
before_verdict = record (two_runs [] []) { recoveries = asked ∷ [] }

abbrev after_verdict : Store
after_verdict = record (two_runs [] []) { recoveries = close "feishu" rejection "h" 9 asked ∷ [] }

finish_recovery-again_example :
    finish_recovery "feishu" hash_of
      (record { id = "r1"; lease_token = "c" })
      rejection
      500
      after_verdict
    ≡ ok ("rejected", after_verdict)
unfolding finish_recovery recovery_field js_length one_of find? update
finish_recovery-again_example =
    finish_recovery-again hash_of "feishu" (record { id = "r1"; lease_token = "c" }) rejection 9 500
      before_verdict after_verdict "rejected" refl
