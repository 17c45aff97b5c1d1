-- ===== src/Storage/ForwardJobs/Witnesses.antt =====
-- The theorems on forward jobs at concrete tables: two pending jobs, two workers, a question and a
-- stop.
mod Requests
use agent_chat_bridge.Prelude.{
  ℕ, String, true, false, none, some, [], ◌∷◌, In, All, inl, inr, err, ◌≡◌, ◌≢◌, refl, Edits, ◌+◌,
  or_else, job_conflict, arith, sort_by, one_of, update, affected, find?,
}
use agent_chat_bridge.Json.{
  Json, null, str, obj, arr, nil, Fields, end, field, get, set, remove, remove_all, merge_patch,
  merge_value, patch_member,
}
use agent_chat_bridge.Storage.ForwardJobs.{
  Job, pending, running, reply_pending, completed, required, js_length, safe_execution,
}
use agent_chat_bridge.Storage.ForwardJobs.Claims.{
  ClaimInput, start_lease, claim, take_over, candidates, is_claimable, by_time,
}
use agent_chat_bridge.Storage.ForwardJobs.Claims.Laws.{
  claim_exclusive, claim_granted, claim-skips_started,
}
use agent_chat_bridge.Storage.ForwardJobs.Leases.{
  lease_args, owned_update, holds_lease, finished, mark_reply_pending, mark_finished,
}
use agent_chat_bridge.Storage.ForwardJobs.Leases.Steps.{Accepted}
use agent_chat_bridge.Storage.ForwardJobs.Leases.Laws.{
  answers, finishes, lease_call, lease_call-Accepted,
}
use agent_chat_bridge.Storage.ForwardJobs.Leases.Documents.{Keeps, lease_call-Keeps}
use agent_chat_bridge.Storage.ForwardJobs.Register.{
  UpsertInput, upsert, request_key, request_fingerprint, new_job, cut, stored, insert_ignore,
  meets_key, has_key, registered,
}
use agent_chat_bridge.Storage.ForwardJobs.Register.Laws.{upsert_again}
use agent_chat_bridge.Storage.ForwardJobs.History.{StoreStep, claims, here, next}
use agent_chat_bridge.Storage.ForwardJobs.History.Laws.{
  IsSound, Remains, Reach-IsSound, Reach-Remains,
}

-- A pending job of the connection "feishu", made at time 5.
abbrev pub job_of : ℕ → String → Fields → Job
job_of n run result = record {
  id = n;
  connection_id = "feishu";
  public_run_id = run;
  request_key_hash = run;
  request_hash = "h";
  caller_id = "c";
  execution_namespace = "ns";
  delivery_mode = "bridge";
  message_id = run;
  source_message_id = none;
  chat_id = "oc";
  chat_type = "group";
  message_type = "text";
  sender_open_id = "";
  sender_union_id = "";
  sender_name = "";
  conversation_scope = "group";
  prompt = "hello";
  group_chat_context_json = null;
  context_entries_json = arr nil;
  status = pending;
  attempts = 0;
  reply_attempts = 0;
  lease_owner = "";
  lease_expires_at = none;
  feedback_cleanup_pending = false;
  feedback_cleanup_at = none;
  next_attempt_at = some 5;
  started_at = none;
  finished_at = none;
  reply_sent_at = none;
  result_json = result;
  last_error = "";
  created_at = 5;
  updated_at = 5;
}

abbrev job_1 : Job
job_1 = job_of 1 "r1" end

abbrev job_2 : Job
job_2 = job_of 2 "r2" end

-- A job whose record names a native turn.
abbrev job_3 : Job
job_3 = job_of 3 "r3" (field "execution" (obj (field "turnId" (str "t") end)) end)

abbrev worker : String → ClaimInput
worker name = record { owner = name; lease_time = 0; limit = 1 }

abbrev leased_1 : Job
leased_1 = start_lease "w1" 60010 10 job_1

abbrev leased_2 : Job
leased_2 = start_lease "w2" 60020 20 job_2

claim_exclusive_example : leased_1.id ≢ leased_2.id
unfolding claim required js_length take_over candidates sort_by is_claimable safe_execution get
    one_of by_time update start_lease
claim_exclusive_example =
    claim_exclusive "feishu" (worker "w1") (worker "w2") (λ j. false) (λ j. false) 10 20
      (job_1 ∷ job_2 ∷ []) (leased_1 ∷ [], leased_1 ∷ job_2 ∷ [])
      (leased_2 ∷ [], leased_1 ∷ leased_2 ∷ []) leased_1 leased_2 (ground arith) refl refl
      (ground arith) (inl refl) (inl refl)

claim_granted_example :
    In leased_1 (leased_1 ∷ job_2 ∷ [])
    × (leased_1.status ≡ running)
    × (leased_1.lease_owner ≡ "w1")
    × (leased_1.lease_expires_at ≡ some 60010)
    × ((j : Job) × In j (job_1 ∷ job_2 ∷ [])
        × (false ≡ false)
        × (leased_1.id ≡ j.id)
        × (leased_1.attempts ≡ j.attempts + 1)
        × (leased_1.started_at ≡ some (or_else j.started_at 10)))
unfolding claim required js_length take_over candidates sort_by is_claimable safe_execution get
    one_of by_time update start_lease
claim_granted_example =
    claim_granted "feishu" (worker "w1") (λ j. false) 10 (job_1 ∷ job_2 ∷ [])
      (leased_1 ∷ [], leased_1 ∷ job_2 ∷ []) leased_1 (ground arith) refl (inl refl)

claim-skips_started_example :
    In job_3 (job_3 ∷ leased_1 ∷ []) × All (λ (k : Job). k.id ≢ 3) (leased_1 ∷ [])
unfolding claim required js_length take_over candidates sort_by is_claimable safe_execution get
    one_of by_time update start_lease
claim-skips_started_example =
    claim-skips_started "feishu" (worker "w1") (λ j. false) 10 (job_3 ∷ job_1 ∷ [])
      (leased_1 ∷ [], job_3 ∷ leased_1 ∷ []) job_3 (ground arith) refl (inl refl)
      (inr (inr (inl (str "t", refl))))

abbrev reply : Fields
reply = field "stop" null (field "text" (str "hi") end)

abbrev answered_1 : Job
answered_1 = record leased_1 {
  status = reply_pending;
  result_json = field "text" (str "hi") end;
  lease_expires_at = some 20;
  updated_at = 20;
}

lease_call-Accepted_example : Accepted "feishu" "r1" "w1" 20 (leased_1 ∷ []) (answered_1 ∷ [])
unfolding lease_call mark_reply_pending lease_args owned_update holds_lease update affected required
    js_length start_lease merge_patch remove_all remove set get patch_member merge_value
lease_call-Accepted_example =
    lease_call-Accepted "feishu" "r1" "w1" 20 (answers reply none "") (leased_1 ∷ [])
      (answered_1 ∷ []) refl

-- A job whose reply is being sent, with a stop on record.
abbrev replying_1 : Job
replying_1 = record job_1 {
  status = reply_pending;
  lease_owner = "w1";
  lease_expires_at = some 60010;
  result_json = field "stop" (str "s") end;
}

abbrev finished_1 : Job
finished_1 = record replying_1 {
  status = completed;
  result_json = field "stop" (str "s") (field "text" (str "hi") end);
  finished_at = some 30;
  reply_sent_at = some 30;
  lease_owner = "";
  lease_expires_at = none;
  updated_at = 30;
}

lease_call-Keeps_example : Edits (Keeps "stop") (replying_1 ∷ []) (finished_1 ∷ [])
unfolding lease_call one_of mark_finished lease_args owned_update holds_lease update affected
    required js_length finished merge_patch remove_all remove set get patch_member merge_value
lease_call-Keeps_example =
    lease_call-Keeps "feishu" "r1" "w1" 30 (finishes completed reply "" true) "stop"
      (replying_1 ∷ []) (finished_1 ∷ []) refl refl

-- A digest that keeps a text and forgets all else.
abbrev digest_example : Json → String
digest_example (str s) = s
digest_example _ = "h"

abbrev request : String → UpsertInput
request hash = record {
  caller_id = "c";
  idempotency_key = "k";
  request_hash = hash;
  conversation_id = "oc";
  message_id = "om";
  source_message_id = "";
  execution_namespace = "ns";
  delivery_mode = "";
  chat_type = "p2p";
  message_type = "";
  sender_open_id = "";
  sender_union_id = "";
  sender_name = "";
  prompt = "hello";
  group_chat_context = none;
  context_entries = none;
  next_attempt_at = none;
  binding_open_id = "";
  initial_result = end;
}

abbrev upserted : Job
upserted = new_job digest_example "feishu" (request "h1") "c" "c\0k" "h1" "om" "oc" "r1" 1 5

upsert_again_example :
    upsert digest_example "feishu" (request "h2") "r2" 2 6 (upserted ∷ []) ≡ err job_conflict
unfolding upsert request_key request_fingerprint new_job cut stored insert_ignore meets_key has_key
    registered required js_length find?
upsert_again_example =
    upsert_again digest_example "feishu" (request "h1") (request "h2") "r1" "r2" 1 2 5 6 []
      (upserted ∷ []) upserted false refl (refl, refl, refl, refl) refl refl

jobs_1-IsSound : IsSound (job_1 ∷ job_2 ∷ [])
jobs_1-IsSound = record {
  distinct = ground arith;
  well_formed = ((refl, refl, refl, refl), ((refl, refl, refl, refl), tt));
}

claims_1 : StoreStep digest_example "feishu" (job_1 ∷ job_2 ∷ []) (leased_1 ∷ job_2 ∷ [])
unfolding claim required js_length take_over candidates sort_by is_claimable safe_execution get
    one_of by_time update start_lease
claims_1 = claims (worker "w1") (λ j. false) 10 (leased_1 ∷ []) refl

Reach-IsSound_example : IsSound (leased_1 ∷ job_2 ∷ [])
Reach-IsSound_example =
    Reach-IsSound digest_example "feishu" (job_1 ∷ job_2 ∷ []) (leased_1 ∷ job_2 ∷ [])
      (next here claims_1) jobs_1-IsSound

Reach-Remains_example : (k : Job) × In k (leased_1 ∷ job_2 ∷ []) × Remains job_1 k
Reach-Remains_example =
    Reach-Remains digest_example "feishu" job_1 (job_1 ∷ job_2 ∷ []) (leased_1 ∷ job_2 ∷ [])
      (next here claims_1) jobs_1-IsSound (inl refl)
