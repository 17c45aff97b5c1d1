-- ===== src/Storage/Runs/Calls.antt =====
-- storage/store.mjs: the operations of the object that createMysqlStore returns which write the
-- tables of a run, as calls that come one after another. `before` and `locked` are those of Claims;
-- `fresh` gives the UUIDs that a call takes. An event that is taken in is a call with the tables of
-- events that it finds, whatever they are.
pub mod Keeps
mod Writes
mod Guides
mod Rotations
pub mod History
use agent_chat_bridge.Prelude.{ℕ, String, Bool, Option, List, [], ◌∷◌, Result, ok, err, ◌>>=◌}
use agent_chat_bridge.Json.{Json}
use agent_chat_bridge.Storage.Rotation.{RotateInput, rotate_idle_session}
use agent_chat_bridge.Storage.Runs.{Store}
use agent_chat_bridge.Storage.Runs.Inbound.{InboundInput, Intake}
use agent_chat_bridge.Storage.Runs.Accept.{accept_inbound}
use agent_chat_bridge.Storage.Runs.Leases.{LeaseInput}
use agent_chat_bridge.Storage.Runs.Jobs.{
  JobInput, insert_job, renew_job, hold_agent_attempt, retry_job,
}
use agent_chat_bridge.Storage.Runs.Outbox.{EffectInput, insert_outbox}
use agent_chat_bridge.Storage.Runs.Settlement.{
  RunEffect, Settlement, finish_job_with_outbox, settle_outbox, complete_outbox_cleanup,
}
use agent_chat_bridge.Storage.Runs.Claims.{RunClaim, claim_jobs, claim_outbox}
use agent_chat_bridge.Storage.Runs.Attempts.{BindInput, begin_agent_attempt, bind_agent_attempt}
use agent_chat_bridge.Storage.Runs.Sessions.{
  SessionInput, RejectedInput, set_session, reset_session, reset_rejected_thread_admission,
}
use agent_chat_bridge.Storage.Runs.Steering.{begin_steer_attempt}
use agent_chat_bridge.Storage.Runs.SteerResults.{SteerResult, finish_steer_attempt}
use agent_chat_bridge.Storage.Runs.Recoveries.{RecoveryInput, RecoveryVerdict}
use agent_chat_bridge.Storage.Runs.RecoveryQueue.{
  enqueue_recovery, claim_recoveries, finish_recovery,
}
use agent_chat_bridge.Storage.Runs.Resources.{
  seal_resource_retirement, complete_resource_retirement,
}

pub data StoreCall : Type 0 where
  enqueue : JobInput → String → ℕ → StoreCall
  record_effect : EffectInput → String × String → StoreCall
  take_jobs : RunClaim → String → String → StoreCall
  take_effects : RunClaim → Bool → String → StoreCall
  renew : LeaseInput → ℕ → StoreCall
  finish : LeaseInput → (ℕ → String × String) → List RunEffect → Json → StoreCall
  hold : LeaseInput → String → StoreCall
  retry : LeaseInput → Bool → Option ℕ → String → StoreCall
  settle : LeaseInput → Settlement → StoreCall
  clean : String → String → StoreCall
  begin : LeaseInput → String → StoreCall
  bind : BindInput → StoreCall
  assign : SessionInput → StoreCall
  reset : SessionInput → StoreCall
  reject : RejectedInput → String → StoreCall
  guide : LeaseInput → String → StoreCall
  guided : LeaseInput → SteerResult → StoreCall
  request : RecoveryInput → String → StoreCall
  take_requests : String → ℕ → ℕ → (ℕ → String) → StoreCall
  decide : LeaseInput → RecoveryVerdict → StoreCall
  seal : String → String → StoreCall
  complete : String → String → StoreCall
  rotate : RotateInput → String → StoreCall
  receive : InboundInput → String → ℕ → (ℕ → String × ℕ) → Intake → StoreCall

-- The tables that an operation with an answer leaves.
abbrev pub tables : {A : Type 0} → Result (A × Store) → Result Store
tables (ok (answer, t)) = ok t
tables (err e) = err e

-- A transaction commits, or is rolled back.
abbrev pub committed : Store → Result Store → Store
committed t (ok t') = t'
committed t (err e) = t

module _ (digest : Json → String) (connection : String) (before : String → String → Bool)
    (locked : String → Bool) where
  unfoldable pub call_tables : StoreCall → ℕ → Store → Result Store
  call_tables (enqueue input id sequence) at t =
      insert_job digest input id sequence at t.jobs >>= λ r. ok (record t { jobs = r.1 })
  call_tables (record_effect input fresh) at t =
      insert_outbox digest input fresh at t.jobs t.outbox >>= λ r. ok (record t { outbox = r.1 })
  call_tables (take_jobs input kind token) at t =
      claim_jobs connection before locked input kind token at t.jobs >>= λ r.
      ok (record t { jobs = r.1 })
  call_tables (take_effects input expiring token) at t =
      claim_outbox connection before locked input expiring token at t.outbox >>= λ r.
      ok (record t { outbox = r.1 })
  call_tables (renew input lease_ms) at t = renew_job connection input lease_ms at t
  call_tables (finish input fresh effects result) at t =
      tables (finish_job_with_outbox digest fresh connection input effects result at t)
  call_tables (hold input code) at t = hold_agent_attempt connection input code at t
  call_tables (retry input terminal next code) at t =
      retry_job connection input terminal next code at t
  call_tables (settle input settlement) at t = settle_outbox connection input settlement at t
  call_tables (clean conversation id) at t =
      complete_outbox_cleanup connection conversation id t.outbox >>= λ r.
      ok (record t { outbox = r })
  call_tables (begin input agent) at t = tables (begin_agent_attempt connection input agent at t)
  call_tables (bind input) at t = bind_agent_attempt connection input at t
  call_tables (assign input) at t = tables (set_session connection input at t)
  call_tables (reset input) at t = tables (reset_session connection input at t)
  call_tables (reject input id) at t =
      tables (reset_rejected_thread_admission digest connection input id at t)
  call_tables (guide input agent) at t = tables (begin_steer_attempt connection input agent at t)
  call_tables (guided input result) at t =
      tables (finish_steer_attempt digest connection input result at t)
  call_tables (request input id) at t = tables (enqueue_recovery connection digest input id at t)
  call_tables (take_requests owner limit lease_ms fresh) at t =
      claim_recoveries connection before locked owner limit lease_ms fresh at t.recoveries >>= λ r.
      ok (record t { recoveries = r.1 })
  call_tables (decide input v) at t = tables (finish_recovery connection digest input v at t)
  call_tables (seal run kind) at t = tables (seal_resource_retirement connection run kind at t)
  call_tables (complete run kind) at t =
      complete_resource_retirement connection run kind t.jobs >>= λ r. ok (record t { jobs = r })
  call_tables (rotate input id) at t =
      rotate_idle_session digest input id at
        (record { sessions = t.sessions; rotations = t.rotations })
      >>= λ r. ok (record t { sessions = r.1.sessions; rotations = r.1.rotations })
  call_tables (receive input id sequence fresh events) at t =
      accept_inbound digest input id sequence fresh at (record events { jobs = t.jobs }) >>= λ r.
      ok (record t { jobs = r.1.jobs })

  -- A call at a reading of the clock: a call that throws changes nothing.
  unfoldable pub perform_call : StoreCall × ℕ → Store → Store
  perform_call (call, at) t = committed t (call_tables call at t)

  -- The tables after some calls.
  unfoldable pub perform_all : List (StoreCall × ℕ) → Store → Store
  unfolding perform_call
  perform_all [] t = t
  perform_all (c ∷ cs) t = perform_all cs (perform_call c t)
