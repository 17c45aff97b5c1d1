-- ===== src/Storage/Runs/RecoveryQueue.antt =====
-- storage/recovery.mjs: enqueueRecovery, claimRecoveries, finishRecovery and their target. `before`
-- is the order of ids in the database, `locked` tells the ids of the rows that another transaction
-- holds.
pub mod Laws
use agent_chat_bridge.Prelude.{
  ℕ, suc, ◌+◌, String, Bool, true, false, not, ◌&&◌, ◌||◌, Option, none, some, List, [], ◌∷◌, ◌==◌,
  nat_eq, ltb, leb, at_most, if◌then◌else◌, is_text, later_than, find?, filter, take, sort_by,
  insert_once, update, Result, ok, err, ◌>>=◌, ◌>>◌, ensure, one_of, invalid_recovery,
  recovery_conflict, recovery_not_found, stale_lease, resource_retired, store_unavailable,
}
use agent_chat_bridge.Json.{Json}
use agent_chat_bridge.Storage.Runs.{Recovery, Store, ThreadOwner, is_attempt, is_job}
use agent_chat_bridge.Storage.Runs.Leases.{LeaseInput}
use agent_chat_bridge.Storage.Runs.Jobs.{is_lease_time}
use agent_chat_bridge.Storage.Runs.Outbox.{is_given}
use agent_chat_bridge.Storage.Runs.Steering.{is_guidance, latest}
use agent_chat_bridge.Storage.Runs.Recoveries.{
  recovery_field, optional_field, RecoveryInput, RecoveryTarget, guidance_target, attempt_target,
  target_connection, target_conversation, is_unretired, recovery_payload, new_recovery,
  RecoveryReceipt, RecoveryVerdict, verdict_payload, check_verified, check_error, apply_recovery,
}

abbrev pub guidance_action : String
guidance_action = "abandon_guidance_verified"

-- The input of a request: limits, and the turn that each action needs or must not name.
unfoldable pub check_request : RecoveryInput → Result (Unit {0})
unfolding recovery_field optional_field
check_request input = do
  run ← recovery_field input.run_id 36
  caller ← recovery_field input.caller_id 128
  key ← recovery_field input.idempotency_key 255
  ensure
      (one_of ("adopt_turn" ∷ "abandon_verified" ∷ guidance_action ∷ []) input.action
        && ltb 0 input.expected_generation
        && ltb input.expected_generation 100000000000000000000)
      invalid_recovery
  evidence ← recovery_field input.evidence 4096
  thread ← optional_field input.native_thread_id 255
  turn ← optional_field input.native_turn_id 255
  ensure (not (input.action == guidance_action && (is_given thread || is_given turn)))
      invalid_recovery
  ensure (not (input.action == "adopt_turn" && (not (is_given thread) || not (is_given turn))))
      invalid_recovery

abbrev pub is_recovery : String → String → Recovery → Bool
is_recovery connection id r = r.id == id && r.connection_id == connection

module _ (connection : String) where
  abbrev pub is_recovery_key : RecoveryInput → Recovery → Bool
  is_recovery_key input r =
      r.connection_id == connection
      && r.caller_id == input.caller_id
      && r.idempotency_key == input.idempotency_key

  -- target
  unfoldable pub target : String → ℕ → String → Store → Result RecoveryTarget
  unfolding guidance_target attempt_target
  target run generation action t =
      let job = find? (is_job connection run) t.jobs in
      if action == guidance_action
      then guidance_target generation job (latest (is_guidance run) none t.steering)
      else attempt_target run generation job (find? (is_attempt run) t.attempts) t.sessions

  abbrev pub is_request_owner : RecoveryInput → ThreadOwner → Bool
  is_request_owner input o =
      o.connection_id == connection && is_text input.native_thread_id o.native_thread_id

  -- A new request, whose row is in the table already.
  unfoldable pub admit_request : RecoveryInput → String → Store → Result (RecoveryReceipt × Store)
  unfolding target
  admit_request input id t = do
    found ← target input.run_id input.expected_generation input.action t
    ensure (target_connection found == connection) recovery_conflict
    ensure
        (not (input.action == "adopt_turn")
          || is_unretired (find? (is_request_owner input) t.owners))
        resource_retired
    ok (
      record { id = id; duplicate = false },
      record t {
        recoveries =
            update (is_recovery connection id)
              (λ r. record r { conversation_id = some (target_conversation found) }) t.recoveries;
      },
    )

  -- What follows the INSERT of the request.
  unfoldable pub enqueued :
      RecoveryInput → String → String → Option Recovery → Store → Result (RecoveryReceipt × Store)
  unfolding admit_request
  enqueued input payload_hash id none t = err store_unavailable
  enqueued input payload_hash id (some r) t =
      if not (r.payload_hash == payload_hash)
      then err recovery_conflict
      else if not (r.id == id)
      then ok (record { id = r.id; duplicate = true }, t)
      else admit_request input id t

  module _ (digest : Json → String) where
    -- enqueueRecovery
    unfoldable pub enqueue_recovery :
        RecoveryInput → String → ℕ → Store → Result (RecoveryReceipt × Store)
    unfolding check_request enqueued
    enqueue_recovery input id at t =
        check_request input
        >> let payload_hash = digest (recovery_payload input) in
          let rows =
            insert_once (is_recovery_key input) (new_recovery connection input payload_hash id at)
              t.recoveries in
          enqueued input payload_hash id (find? (is_recovery_key input) rows)
            (record t { recoveries = rows })

  module _ (before : String → String → Bool) (locked : String → Bool) where
    abbrev pub is_claimable_recovery : ℕ → Recovery → Bool
    is_claimable_recovery at r =
        r.connection_id == connection
        && (r.status == "pending" || r.status == "running" && at_most r.lease_expires_at at)

    abbrev pub by_age : Recovery → Recovery → Bool
    by_age a b =
        ltb a.created_at b.created_at || nat_eq a.created_at b.created_at && before a.id b.id

    abbrev pub lease_recovery : String → String → ℕ → ℕ → Recovery → Recovery
    lease_recovery owner token until at r = record r {
      status = "running";
      lease_owner = some owner;
      lease_token = some token;
      lease_expires_at = some until;
      updated_at = at;
    }

    -- The loop of claimRecoveries: the n-th row takes the token `fresh n`.
    unfoldable pub lease_each :
        String
        → (ℕ → String)
        → ℕ
        → ℕ
        → ℕ
        → List Recovery
        → List Recovery
        → List Recovery × List Recovery
    lease_each owner fresh until at n [] rows = ([], rows)
    lease_each owner fresh until at n (r ∷ rs) rows =
        let leased = lease_recovery owner (fresh n) until at in
        let rest =
          lease_each owner fresh until at (suc n) rs
            (update (is_recovery connection r.id) leased rows) in
        (leased r ∷ rest.0, rest.1)

    -- claimRecoveries; the limit is 50 where the input has none
    unfoldable pub claim_recoveries :
        String → ℕ → ℕ → (ℕ → String) → ℕ → List Recovery → Result (List Recovery × List Recovery)
    unfolding lease_each
    claim_recoveries owner limit lease_ms fresh at rows = do
      ensure (leb 1 limit && leb limit 100 && is_lease_time lease_ms) invalid_recovery
      worker ← recovery_field owner 128
      let chosen =
          take limit
            (sort_by by_age (filter (λ r. is_claimable_recovery at r && not (locked r.id)) rows))
      ok (lease_each worker fresh (at + lease_ms) at 0 chosen rows)

  abbrev pub close : RecoveryVerdict → String → ℕ → Recovery → Recovery
  close v payload_hash at r = record r {
    status = v.outcome;
    error_code = v.error_code;
    result_hash = some payload_hash;
    updated_at = at;
  }

  -- What the verdict does to the target; a rejected recovery does nothing to it.
  unfoldable pub apply_verdict : RecoveryVerdict → ℕ → Recovery → Store → Result Store
  unfolding target apply_recovery
  apply_verdict v at r t =
      if v.outcome == "applied"
      then (target r.run_id r.expected_generation r.action t >>= λ found.
          apply_recovery r v at found t)
      else ok t

  -- finishRecovery on the row of the recovery, which its lease names
  unfoldable pub finish_leased :
      RecoveryVerdict → String → ℕ → Recovery → Store → Result (String × Store)
  unfolding apply_verdict
  finish_leased v payload_hash at r t =
      if one_of ("applied" ∷ "rejected" ∷ []) r.status
      then ensure (is_text r.result_hash payload_hash) recovery_conflict >> ok (r.status, t)
      else ensure (r.status == "running" && later_than r.lease_expires_at at) stale_lease
        >> apply_verdict v at r t
        >>= λ applied. ok (
          v.outcome,
          record applied {
            recoveries = update (λ x. x.id == r.id) (close v payload_hash at) applied.recoveries;
          },
        )

  unfoldable pub finish_found :
      String → RecoveryVerdict → String → ℕ → Option Recovery → Store → Result (String × Store)
  unfolding finish_leased
  finish_found token v payload_hash at none t = err recovery_not_found
  finish_found token v payload_hash at (some r) t =
      ensure (is_text r.lease_token token) stale_lease >> finish_leased v payload_hash at r t

  module _ (digest : Json → String) where
    -- finishRecovery
    unfoldable pub finish_recovery :
        LeaseInput → RecoveryVerdict → ℕ → Store → Result (String × Store)
    unfolding finish_found check_error check_verified
    finish_recovery input v at t = do
      id ← recovery_field input.id 36
      token ← recovery_field input.lease_token 36
      ensure (one_of ("applied" ∷ "rejected" ∷ []) v.outcome) invalid_recovery
      check_error v.error_code
      check_verified v.verified
      finish_found token v (digest (verdict_payload v)) at
          (find? (is_recovery connection id) t.recoveries) t

  -- getRecovery
  unfoldable pub get_recovery : String → List Recovery → Result (Option Recovery)
  get_recovery id rows = do
    checked ← recovery_field id 36
    ok (find? (is_recovery connection checked) rows)
