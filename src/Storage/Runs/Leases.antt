-- ===== src/Storage/Runs/Leases.antt =====
-- storage/store.mjs: lease, owned, claimThread and releaseAttempt, which the operations on a run share.
pub mod Laws
pub mod Fence
use agent_chat_bridge.Prelude.{
  ℕ, String, Bool, true, false, ◌&&◌, Option, none, some, List, ◌==◌, nat_eq, ltb, if◌then◌else◌,
  is_text, later_than, find?, insert_once, update, affected, Result, ok, err, ◌>>=◌, ◌>>◌, ensure,
  stale_lease, session_conflict, resource_retired, thread_scope_conflict, store_unavailable,
}
use agent_chat_bridge.Storage.ForwardJobs.{required}
use agent_chat_bridge.Storage.Rotation.{BridgeSession}
use agent_chat_bridge.Storage.Runs.{
  RunJob, Effect, Attempt, ThreadOwner, Store, is_attempt, is_session_of, is_job, is_effect,
}

-- A row under the lease that a caller names: `Number(null)` has always expired.
abbrev pub is_leased : String → ℕ → Option String → String → Option ℕ → Bool
is_leased token at lease_token status expires_at =
    is_text lease_token token && status == "running" && later_than expires_at at

unfoldable pub holds_job : String → ℕ → Option RunJob → Result RunJob
holds_job token at none = err stale_lease
holds_job token at (some j) =
    if is_leased token at j.lease_token j.status j.lease_expires_at then ok j else err stale_lease

unfoldable pub holds_effect : String → ℕ → Option Effect → Result Effect
holds_effect token at none = err stale_lease
holds_effect token at (some e) =
    if is_leased token at e.lease_token e.status e.lease_expires_at then ok e else err stale_lease

-- The lease that a caller names.
pub record LeaseInput : Type 0 where
  pub id : String
  pub lease_token : String

-- lease
unfoldable pub lease : LeaseInput → Result (Unit {0})
lease input = do id ← required input.id 36; token ← required input.lease_token 36; ok tt

-- owned, of bridge_jobs
unfoldable pub owned_job : String → LeaseInput → ℕ → List RunJob → Result RunJob
unfolding lease holds_job
owned_job connection input at jobs =
    lease input >> holds_job input.lease_token at (find? (is_job connection input.id) jobs)

-- owned, of bridge_outbox
unfoldable pub owned_effect : String → LeaseInput → ℕ → List Effect → Result Effect
unfolding lease holds_effect
owned_effect connection input at outbox =
    lease input >> holds_effect input.lease_token at (find? (is_effect connection input.id) outbox)

-- WHERE connection_id=? AND native_thread_id=?
abbrev pub is_owner : String → String → ThreadOwner → Bool
is_owner connection thread o = o.connection_id == connection && o.native_thread_id == thread

abbrev pub is_null {ℓ} : {A : Type ℓ} → Option A → Bool
is_null none = true
is_null (some a) = false

-- The row of the thread is this conversation's, and its resources are not retired. There is always a
-- row: it was inserted before.
unfoldable pub admits_owner : String → String → Option ThreadOwner → Result (Unit {0})
admits_owner conversation agent none = err store_unavailable
admits_owner conversation agent (some o) = do
  ensure (is_null o.resource_retired_at) resource_retired
  ensure (o.conversation_id == conversation && o.agent_id == agent) thread_scope_conflict

abbrev pub new_owner : String → String → String → String → ThreadOwner
new_owner connection conversation agent thread = record {
  connection_id = connection;
  native_thread_id = thread;
  conversation_id = conversation;
  agent_id = agent;
  resource_retired_at = none;
}

-- claimThread: the owners after it
unfoldable pub claim_thread :
    String → String → String → Option String → List ThreadOwner → Result (List ThreadOwner)
unfolding admits_owner
claim_thread connection conversation agent none owners = ok owners
claim_thread connection conversation agent (some id) owners = do
  thread ← required id 255
  let claimed =
      insert_once (is_owner connection thread) (new_owner connection conversation agent thread)
        owners
  admits_owner conversation agent (find? (is_owner connection thread) claimed)
  ok claimed

-- The session that releaseAttempt frees.
abbrev pub is_active_session : Attempt → String → BridgeSession → Bool
is_active_session a job s =
    is_session_of a.connection_id a.conversation_id a.agent_id s
    && nat_eq s.generation a.generation
    && is_text s.active_run_id job

unfoldable pub release_on : Option Attempt → String → ℕ → Store → Result Store
release_on none job at t = ok t
release_on (some a) job at t =
    if ltb 0 (affected (is_active_session a job) t.sessions)
    then ok (record t {
      sessions =
          update (is_active_session a job) (λ s. record s { active_run_id = none; updated_at = at })
            t.sessions;
    })
    else err session_conflict

-- releaseAttempt
unfoldable pub release_attempt : String → ℕ → Store → Result Store
unfolding release_on
release_attempt job at t = release_on (find? (is_attempt job) t.attempts) job at t
