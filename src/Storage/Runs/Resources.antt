-- ===== src/Storage/Runs/Resources.antt =====
-- storage/resources.mjs: sealResourceRetirement and completeResourceRetirement, the durable marks
-- that the input and the output resources of a run may be deleted.
use agent_chat_bridge.Prelude.{
  ℕ, String, Bool, true, false, not, ◌&&◌, ◌||◌, Option, none, some, List, [], ◌∷◌, ◌==◌, ltb,
  if◌then◌else◌, or_else, is_text, find?, any, update, Result, ok, err, ◌>>=◌, ◌>>◌, ensure, one_of,
  invalid_retirement, retirement_conflict,
}
use agent_chat_bridge.Storage.ForwardJobs.{js_length}
use agent_chat_bridge.Storage.Runs.{RunJob, Attempt, ThreadOwner, Steer, Store, is_attempt, is_job}
use agent_chat_bridge.Storage.Runs.Leases.{is_owner, is_null}
use agent_chat_bridge.Storage.Runs.Jobs.{is_id}
use agent_chat_bridge.Storage.Runs.Attempts.{is_unresolved}
use agent_chat_bridge.Storage.Runs.Steering.{is_guidance, latest}

-- field
unfoldable pub retirement_field : String → ℕ → Result String
retirement_field value limit =
    if value == "" || ltb limit (js_length value) then err invalid_retirement else ok value

pub data ResourceKind : Type 0 where
  input output : ResourceKind

-- kindColumn
unfoldable pub resource_kind : String → Result ResourceKind
resource_kind kind =
    if kind == "input"
    then ok input
    else if kind == "output"
    then ok output
    else err invalid_retirement

abbrev pub state_of : ResourceKind → RunJob → String
state_of input j = j.input_resource_state
state_of output j = j.output_resource_state

abbrev pub with_state : ResourceKind → String → RunJob → RunJob
with_state input state j = record j { input_resource_state = state }
with_state output state j = record j { output_resource_state = state }

-- `terminal`
abbrev pub is_terminal : String → Bool
is_terminal s = one_of ("succeeded" ∷ "failed" ∷ "cancelled" ∷ "delivery_failed" ∷ []) s

-- The job of a row is not over.
abbrev pub is_live_run : String → List RunJob → Bool
is_live_run run jobs = any (λ j. j.id == run && not (is_terminal j.status)) jobs

abbrev pub steer_thread : Option Steer → Option String
steer_thread none = none
steer_thread (some s) = some s.native_thread_id

-- COALESCE(a.native_thread_id,s.native_thread_id)
abbrev pub thread_of : Option Attempt → Option Steer → Option String
thread_of none s = steer_thread s
thread_of (some a) s = elim a.native_thread_id [ some thread ↦ some thread | none ↦ steer_thread s ]

abbrev pub agent_of : Option Attempt → Option Steer → String
agent_of (some a) s = a.agent_id
agent_of none (some s) = s.agent_id
agent_of none none = ""

-- No session, unfinished run, guidance or recovery uses the thread.
unfoldable pub is_thread_unused : String → String → Store → Bool
is_thread_unused connection thread t =
    not (any (λ s. s.connection_id == connection && is_text s.native_thread_id thread) t.sessions)
    && not (
        any
          (λ a.
            a.connection_id == connection
            && is_text a.native_thread_id thread
            && is_live_run a.job_id t.jobs)
          t.attempts)
    && not (
        any
          (λ s.
            s.connection_id == connection
            && s.native_thread_id == thread
            && one_of ("intent" ∷ "unknown" ∷ "accepted" ∷ []) s.status
            && is_live_run s.guidance_job_id t.jobs)
          t.steering)
    && not (
        any
          (λ r.
            r.connection_id == connection
            && is_text r.native_thread_id thread
            && one_of ("pending" ∷ "running" ∷ []) r.status)
          t.recoveries)

abbrev pub thread_unused : String → Option String → Store → Bool
thread_unused connection none t = true
thread_unused connection (some thread) t = is_thread_unused connection thread t

-- facts: input_retirable and output_retirable
unfoldable pub is_retirable : ResourceKind → RunJob → Option String → Store → Bool
unfolding is_thread_unused
is_retirable input j thread t = is_terminal j.status && thread_unused j.connection_id thread t
is_retirable output j thread t =
    j.status == "succeeded"
    && not (
        any (λ e. is_text e.job_id j.id && (not (e.status == "sent") || e.cleanup_pending))
          t.outbox)

-- The thread has an owner, which is the job's conversation and agent.
unfoldable pub is_own_thread : RunJob → String → Option ThreadOwner → Bool
is_own_thread j agent none = false
is_own_thread j agent (some o) = o.conversation_id == j.conversation_id && o.agent_id == agent

unfoldable pub check_owner : ResourceKind → RunJob → String → Option String → Store → Bool
unfolding is_own_thread
check_owner output j agent thread t = true
check_owner input j agent none t = true
check_owner input j agent (some thread) t =
    thread == "" || is_own_thread j agent (find? (is_owner j.connection_id thread) t.owners)

-- A run of the conversation is active.
abbrev pub is_busy : RunJob → Store → Bool
is_busy j t =
    any
      (λ s.
        s.connection_id == j.connection_id
        && s.conversation_id == j.conversation_id
        && not (is_null s.active_run_id))
      t.sessions

-- A guidance of the conversation is unresolved.
abbrev pub is_guided_now : RunJob → Store → Bool
is_guided_now j t =
    any
      (λ s.
        s.connection_id == j.connection_id
        && s.conversation_id == j.conversation_id
        && is_unresolved s
        && any
            (λ g.
              g.id == s.guidance_job_id && one_of ("pending" ∷ "running" ∷ "unknown" ∷ []) g.status)
            t.jobs)
      t.steering

abbrev pub retire_owner : ℕ → ThreadOwner → ThreadOwner
retire_owner at o = record o { resource_retired_at = some (or_else o.resource_retired_at at) }

unfoldable pub retire_thread :
    ResourceKind → String → Option String → ℕ → List ThreadOwner → List ThreadOwner
retire_thread output connection thread at owners = owners
retire_thread input connection none at owners = owners
retire_thread input connection (some thread) at owners =
    if thread == "" then owners else update (is_owner connection thread) (retire_owner at) owners

-- locked
unfoldable pub locked_run : Option RunJob → Result RunJob
locked_run none = err retirement_conflict
locked_run (some j) = if j.kind == "agent" then ok j else err retirement_conflict

-- The seal of a run whose conversation is idle.
unfoldable pub seal_idle :
    ResourceKind → RunJob → Option String → ℕ → Store → Result (String × Store)
unfolding is_retirable retire_thread
seal_idle kind j thread at t =
    if state_of kind j == "sealed"
    then ok ("sealed", t)
    else ensure (is_retirable kind j thread t) retirement_conflict
      >> ok (
        "sealed",
        record t {
          owners = retire_thread kind j.connection_id thread at t.owners;
          jobs = update (is_id j.id) (with_state kind "sealed") t.jobs;
        },
      )

-- The state that a seal finds or leaves, on the run's job.
unfoldable pub seal_job : ResourceKind → RunJob → ℕ → Store → Result (String × Store)
unfolding check_owner seal_idle
seal_job kind j at t =
    let attempt = find? (is_attempt j.id) t.attempts in
    let steer = latest (is_guidance j.id) none t.steering in
    let thread = thread_of attempt steer in
    if state_of kind j == "complete"
    then ok ("complete", t)
    else ensure (check_owner kind j (agent_of attempt steer) thread t) retirement_conflict
      >> ensure (not (is_busy j t)) retirement_conflict
      >> ensure (not (is_guided_now j t)) retirement_conflict
      >> seal_idle kind j thread at t

module _ (connection : String) where
  -- sealResourceRetirement
  unfoldable pub seal_resource_retirement : String → String → ℕ → Store → Result (String × Store)
  unfolding locked_run seal_job resource_kind retirement_field
  seal_resource_retirement run_id kind at t = do
    run ← retirement_field run_id 36
    resource ← resource_kind kind
    job ← locked_run (find? (is_job connection run) t.jobs)
    seal_job resource job at t

  -- completeResourceRetirement
  unfoldable pub complete_resource_retirement : String → String → List RunJob → Result (List RunJob)
  unfolding locked_run resource_kind retirement_field
  complete_resource_retirement run_id kind jobs = do
    run ← retirement_field run_id 36
    resource ← resource_kind kind
    job ← locked_run (find? (is_job connection run) jobs)
    ensure (not (state_of resource job == "pending")) retirement_conflict
    ok (update (is_id run) (with_state resource "complete") jobs)
