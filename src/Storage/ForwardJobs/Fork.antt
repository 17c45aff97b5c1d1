-- ===== src/Storage/ForwardJobs/Fork.antt =====
-- storage/forward-jobs.mjs: beginFork and finishFork, which move a busy conversation to a copy of its
-- thread. `at` stands for the readings of the clock within one operation.
pub mod Steps
pub mod Laws
use agent_chat_bridge.Prelude.{
  ℕ, String, Bool, true, false, not, ◌&&◌, ◌||◌, Option, none, some, List, [], ◌∷◌, ◌==◌, nat_eq,
  if◌then◌else◌, or_else, text_or, Result, ok, err, ◌>>=◌, ◌>>◌, ensure, one_of, is_text, find?,
  update, invalid_store_input, store_unavailable,
}
use agent_chat_bridge.Json.{
  Json, null, str, num, Fields, obj, end, field, get, set, members, text_of, or_text, truthy,
}
use agent_chat_bridge.Storage.ForwardJobs.{Job, Status, failed, required, is_run}

-- A row of assistant_codex_sessions: the thread that a person's or a group's chat is bound to.
pub record Session : Type 0 where
  pub connection_id : String
  pub feishu_open_id : String
  pub chat_id : String
  pub codex_session_id : String
  pub updated_at : ℕ
  pub last_error : String

pub record Tables : Type 0 where
  pub jobs : List Job
  pub sessions : List Session

-- `{ outcome, … }`
pub data Outcome : Type 0 where
  not_found stale already_finished : Outcome
  replay blocked fresh : Json → Outcome
  settled : String → Json → Outcome

-- UPDATE … SET result_json=?,updated_at=? WHERE connection_id=? AND public_run_id=?
unfoldable pub write_result : String → String → Fields → ℕ → List Job → List Job
write_result connection run document at =
    update (is_run connection run) (λ j. record j { result_json = document; updated_at = at })

abbrev pub is_failed : Status → Bool
is_failed failed = true
is_failed _ = false

abbrev pub is_binding : String → String → String → Session → Bool
is_binding connection open_id chat s =
    s.connection_id == connection && s.feishu_open_id == open_id && s.chat_id == chat

pub record ForkInput : Type 0 where
  pub source_thread_id : String
  pub binding_open_id : String
  pub chat_id : String
  pub message_id : String
  pub card_message_id : String
  pub actor : String
  pub operation_id : String

-- What the card promised when it offered the fork: the checks of beginFork before the replay.
unfoldable pub offers_fork : ForkInput → Job → Bool
offers_fork input found =
    let candidate = members (get "busyFork" found.result_json) in
    let card = members (get "executionCard" found.result_json) in
    is_failed found.status
    && found.last_error == "CODEX_THREAD_BUSY"
    && found.message_id == input.message_id
    && is_text (or_text (get "chatId" candidate) found.chat_id) input.chat_id
    && is_text (text_of (get "messageId" card)) input.card_message_id
    && is_text (text_of (get "sourceThreadId" candidate)) input.source_thread_id
    && is_text (text_of (get "bindingOpenId" candidate)) input.binding_open_id

-- `binding?.codex_session_id === threadId`
abbrev pub is_bound : Option Session → String → Bool
is_bound none thread = false
is_bound (some s) thread = s.codex_session_id == thread

abbrev pub new_fork : String → String → String → ℕ → Fields
new_fork source actor operation at = field "sourceThreadId" (str source) (
    field "actor" (str actor) (
      field "operationId" (str operation)
        (field "status" (str "pending") (field "intentAt" (num at) end))))

-- The statuses of a result: `succeeded`, `failed`, `unknown`.
pub data ForkStatus : Type 0 where
  succeeded refused unknown : ForkStatus

pub record ForkResult : Type 0 where
  pub operation_id : String
  pub status : ForkStatus
  pub target_thread_id : String
  pub error_code : String

-- A value bound to a placeholder: the driver refuses `undefined`; what is no text matches no text.
abbrev pub bind_text : Option Json → Result (Option String)
bind_text none = err store_unavailable
bind_text (some v) = ok (text_of (some v))

abbrev pub find_binding : String → Option String → Option String → List Session → Option Session
find_binding connection (some open_id) (some chat) sessions =
    find? (is_binding connection open_id chat) sessions
find_binding connection _ _ sessions = none

abbrev pub close_fork : String → String → ℕ → Fields → Fields
close_fork status target at fork =
    set "finishedAt" (num at) (set "targetThreadId" (str target) (set "status" (str status) fork))

abbrev pub status_word : ForkStatus → String
status_word succeeded = "succeeded"
status_word refused = "failed"
status_word unknown = "unknown"

abbrev pub with_target : String → Fields → Fields
with_target target fork = if target == "" then fork else set "targetThreadId" (str target) fork

-- `binding?.codex_session_id === fork.sourceThreadId`
abbrev pub still_bound : Option Session → Option String → Bool
still_bound none source = false
still_bound (some s) source = is_text source s.codex_session_id

-- The statements that settle a fork: the new fork, and the sessions after the move.
module _ (connection : String) (at : ℕ) (document fork : Fields) (input : ForkResult) where
  unfoldable pub rebind : Option String → Option String → List Session → List Session
  rebind (some open_id) (some chat) sessions =
      update
        (λ s.
          is_binding connection open_id chat s
          && is_text (text_of (get "sourceThreadId" fork)) s.codex_session_id)
        (λ s. record s {
          codex_session_id = input.target_thread_id;
          updated_at = at;
          last_error = "";
        })
        sessions
  rebind _ _ sessions = sessions

  unfoldable pub settle_success : String → List Session → Result (Fields × List Session)
  unfolding rebind
  settle_success target sessions = do
    ensure (not (target == "") && not (is_text (text_of (get "sourceThreadId" fork)) target))
        invalid_store_input
    let candidate = members (get "busyFork" document)
    open_id ← bind_text (get "bindingOpenId" candidate)
    chat ← bind_text (get "chatId" candidate)
    let source = text_of (get "sourceThreadId" fork)
    ok (
        if still_bound (find_binding connection open_id chat sessions) source
        then (close_fork "succeeded" target at fork, rebind open_id chat sessions)
        else (close_fork "superseded" target at fork, sessions))

  unfoldable pub settle_failure : String → List Session → Result (Fields × List Session)
  settle_failure target sessions = do
    code ← required (text_or input.error_code "fork_failed") 64
    ok (
      set "finishedAt" (num at) (
          with_target target
            (set "errorCode" (str code) (set "status" (str (status_word input.status)) fork))),
      sessions,
    )

  unfoldable pub settle : ForkStatus → String → List Session → Result (Fields × List Session)
  unfolding settle_success settle_failure
  settle succeeded target sessions = settle_success target sessions
  settle _ target sessions = settle_failure target sessions

module _ (connection : String) (at : ℕ) where
  unfoldable pub begin_fork_on :
      String → ForkInput → Option Job → Tables → Result (Outcome × Tables)
  unfolding write_result offers_fork
  begin_fork_on run input none t = ok (not_found, t)
  begin_fork_on run input (some found) t =
      if not (offers_fork input found)
      then ok (stale, t)
      else if truthy (get "fork" found.result_json)
      then ok (replay (or_else (get "fork" found.result_json) null), t)
      else if not (
          is_bound (find? (is_binding connection input.binding_open_id input.chat_id) t.sessions)
            input.source_thread_id)
      then ok (stale, t)
      else do
        actor ← required input.actor 191
        operation ← required input.operation_id 36
        let fork = new_fork input.source_thread_id actor operation at
        let document = set "fork" (obj fork) found.result_json
        ok (fresh (obj fork), record t { jobs = write_result connection run document at t.jobs })

  -- beginFork
  unfoldable pub begin_fork : String → ForkInput → Tables → Result (Outcome × Tables)
  unfolding begin_fork_on
  begin_fork id input t = do
    run ← required id 36
    source ← required input.source_thread_id 255
    open_id ← required input.binding_open_id 191
    chat ← required input.chat_id 191
    message ← required input.message_id 191
    card ← required input.card_message_id 191
    begin_fork_on run input (find? (is_run connection run) t.jobs) t

  unfoldable pub finish_fork_on :
      String → String → String → ForkResult → Option Job → Tables → Result (Outcome × Tables)
  unfolding write_result settle
  finish_fork_on run operation target input none t = ok (not_found, t)
  finish_fork_on run operation target input (some found) t =
      let fork = members (get "fork" found.result_json) in
      if not (is_text (text_of (get "operationId" fork)) operation)
      then ok (stale, t)
      else if not (is_text (text_of (get "status" fork)) "pending")
      then ok (replay (obj fork), t)
      else do
        (closed, sessions) ←
            settle connection at found.result_json fork input input.status target t.sessions
        let document = set "fork" (obj closed) found.result_json
        ok (
          settled (or_else (text_of (get "status" closed)) "") (obj closed),
          record { jobs = write_result connection run document at t.jobs; sessions = sessions },
        )

  -- finishFork
  unfoldable pub finish_fork : String → ForkResult → Tables → Result (Outcome × Tables)
  unfolding finish_fork_on
  finish_fork id input t = do
    run ← required id 36
    operation ← required input.operation_id 36
    target ← if input.target_thread_id == "" then ok "" else required input.target_thread_id 255
    finish_fork_on run operation target input (find? (is_run connection run) t.jobs) t
