-- ===== src/Storage/ForwardJobs/Stop.antt =====
-- storage/forward-jobs.mjs: beginStop and finishStop, a person's request to stop a running turn.
-- `at` stands for the readings of the clock within one operation.
pub mod Steps
pub mod Laws
use agent_chat_bridge.Prelude.{
  ℕ, String, Bool, true, false, not, ◌&&◌, ◌||◌, Option, none, some, List, [], ◌∷◌, ◌==◌,
  if◌then◌else◌, or_else, Result, ok, err, ◌>>=◌, ◌>>◌, ensure, one_of, is_text, find?, any, update,
  stop_conflict, ltb, affected,
}
use agent_chat_bridge.Json.{
  Json, null, str, num, Fields, obj, end, field, get, set, members, text_of, truthy, unquote,
}
use agent_chat_bridge.Storage.ForwardJobs.{Job, is_running, required, is_run}
use agent_chat_bridge.Storage.ForwardJobs.Fork.{
  Outcome, not_found, stale, already_finished, replay, fresh,
}

pub record StopInput : Type 0 where
  pub thread_id : String
  pub turn_id : String
  pub binding_thread_id : String
  pub message_id : String
  pub actor : String

-- `stop.threadId`, `stop.turnId` and `stop.messageId` are these.
abbrev pub names_turn : String → String → String → Fields → Bool
names_turn thread turn message stop =
    is_text (text_of (get "threadId" stop)) thread
    && is_text (text_of (get "turnId" stop)) turn
    && is_text (text_of (get "messageId" stop)) message

abbrev pub new_stop : StopInput → String → ℕ → Fields
new_stop input actor at = field "threadId" (str input.thread_id) (
    field "turnId" (str input.turn_id) (
      field "messageId" (str input.message_id) (
        field "actor" (str actor)
          (field "intentAt" (num at) (field "outcome" (str "pending") end)))))

-- The turn is the recorded native one, or the one that the card shows before any is recorded.
unfoldable pub identifies_turn : StopInput → Job → Bool
identifies_turn input found =
    let execution = members (get "execution" found.result_json) in
    let card = members (get "executionCard" found.result_json) in
    is_text (text_of (get "threadId" execution)) input.thread_id
      && is_text (text_of (get "turnId" execution)) input.turn_id
    || not (truthy (get "threadId" execution))
      && not (truthy (get "turnId" execution))
      && is_text (text_of (get "turnId" card)) input.turn_id
      && input.binding_thread_id == input.thread_id

pub data StopOutcome : Type 0 where
  requested already_over unconfirmed : StopOutcome

-- 'requested', 'already_finished' and 'unconfirmed'
abbrev pub outcome_word : StopOutcome → String
outcome_word requested = "requested"
outcome_word already_over = "already_finished"
outcome_word unconfirmed = "unconfirmed"

-- The outcomes that finishStop may replace: an unconfirmed one replaces the pending one alone.
abbrev pub replaceable : StopOutcome → List String
replaceable unconfirmed = "pending" ∷ []
replaceable _ = "pending" ∷ "unconfirmed" ∷ []

pub record StopResult : Type 0 where
  pub thread_id : String
  pub turn_id : String
  pub message_id : String
  pub outcome : StopOutcome
  pub rest : Fields

-- The document that is written: the input's `stop`, whose other members are `rest`.
abbrev pub stop_document : StopResult → Fields
stop_document stop = set "threadId" (str stop.thread_id) (
    set "turnId" (str stop.turn_id) (
      set "messageId" (str stop.message_id)
        (set "outcome" (str (outcome_word stop.outcome)) stop.rest)))

abbrev pub stop_of : Job → Fields
stop_of j = members (get "stop" j.result_json)

-- The WHERE clause of finishStop on the row and on its `stop`.
unfoldable pub is_open_stop : StopResult → Job → Bool
is_open_stop stop j =
    is_running j.status
    && is_text (unquote (get "threadId" (stop_of j))) stop.thread_id
    && is_text (unquote (get "turnId" (stop_of j))) stop.turn_id
    && is_text (unquote (get "messageId" (stop_of j))) stop.message_id
    && one_of (replaceable stop.outcome) (or_else (unquote (get "outcome" (stop_of j))) "")

module _ (connection : String) (at : ℕ) where
  unfoldable pub write_stop : (Job → Bool) → Fields → List Job → List Job
  write_stop p stop =
      update p
        (λ j. record j { result_json = set "stop" (obj stop) j.result_json; updated_at = at })

  unfoldable pub begin_stop_on :
      String → StopInput → Option Job → List Job → Result (Outcome × List Job)
  unfolding write_stop identifies_turn
  begin_stop_on run input none rows = ok (not_found, rows)
  begin_stop_on run input (some found) rows =
      if not (identifies_turn input found) || not (found.message_id == input.message_id)
      then ok (stale, rows)
      else if not (is_running found.status)
      then ok (already_finished, rows)
      else if names_turn input.thread_id input.turn_id input.message_id (stop_of found)
      then ok (replay (obj (stop_of found)), rows)
      else do
        actor ← required input.actor 191
        let stop = new_stop input actor at
        ok (
          fresh (obj stop),
          write_stop (λ j. is_run connection run j && is_running j.status) stop rows,
        )

  -- beginStop
  unfoldable pub begin_stop : String → StopInput → List Job → Result (Outcome × List Job)
  unfolding begin_stop_on
  begin_stop id input rows = do
    run ← required id 36
    thread ← required input.thread_id 255
    turn ← required input.turn_id 255
    bound ← if input.binding_thread_id == "" then ok "" else required input.binding_thread_id 255
    message ← required input.message_id 191
    begin_stop_on run input (find? (is_run connection run) rows) rows

  -- The answer of finishStop where no row matched.
  unfoldable pub saved_stop : StopResult → Option Job → List Job → Result (Fields × Bool × List Job)
  saved_stop stop none rows = err stop_conflict
  saved_stop stop (some found) rows =
      if names_turn stop.thread_id stop.turn_id stop.message_id (stop_of found)
      then ok (stop_of found, true, rows)
      else err stop_conflict

  -- finishStop: the stop that is recorded afterwards, and whether it was recorded before
  unfoldable pub finish_stop : String → StopResult → List Job → Result (Fields × Bool × List Job)
  unfolding write_stop saved_stop is_open_stop
  finish_stop id stop rows = do
    run ← required id 36
    let open_row = λ (j : Job). is_run connection run j && is_open_stop stop j
    if ltb 0 (affected open_row rows)
        then ok (stop_document stop, false, write_stop open_row (stop_document stop) rows)
        else saved_stop stop (find? (is_run connection run) rows) rows
