-- ===== src/Storage/ForwardJobs/Witnesses/Requests.antt =====
-- The theorems on answers, stops and forks at concrete jobs.
use agent_chat_bridge.Prelude.{ℕ, String, some, List, [], ◌∷◌, ok, ◌≡◌, refl, find?, one_of, update}
use agent_chat_bridge.Json.{str, num, obj, Fields, end, field, get, set}
use agent_chat_bridge.Storage.ForwardJobs.{Job, running, failed, required, js_length}
use agent_chat_bridge.Storage.ForwardJobs.Witnesses.{job_of}
use agent_chat_bridge.Storage.ForwardJobs.Fork.{
  Tables, replay, ForkInput, offers_fork, write_result, begin_fork_on, begin_fork,
}
use agent_chat_bridge.Storage.ForwardJobs.Fork.Laws.{by_operation, begin_fork_again}
use agent_chat_bridge.Storage.ForwardJobs.Stop.{
  StopInput, write_stop, identifies_turn, begin_stop_on, begin_stop,
}
use agent_chat_bridge.Storage.ForwardJobs.Stop.Laws.{by_actor, begin_stop_again}
use agent_chat_bridge.Storage.ForwardJobs.UserInput.{
  AnswerInput, write_question, accepts_answer, begin_user_input_answer_on, begin_user_input_answer,
}
use agent_chat_bridge.Storage.ForwardJobs.UserInput.Laws.{answer_again}

-- A question whose card was sent, and the question with an answer.
abbrev question_in : String → Fields → Fields
question_in status answer = field "requestKey" (str "k") (
    field "itemId" (str "i") (
      field "card" (obj (field "status" (str "confirmed") (field "messageId" (str "om") end)))
        (field "status" (str status) answer)))

abbrev answer_in : Fields
answer_in =
    field "answers" (obj end) (field "operationId" (str "op") (field "submittedAt" (num 30) end))

abbrev asking : Fields → Job
asking question = record (job_of 1 "r1" (field "userInput" (obj question) end)) {
  status = running;
  sender_open_id = "u";
  lease_expires_at = some 90;
}

abbrev answer : String → AnswerInput
answer item = record {
  request_key = "k";
  item_id = item;
  actor = "u";
  chat_id = "oc";
  card_message_id = "om";
  operation_id = "op";
  answers = end;
}

abbrev answered_rows : List Job
answered_rows = record (asking (question_in "submitting" answer_in)) { updated_at = 30 } ∷ []

answer_again_example :
    begin_user_input_answer "feishu" 40 "r1" (answer "j") answered_rows
    ≡ ok (replay (obj (question_in "submitting" answer_in)), answered_rows)
unfolding begin_user_input_answer begin_user_input_answer_on required js_length write_question
    write_result accepts_answer find? update get set one_of
answer_again_example =
    answer_again "feishu" 30 40 "r1" (answer "i") (answer "j")
      (asking (question_in "pending" end) ∷ []) answered_rows
      (obj (question_in "submitting" answer_in)) refl (refl, refl, refl, refl, refl) refl

abbrev turn_in : Fields → Fields
turn_in rest =
    field "execution" (obj (field "threadId" (str "th") (field "turnId" (str "tu") end))) rest

abbrev stop_in : Fields
stop_in = field "threadId" (str "th") (
    field "turnId" (str "tu") (
      field "messageId" (str "r1") (
        field "actor" (str "u") (field "intentAt" (num 30) (field "outcome" (str "pending") end)))))

abbrev stopping : Fields → ℕ → List Job
stopping rest at =
    record (job_of 1 "r1" (turn_in rest)) {
      status = running;
      lease_expires_at = some 90;
      updated_at = at;
    }
    ∷ []

abbrev stop_request : StopInput
stop_request = record {
  thread_id = "th";
  turn_id = "tu";
  binding_thread_id = "";
  message_id = "r1";
  actor = "u";
}

begin_stop_again_example :
    begin_stop "feishu" 40 "r1"
      (by_actor "v" stop_request)
      (stopping (field "stop" (obj stop_in) end) 30)
    ≡ ok (replay (obj stop_in), stopping (field "stop" (obj stop_in) end) 30)
unfolding begin_stop begin_stop_on required js_length write_stop identifies_turn find? update get
    set
begin_stop_again_example =
    begin_stop_again "feishu" 30 40 "r1" "v" stop_request (stopping end 5)
      (stopping (field "stop" (obj stop_in) end) 30) (obj stop_in) refl

abbrev offer_in : Fields → Fields
offer_in rest =
    field "busyFork"
      (obj (
        field "sourceThreadId" (str "th")
          (field "bindingOpenId" (str "u") (field "chatId" (str "oc") end))))
      (field "executionCard" (obj (field "messageId" (str "om") end)) rest)

abbrev fork_in : Fields
fork_in = field "sourceThreadId" (str "th") (
    field "actor" (str "u") (
      field "operationId" (str "op")
        (field "status" (str "pending") (field "intentAt" (num 30) end))))

abbrev forking : Fields → ℕ → Tables
forking rest at = record {
  jobs =
      record (job_of 1 "r1" (offer_in rest)) {
        status = failed;
        last_error = "CODEX_THREAD_BUSY";
        finished_at = some 9;
        updated_at = at;
      }
      ∷ [];
  sessions =
      record {
        connection_id = "feishu";
        feishu_open_id = "u";
        chat_id = "oc";
        codex_session_id = "th";
        updated_at = 1;
        last_error = "";
      }
      ∷ [];
}

abbrev fork_request : ForkInput
fork_request = record {
  source_thread_id = "th";
  binding_open_id = "u";
  chat_id = "oc";
  message_id = "r1";
  card_message_id = "om";
  actor = "u";
  operation_id = "op";
}

begin_fork_again_example :
    begin_fork "feishu" 40 "r1"
      (by_operation "v" "op2" fork_request)
      (forking (field "fork" (obj fork_in) end) 30)
    ≡ ok (replay (obj fork_in), forking (field "fork" (obj fork_in) end) 30)
unfolding begin_fork begin_fork_on required js_length write_result offers_fork find? update get set
begin_fork_again_example =
    begin_fork_again "feishu" 30 40 "r1" "v" "op2" fork_request (forking end 5)
      (forking (field "fork" (obj fork_in) end) 30) (obj fork_in) refl
