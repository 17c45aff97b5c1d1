-- ===== src/Storage/ForwardJobs/UserInput.antt =====
-- storage/forward-jobs.mjs: the questions that a running turn puts to the person who started it.
-- `at` stands for the readings of the clock within one operation.
pub mod Steps
pub mod Laws
use agent_chat_bridge.Prelude.{
  ℕ, String, Bool, true, false, not, ◌&&◌, ◌||◌, Option, none, some, List, [], ◌∷◌, ◌==◌,
  if◌then◌else◌, or_else, Result, ok, err, ◌>>=◌, ◌>>◌, ensure, one_of, is_text, find?,
  invalid_store_input,
}
use agent_chat_bridge.Json.{
  Json, null, str, num, arr, Items, nil, cons, Fields, obj, end, field, get, set, members, text_of,
}
use agent_chat_bridge.Storage.ForwardJobs.{Job, is_running, required, is_run}
use agent_chat_bridge.Storage.ForwardJobs.Fork.{
  Outcome, not_found, stale, replay, blocked, fresh, settled, write_result,
}

abbrev pub user_input : Job → Fields
user_input j = members (get "userInput" j.result_json)

-- `userInput.k === s`
abbrev pub has_text : String → String → Fields → Bool
has_text k s m = is_text (text_of (get k m)) s

-- `['a', …].includes(userInput.status)`
abbrev pub has_status : List String → Fields → Bool
has_status words m = one_of words (or_else (text_of (get "status" m)) "")

abbrev pub card : Fields → Fields
card m = members (get "card" m)

abbrev pub is_empty : Items → Bool
is_empty nil = true
is_empty (cons x xs) = false

pub record QuestionInput : Type 0 where
  pub message_id : String
  pub thread_id : String
  pub turn_id : String
  pub item_id : String
  pub request_key : String
  pub card_uuid : String
  pub questions : Items

abbrev pub new_question : QuestionInput → Job → ℕ → Fields
new_question input found at = field "requestKey" (str input.request_key) (
    field "itemId" (str input.item_id) (
      field "threadId" (str input.thread_id) (
        field "turnId" (str input.turn_id) (
          field "messageId" (str input.message_id) (
            field "actor" (str found.sender_open_id) (
              field "chatId" (str found.chat_id) (
                field "questions" (arr input.questions) (
                  field "status" (str "pending") (
                    field "card"
                      (obj (field "uuid" (str input.card_uuid) (field "status" (str "intent") end)))
                      (field "createdAt" (num at) end))))))))))

pub record AnswerInput : Type 0 where
  pub request_key : String
  pub item_id : String
  pub actor : String
  pub chat_id : String
  pub card_message_id : String
  pub operation_id : String
  pub answers : Fields

-- The statuses of finishUserInputCard, and those of finishUserInput.
pub data CardStatus : Type 0 where
  confirmed failed unknown : CardStatus

pub data AnswerStatus : Type 0 where
  submitted unknown expired : AnswerStatus

abbrev pub card_word : CardStatus → String
card_word confirmed = "confirmed"
card_word failed = "failed"
card_word unknown = "unknown"

abbrev pub answer_word : AnswerStatus → String
answer_word submitted = "submitted"
answer_word unknown = "unknown"
answer_word expired = "expired"

-- A card that could not be sent ends its question.
abbrev pub end_of_card : CardStatus → Fields → Fields
end_of_card failed question = set "status" (str "expired") question
end_of_card _ question = question

-- `userInput.status = status; userInput.finishedAt = now()`
abbrev pub finish_question : String → ℕ → Fields → Fields
finish_question status at question = set "finishedAt" (num at) (set "status" (str status) question)

-- `userInput.status='unknown'; userInput.operationId=operationId; userInput.finishedAt=now()`
abbrev pub unknown_answer : String → ℕ → Fields → Fields
unknown_answer operation at question =
    set "finishedAt" (num at)
      (set "operationId" (str operation) (set "status" (str "unknown") question))

-- `{ ...card, status, …(cardMessageId ? { messageId } : {}) }`
unfoldable pub named_card : CardStatus → String → Fields → Result Fields
named_card status message sent_card =
    let sent = set "status" (str (card_word status)) sent_card in
    if message == "" then ok sent else do ok (set "messageId" (str (← required message 191)) sent)

-- The person, the chat, the card and the question are those of the pending question.
unfoldable pub accepts_answer : AnswerInput → Job → Bool
accepts_answer input found =
    let question = user_input found in
    is_running found.status
    && found.chat_id == input.chat_id
    && found.sender_open_id == input.actor
    && has_text "status" "pending" question
    && has_text "requestKey" input.request_key question
    && has_text "itemId" input.item_id question
    && has_text "status" "confirmed" (card question)
    && has_text "messageId" input.card_message_id (card question)

module _ (connection : String) (at : ℕ) where
  -- result.userInput = question, and the UPDATE that writes it
  unfoldable pub write_question : String → Job → Fields → List Job → List Job
  unfolding write_result
  write_question run found question rows =
      write_result connection run (set "userInput" (obj question) found.result_json) at rows

  unfoldable pub begin_user_input_on :
      String → QuestionInput → Option Job → List Job → Outcome × List Job
  unfolding write_question
  begin_user_input_on run input none rows = (not_found, rows)
  begin_user_input_on run input (some found) rows =
      let execution = members (get "execution" found.result_json) in
      let question = user_input found in
      if not (
        is_running found.status
        && found.message_id == input.message_id
        && has_text "threadId" input.thread_id execution
        && has_text "turnId" input.turn_id execution)
      then (stale, rows)
      else if has_text "requestKey" input.request_key question
          && has_text "itemId" input.item_id question
      then (replay (obj question), rows)
      else if has_text "threadId" input.thread_id question
          && has_text "turnId" input.turn_id question
          && (has_status ("submitting" ∷ "unknown" ∷ []) question
              || has_text "status" "unknown" (card question))
      then (blocked (obj question), rows)
      else (
        fresh (obj (new_question input found at)),
        write_question run found (new_question input found at) rows,
      )

  -- beginUserInput
  unfoldable pub begin_user_input : String → QuestionInput → List Job → Result (Outcome × List Job)
  unfolding begin_user_input_on
  begin_user_input id input rows = do
    run ← required id 36
    message ← required input.message_id 191
    thread ← required input.thread_id 255
    turn ← required input.turn_id 255
    item ← required input.item_id 255
    key ← required input.request_key 600
    uuid ← required input.card_uuid 64
    ensure (not (is_empty input.questions)) invalid_store_input
    ok (begin_user_input_on run input (find? (is_run connection run) rows) rows)

  unfoldable pub finish_user_input_card_on :
      String → String → CardStatus → String → Option Job → List Job → Result (Outcome × List Job)
  unfolding write_question named_card
  finish_user_input_card_on run key status message none rows = ok (not_found, rows)
  finish_user_input_card_on run key status message (some found) rows =
      let question = user_input found in
      if not (has_text "requestKey" key question)
      then ok (stale, rows)
      else if not (has_text "status" "intent" (card question))
      then ok (replay (obj question), rows)
      else do
        named ← named_card status message (card question)
        let closed = set "card" (obj (set "finishedAt" (num at) named)) question
        let question' = end_of_card status closed
        ok (settled (card_word status) (obj question'), write_question run found question' rows)

  -- finishUserInputCard; an absent card message is the empty text
  unfoldable pub finish_user_input_card :
      String → String → CardStatus → String → List Job → Result (Outcome × List Job)
  unfolding finish_user_input_card_on
  finish_user_input_card id request_key status message rows = do
    run ← required id 36
    key ← required request_key 600
    finish_user_input_card_on run key status message (find? (is_run connection run) rows) rows

  unfoldable pub begin_user_input_answer_on :
      String → AnswerInput → Option Job → List Job → Result (Outcome × List Job)
  unfolding write_question accepts_answer
  begin_user_input_answer_on run input none rows = ok (not_found, rows)
  begin_user_input_answer_on run input (some found) rows =
      let question = user_input found in
      if not (accepts_answer input found)
      then (if has_text "requestKey" input.request_key question
            && has_status ("submitting" ∷ "submitted" ∷ "unknown" ∷ []) question
          then ok (replay (obj question), rows)
          else ok (stale, rows))
      else do
        operation ← required input.operation_id 36
        let question' = set "submittedAt" (num at) (
            set "operationId" (str operation)
              (set "answers" (obj input.answers) (set "status" (str "submitting") question)))
        ok (fresh (obj question'), write_question run found question' rows)

  -- beginUserInputAnswer
  unfoldable pub begin_user_input_answer :
      String → AnswerInput → List Job → Result (Outcome × List Job)
  unfolding begin_user_input_answer_on
  begin_user_input_answer id input rows = do
    run ← required id 36
    key ← required input.request_key 600
    item ← required input.item_id 255
    actor ← required input.actor 191
    chat ← required input.chat_id 191
    message ← required input.card_message_id 191
    begin_user_input_answer_on run input (find? (is_run connection run) rows) rows

  unfoldable pub finish_user_input_on :
      String → String → String → AnswerStatus → Option Job → List Job → Outcome × List Job
  unfolding write_question
  finish_user_input_on run key operation status none rows = (not_found, rows)
  finish_user_input_on run key operation status (some found) rows =
      let question = user_input found in
      if not (has_text "requestKey" key question && has_text "operationId" operation question)
      then (stale, rows)
      else if not (has_text "status" "submitting" question)
      then (replay (obj question), rows)
      else let question' = finish_question (answer_word status) at question in
        (settled (answer_word status) (obj question'), write_question run found question' rows)

  -- finishUserInput
  unfoldable pub finish_user_input :
      String → String → String → AnswerStatus → List Job → Result (Outcome × List Job)
  unfolding finish_user_input_on
  finish_user_input id request_key operation_id status rows = do
    run ← required id 36
    key ← required request_key 600
    operation ← required operation_id 36
    ok (finish_user_input_on run key operation status (find? (is_run connection run) rows) rows)

  unfoldable pub expire_user_input_on : String → String → Option Job → List Job → Outcome × List Job
  unfolding write_question
  expire_user_input_on run key none rows = (not_found, rows)
  expire_user_input_on run key (some found) rows =
      let question = user_input found in
      if not (has_text "requestKey" key question)
      then (stale, rows)
      else if has_status ("submitted" ∷ "unknown" ∷ "expired" ∷ []) question
      then (replay (obj question), rows)
      else let question' = finish_question "expired" at question in
        (settled "expired" (obj question'), write_question run found question' rows)

  -- expireUserInput
  unfoldable pub expire_user_input : String → String → List Job → Result (Outcome × List Job)
  unfolding expire_user_input_on
  expire_user_input id request_key rows = do
    run ← required id 36
    key ← required request_key 600
    ok (expire_user_input_on run key (find? (is_run connection run) rows) rows)

  unfoldable pub mark_user_input_unknown_on :
      String → String → String → Option Job → List Job → Outcome × List Job
  unfolding write_question
  mark_user_input_unknown_on run key operation none rows = (not_found, rows)
  mark_user_input_unknown_on run key operation (some found) rows =
      let question = user_input found in
      if not (has_text "requestKey" key question)
      then (stale, rows)
      else if has_text "status" "submitted" question || has_text "status" "unknown" question
      then (replay (obj question), rows)
      else if not (has_text "status" "pending" question)
          && (not (has_text "status" "submitting" question)
              || not (has_text "operationId" operation question))
      then (stale, rows)
      else let question' = unknown_answer operation at question in
        (settled "unknown" (obj question'), write_question run found question' rows)

  -- markUserInputUnknown
  unfoldable pub mark_user_input_unknown :
      String → String → String → List Job → Result (Outcome × List Job)
  unfolding mark_user_input_unknown_on
  mark_user_input_unknown id request_key operation_id rows = do
    run ← required id 36
    key ← required request_key 600
    operation ← required operation_id 36
    ok (mark_user_input_unknown_on run key operation (find? (is_run connection run) rows) rows)
