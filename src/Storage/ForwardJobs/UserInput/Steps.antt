-- ===== src/Storage/ForwardJobs/UserInput/Steps.antt =====
-- The operations on a question write a new result to one job and leave all else of it.
use agent_chat_bridge.Prelude.{
  ℕ, String, Option, none, some, arith, List, [], ◌∷◌, ok, not, ◌&&◌, find?, Ensures, ensures,
  Ensures->>=, either_branch, Edits, Edits-refl, ensure, invalid_store_input,
}
use agent_chat_bridge.Json.{Fields}
use agent_chat_bridge.Storage.ForwardJobs.{Job, required, is_run}
use agent_chat_bridge.Storage.ForwardJobs.Lifecycle.{JobStep}
use agent_chat_bridge.Storage.ForwardJobs.Fork.{Outcome, not_found, stale, replay}
use agent_chat_bridge.Storage.ForwardJobs.Fork.Steps.{write_result-Edits}
use agent_chat_bridge.Storage.ForwardJobs.UserInput.{
  QuestionInput, AnswerInput, CardStatus, AnswerStatus, answer_word, user_input, has_text,
  has_status, card, new_question, finish_question, named_card, unknown_answer, accepts_answer,
  is_empty, write_question, begin_user_input_on, begin_user_input, finish_user_input_card_on,
  finish_user_input_card, begin_user_input_answer_on, begin_user_input_answer, finish_user_input_on,
  finish_user_input, expire_user_input_on, expire_user_input, mark_user_input_unknown_on,
  mark_user_input_unknown,
}

module _ (connection : String) (at : ℕ) (rows : List Job) where
  abbrev pub KeepsRows : Outcome × List Job → Type 0
  KeepsRows r = Edits JobStep rows r.1

  unchanged : (o : Outcome) → Ensures KeepsRows (ok (o, rows))
  unchanged o = ensures KeepsRows (Edits-refl JobStep rows)

  write_question-Edits :
      (run : String) (found : Job) (question : Fields)
      → Edits JobStep rows (write_question connection at run found question rows)
  unfolding write_question
  write_question-Edits run found question = write_result-Edits connection run _ at rows

  begin_user_input_on-Edits :
      (run : String) (input : QuestionInput) (found : Option Job)
      → KeepsRows (begin_user_input_on connection at run input found rows)
  unfolding begin_user_input_on
  begin_user_input_on-Edits run input none = Edits-refl JobStep rows
  begin_user_input_on-Edits run input (some found) =
      ground (
        arith,
        Edits-refl JobStep rows,
        write_question-Edits run found (new_question input found at),
      )

  finish_user_input_on-Edits :
      (run key operation : String) (status : AnswerStatus) (found : Option Job)
      → KeepsRows (finish_user_input_on connection at run key operation status found rows)
  unfolding finish_user_input_on
  finish_user_input_on-Edits run key operation status none = Edits-refl JobStep rows
  finish_user_input_on-Edits run key operation status (some found) = ground (
    arith,
    Edits-refl JobStep rows,
    write_question-Edits run found (finish_question (answer_word status) at (user_input found)),
  )

  finish_user_input_card_on-Edits :
      (run key : String) (status : CardStatus) (message : String) (found : Option Job)
      → Ensures KeepsRows
          (finish_user_input_card_on connection at run key status message found rows)
  unfolding finish_user_input_card_on
  finish_user_input_card_on-Edits run key status message none = unchanged not_found
  finish_user_input_card_on-Edits run key status message (some found) =
      let question = user_input found in
      either_branch (Ensures KeepsRows) (not (has_text "requestKey" key question)) _ _
        (λ _. unchanged stale)
        λ _.
          either_branch (Ensures KeepsRows) (not (has_text "status" "intent" (card question))) _ _
            (λ _. unchanged (replay _))
            λ _.
              Ensures->>= KeepsRows (named_card status message (card question)) _
                λ named _. ensures KeepsRows (write_question-Edits run found _)

  begin_user_input_answer_on-Edits :
      (run : String) (input : AnswerInput) (found : Option Job)
      → Ensures KeepsRows (begin_user_input_answer_on connection at run input found rows)
  unfolding begin_user_input_answer_on
  begin_user_input_answer_on-Edits run input none = unchanged not_found
  begin_user_input_answer_on-Edits run input (some found) =
      let question = user_input found in
      either_branch (Ensures KeepsRows) (not (accepts_answer input found)) _ _
        (λ _.
          either_branch (Ensures KeepsRows)
            (has_text "requestKey" input.request_key question
              && has_status ("submitting" ∷ "submitted" ∷ "unknown" ∷ []) question)
            _ _ (λ _. unchanged (replay _)) (λ _. unchanged stale))
        λ _.
          Ensures->>= KeepsRows (required input.operation_id 36) _
            λ operation _. ensures KeepsRows (write_question-Edits run found _)

  expire_user_input_on-Edits :
      (run key : String) (found : Option Job)
      → KeepsRows (expire_user_input_on connection at run key found rows)
  unfolding expire_user_input_on
  expire_user_input_on-Edits run key none = Edits-refl JobStep rows
  expire_user_input_on-Edits run key (some found) = ground (
    arith,
    Edits-refl JobStep rows,
    write_question-Edits run found (finish_question "expired" at (user_input found)),
  )

  mark_user_input_unknown_on-Edits :
      (run key operation : String) (found : Option Job)
      → KeepsRows (mark_user_input_unknown_on connection at run key operation found rows)
  unfolding mark_user_input_unknown_on
  mark_user_input_unknown_on-Edits run key operation none = Edits-refl JobStep rows
  mark_user_input_unknown_on-Edits run key operation (some found) = ground (
    arith,
    Edits-refl JobStep rows,
    write_question-Edits run found (unknown_answer operation at (user_input found)),
  )

  -- No operation on a question moves its job along its life.
  pub begin_user_input-Edits :
      (id : String) (input : QuestionInput)
      → Ensures KeepsRows (begin_user_input connection at id input rows)
  unfolding begin_user_input
  begin_user_input-Edits id input = Ensures->>= KeepsRows (required id 36) _ λ run _.
      Ensures->>= KeepsRows (required input.message_id 191) _ λ message _.
        Ensures->>= KeepsRows (required input.thread_id 255) _ λ thread _.
          Ensures->>= KeepsRows (required input.turn_id 255) _ λ turn _.
            Ensures->>= KeepsRows (required input.item_id 255) _ λ item _.
              Ensures->>= KeepsRows (required input.request_key 600) _ λ key _.
                Ensures->>= KeepsRows (required input.card_uuid 64) _ λ uuid _.
                  Ensures->>= KeepsRows
                    (ensure (not (is_empty input.questions)) invalid_store_input) _
                    λ asked _.
                      ensures KeepsRows
                        (begin_user_input_on-Edits run input (find? (is_run connection run) rows))

  pub finish_user_input_card-Edits :
      (id request_key : String) (status : CardStatus) (message : String)
      → Ensures KeepsRows (finish_user_input_card connection at id request_key status message rows)
  unfolding finish_user_input_card
  finish_user_input_card-Edits id request_key status message =
      Ensures->>= KeepsRows (required id 36) _ λ run _.
        Ensures->>= KeepsRows (required request_key 600) _ λ key _.
          finish_user_input_card_on-Edits run key status message
            (find? (is_run connection run) rows)

  pub begin_user_input_answer-Edits :
      (id : String) (input : AnswerInput)
      → Ensures KeepsRows (begin_user_input_answer connection at id input rows)
  unfolding begin_user_input_answer
  begin_user_input_answer-Edits id input = Ensures->>= KeepsRows (required id 36) _ λ run _.
      Ensures->>= KeepsRows (required input.request_key 600) _ λ key _.
        Ensures->>= KeepsRows (required input.item_id 255) _ λ item _.
          Ensures->>= KeepsRows (required input.actor 191) _ λ actor _.
            Ensures->>= KeepsRows (required input.chat_id 191) _ λ chat _.
              Ensures->>= KeepsRows (required input.card_message_id 191) _ λ message _.
                begin_user_input_answer_on-Edits run input (find? (is_run connection run) rows)

  pub finish_user_input-Edits :
      (id request_key operation_id : String) (status : AnswerStatus)
      → Ensures KeepsRows (finish_user_input connection at id request_key operation_id status rows)
  unfolding finish_user_input
  finish_user_input-Edits id request_key operation_id status =
      Ensures->>= KeepsRows (required id 36) _ λ run _.
        Ensures->>= KeepsRows (required request_key 600) _ λ key _.
          Ensures->>= KeepsRows (required operation_id 36) _ λ operation _. ensures KeepsRows (
            finish_user_input_on-Edits run key operation status
              (find? (is_run connection run) rows))

  pub expire_user_input-Edits :
      (id request_key : String)
      → Ensures KeepsRows (expire_user_input connection at id request_key rows)
  unfolding expire_user_input
  expire_user_input-Edits id request_key = Ensures->>= KeepsRows (required id 36) _ λ run _.
      Ensures->>= KeepsRows (required request_key 600) _ λ key _.
        ensures KeepsRows (expire_user_input_on-Edits run key (find? (is_run connection run) rows))

  pub mark_user_input_unknown-Edits :
      (id request_key operation_id : String)
      → Ensures KeepsRows (mark_user_input_unknown connection at id request_key operation_id rows)
  unfolding mark_user_input_unknown
  mark_user_input_unknown-Edits id request_key operation_id =
      Ensures->>= KeepsRows (required id 36) _ λ run _.
        Ensures->>= KeepsRows (required request_key 600) _ λ key _.
          Ensures->>= KeepsRows (required operation_id 36) _ λ operation _. ensures KeepsRows (
            mark_user_input_unknown_on-Edits run key operation (find? (is_run connection run) rows))
