-- ===== src/Storage/ForwardJobs/UserInput/Laws.antt =====
-- A question to a person takes one answer.
use agent_chat_bridge.Prelude.{
  ℕ, String, ◌≡◌, Option, none, some, true, false, arith, refl, sym, ap, ◌∙◌, List, [], ◌∷◌, ok,
  find?, find?-update, find?-match, is_text, ◌==◌, one_of, if◌then◌else◌,
}
use agent_chat_bridge.Json.{Json, str, num, obj, Fields, get, set, members, text_of}
use agent_chat_bridge.Json.Laws.{get-set}
use agent_chat_bridge.Storage.ForwardJobs.{Job, required, required-cases, is_run}
use agent_chat_bridge.Storage.ForwardJobs.Fork.{Outcome, replay, fresh, write_result}
use agent_chat_bridge.Storage.ForwardJobs.UserInput.{
  AnswerInput, user_input, has_text, has_status, accepts_answer, write_question,
  begin_user_input_answer_on, begin_user_input_answer,
}

-- The question with its answer on record, as beginUserInputAnswer writes it.
abbrev pub answered : AnswerInput → ℕ → Fields → Fields
answered input at question = set "submittedAt" (num at) (
    set "operationId" (str input.operation_id)
      (set "answers" (obj input.answers) (set "status" (str "submitting") question)))

-- The row that the write leaves.
abbrev with_question : Fields → ℕ → Job → Job
with_question question at j = record j {
  result_json = set "userInput" (obj question) j.result_json;
  updated_at = at;
}

get-answered :
    (input : AnswerInput) (at : ℕ) (question : Fields) (key : String)
    → ("submittedAt" == key) ≡ false
    → ("operationId" == key) ≡ false
    → ("answers" == key) ≡ false
    → get key (answered input at question)
      ≡ (if "status" == key then some (str "submitting") else get key question)
get-answered input at question key a b c = ground (
  arith,
  get-set "submittedAt" key (num at) (
      set "operationId" (str input.operation_id)
        (set "answers" (obj input.answers) (set "status" (str "submitting") question))),
  get-set "operationId" key (str input.operation_id)
      (set "answers" (obj input.answers) (set "status" (str "submitting") question)),
  get-set "answers" key (obj input.answers) (set "status" (str "submitting") question),
  get-set "status" key (str "submitting") question,
)

module _ (connection : String) where
  -- The inputs of an answer that are not refused.
  abbrev pub IsValidAnswer : AnswerInput → Type 0
  IsValidAnswer input =
      (required input.request_key 600 ≡ ok input.request_key)
      × (required input.item_id 255 ≡ ok input.item_id)
      × (required input.actor 191 ≡ ok input.actor)
      × (required input.chat_id 191 ≡ ok input.chat_id)
      × (required input.card_message_id 191 ≡ ok input.card_message_id)

  answer-on :
      (at : ℕ) (id : String) (input : AnswerInput) (rows : List Job)
      → required id 36 ≡ ok id
      → IsValidAnswer input
      → begin_user_input_answer connection at id input rows
        ≡ begin_user_input_answer_on connection at id input (find? (is_run connection id) rows) rows
  unfolding begin_user_input_answer
  answer-on at id input rows r (k, i, a, c, m) = rw (r, k, i, a, c, m) refl

  answer-IsValid :
      (at : ℕ) (id : String) (input : AnswerInput) (rows : List Job) {r : Outcome × List Job}
      → begin_user_input_answer connection at id input rows ≡ ok r
      → (required id 36 ≡ ok id) × IsValidAnswer input
  unfolding begin_user_input_answer
  answer-IsValid at id input rows e = ground (
    arith,
    required-cases id 36,
    required-cases input.request_key 600,
    required-cases input.item_id 255,
    required-cases input.actor 191,
    required-cases input.chat_id 191,
    required-cases input.card_message_id 191,
  )

  answer-accepted :
      (at : ℕ) (id : String) (input : AnswerInput) (found : Option Job) (rows rows' : List Job)
      {question : Json}
      → begin_user_input_answer_on connection at id input found rows ≡ ok (fresh question, rows')
      → (j : Job) × (found ≡ some j)
        × (accepts_answer input j ≡ true)
        × (question ≡ obj (answered input at (user_input j)))
        × (rows' ≡ write_question connection at id j (answered input at (user_input j)) rows)
  unfolding begin_user_input_answer_on
  answer-accepted at id input none rows rows' e = cc
  answer-accepted at id input (some j) rows rows' e = (
    j,
    refl,
    ground (arith, required-cases input.operation_id 36),
    ground (arith, required-cases input.operation_id 36),
    ground (arith, required-cases input.operation_id 36),
  )

  user_input-with_question : (q : Fields) (at : ℕ) (j : Job) → user_input (with_question q at j) ≡ q
  user_input-with_question q at j =
      ap members (get-set "userInput" "userInput" (obj q) j.result_json)

  answer-replays :
      (at : ℕ) (id : String) (again : AnswerInput) (j : Job) (rows : List Job)
      → text_of (get "status" (user_input j)) ≡ some "submitting"
      → has_text "requestKey" again.request_key (user_input j) ≡ true
      → begin_user_input_answer_on connection at id again (some j) rows
        ≡ ok (replay (obj (user_input j)), rows)
  unfolding begin_user_input_answer_on accepts_answer one_of
  answer-replays at id again j rows s k =
      let answered_before : has_text "status" "pending" (user_input j) ≡ false = rw s refl in
      let known : has_status ("submitting" ∷ "submitted" ∷ "unknown" ∷ []) (user_input j) ≡ true =
        rw s refl in
      ground arith

  answered-replays :
      (at at' : ℕ) (id : String) (input again : AnswerInput) (j : Job) (rows : List Job)
      → accepts_answer input j ≡ true
      → again.request_key ≡ input.request_key
      → begin_user_input_answer_on connection at' id again
          (some (with_question (answered input at (user_input j)) at j))
          rows
        ≡ ok (replay (obj (answered input at (user_input j))), rows)
  unfolding accepts_answer
  answered-replays at at' id input again j rows accepted key =
      let asked : has_text "requestKey" input.request_key (user_input j) ≡ true = ground arith in
      let q = answered input at (user_input j) in
      let same = user_input-with_question q at j in
      let status = get-answered input at (user_input j) "status" refl refl refl in
      let request = get-answered input at (user_input j) "requestKey" refl refl refl in
      answer-replays at' id again (with_question q at j) rows
        (ap (λ m. text_of (get "status" m)) same ∙ ap text_of status)
        (ap (has_text "requestKey" again.request_key) same
          ∙ ap (λ t. is_text (text_of t) again.request_key) request
          ∙ ap (λ k. has_text "requestKey" k (user_input j)) key
          ∙ asked)
      ∙ ap (λ m. ok (replay (obj m), rows)) same

  find?-write_question :
      (at : ℕ) (id : String) (q : Fields) (rows : List Job) {j : Job}
      → find? (is_run connection id) rows ≡ some j
      → find? (is_run connection id) (write_question connection at id j q rows)
        ≡ some (with_question q at j)
  unfolding write_question write_result
  find?-write_question at id q rows {j = j} found =
      find?-update (is_run connection id) (is_run connection id)
        (λ k. record k { result_json = set "userInput" (obj q) j.result_json; updated_at = at })
        (λ y h. h) (λ y. refl) rows found (find?-match (is_run connection id) rows found).1

  -- On the table that an accepted answer left, a later answer to that question whose texts keep their
  -- limits, whatever card, person and item it names, is not taken: the call returns the accepted
  -- answer and writes nothing.
  pub answer_again :
      (at at' : ℕ) (id : String) (input again : AnswerInput) (rows rows' : List Job)
      (question : Json)
      → begin_user_input_answer connection at id input rows ≡ ok (fresh question, rows')
      → IsValidAnswer again
      → again.request_key ≡ input.request_key
      → begin_user_input_answer connection at' id again rows' ≡ ok (replay question, rows')
  unfolding write_question write_result accepts_answer
  answer_again at at' id input again rows rows' question e valid key =
      let (run, was_valid) = answer-IsValid at id input rows e in
      let (j, found, accepted, is_answer, table) =
        answer-accepted at id input _ rows rows'
          (sym (answer-on at id input rows run was_valid) ∙ e) in
      let q = answered input at (user_input j) in
      answer-on at' id again rows' run valid
      ∙ ap (λ t. begin_user_input_answer_on connection at' id again t rows')
          (ap (find? (is_run connection id)) table ∙ find?-write_question at id q rows found)
      ∙ answered-replays at at' id input again j rows' accepted key
      ∙ ap (λ x. ok (replay x, rows')) (sym is_answer)
