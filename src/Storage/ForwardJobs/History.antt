-- ===== src/Storage/ForwardJobs/History.antt =====
-- The table of forward jobs under any sequence of the operations of storage/forward-jobs.mjs, by one
-- connection and with any inputs, clock readings and locks. Refused operations change nothing, since
-- each runs in a transaction; `StoreStep` is an operation that was accepted.
pub mod Evolution
pub mod Laws
use agent_chat_bridge.Prelude.{ℕ, String, Bool, Option, List, Result, ok, ◌≡◌, ◌≢◌, All}
use agent_chat_bridge.Json.{Json, Fields}
use agent_chat_bridge.Storage.ForwardJobs.{Job, Status}
use agent_chat_bridge.Storage.ForwardJobs.Claims.{
  ClaimInput, ids, claim, claim_by_id, claim_reply_pending, claim_reply_by_id,
  claim_feedback_pending, patch_prepared_input,
}
use agent_chat_bridge.Storage.ForwardJobs.Leases.{
  RetryInput, renew, patch_execution, patch_feedback, patch_reply_result, mark_reply_pending,
  mark_finished, mark_finished_without_reply, mark_retry, release_feedback,
}
use agent_chat_bridge.Storage.ForwardJobs.Fork.{
  Session, Tables, Outcome, ForkInput, ForkResult, begin_fork, finish_fork,
}
use agent_chat_bridge.Storage.ForwardJobs.UserInput.{
  QuestionInput, AnswerInput, CardStatus, AnswerStatus, begin_user_input, finish_user_input_card,
  begin_user_input_answer, finish_user_input, expire_user_input, mark_user_input_unknown,
}
use agent_chat_bridge.Storage.ForwardJobs.Stop.{StopInput, StopResult, begin_stop, finish_stop}
use agent_chat_bridge.Storage.ForwardJobs.Register.{UpsertInput, upsert}

module _ (digest : Json → String) (connection : String) where
  pub data StoreStep (rows rows' : List Job) : Type 0 where
    -- AUTO_INCREMENT gives an id that no row has.
    registers :
        (input : UpsertInput) (run : String) (n at : ℕ) (j : Job) (duplicate : Bool)
        → All (λ m. m ≢ n) (ids rows)
        → upsert digest connection input run n at rows ≡ ok (j, duplicate, rows')
        → StoreStep rows rows'
    prepares :
        (id : String) (execution : Fields) (at : ℕ) (found : Option Job)
        → patch_prepared_input connection id execution at rows ≡ ok (found, rows')
        → StoreStep rows rows'
    claims :
        (input : ClaimInput) (locked : Job → Bool) (at : ℕ) (got : List Job)
        → claim connection input locked at rows ≡ ok (got, rows')
        → StoreStep rows rows'
    claims_one :
        (input : ClaimInput) (id : String) (at : ℕ) (got : Option Job)
        → claim_by_id connection input id at rows ≡ ok (got, rows')
        → StoreStep rows rows'
    claims_replies :
        (input : ClaimInput) (locked : Job → Bool) (at : ℕ) (got : List Job)
        → claim_reply_pending connection input locked at rows ≡ ok (got, rows')
        → StoreStep rows rows'
    claims_reply :
        (input : ClaimInput) (id : String) (at : ℕ) (got : Option Job)
        → claim_reply_by_id connection input id at rows ≡ ok (got, rows')
        → StoreStep rows rows'
    claims_cleanups :
        (input : ClaimInput) (locked : Job → Bool) (at : ℕ) (got : List Job)
        → claim_feedback_pending connection input locked at rows ≡ ok (got, rows')
        → StoreStep rows rows'
    renews :
        (id owner : String) (at lease : ℕ)
        → renew connection id owner at lease rows ≡ ok rows'
        → StoreStep rows rows'
    patches_execution :
        (id owner : String) (at : ℕ) (execution : Json)
        → patch_execution connection id owner at execution rows ≡ ok rows'
        → StoreStep rows rows'
    patches_feedback :
        (id owner : String) (at : ℕ) (key : String) (value : Json)
        → patch_feedback connection id owner at key value rows ≡ ok rows'
        → StoreStep rows rows'
    patches_reply :
        (id owner : String) (at : ℕ) (result : Fields)
        → patch_reply_result connection id owner at result rows ≡ ok rows'
        → StoreStep rows rows'
    answers :
        (id owner : String) (at : ℕ) (result : Fields) (execution : Option Json) (code : String)
        → mark_reply_pending connection id owner at result execution code rows ≡ ok rows'
        → StoreStep rows rows'
    finishes :
        (id owner : String) (at : ℕ) (status : Status) (result : Fields) (code : String)
        (sent : Bool)
        → mark_finished connection id owner at status result code sent rows ≡ ok rows'
        → StoreStep rows rows'
    finishes_quietly :
        (id owner : String) (at : ℕ) (status : Status) (result : Fields) (code : String)
        → mark_finished_without_reply connection id owner at status result code rows ≡ ok rows'
        → StoreStep rows rows'
    retries :
        (id owner : String) (at : ℕ) (input : RetryInput) (status : Status)
        → mark_retry connection id owner at input rows ≡ ok (status, rows')
        → StoreStep rows rows'
    releases :
        (id owner : String) (at : ℕ) (next : Option ℕ)
        → release_feedback connection id owner at next rows ≡ ok rows'
        → StoreStep rows rows'
    begins_fork :
        (at : ℕ) (id : String) (input : ForkInput) (before after : List Session) (o : Outcome)
        → begin_fork connection at id input (record { jobs = rows; sessions = before })
          ≡ ok (o, record { jobs = rows'; sessions = after })
        → StoreStep rows rows'
    finishes_fork :
        (at : ℕ) (id : String) (input : ForkResult) (before after : List Session) (o : Outcome)
        → finish_fork connection at id input (record { jobs = rows; sessions = before })
          ≡ ok (o, record { jobs = rows'; sessions = after })
        → StoreStep rows rows'
    asks :
        (at : ℕ) (id : String) (input : QuestionInput) (o : Outcome)
        → begin_user_input connection at id input rows ≡ ok (o, rows')
        → StoreStep rows rows'
    sends_card :
        (at : ℕ) (id key : String) (status : CardStatus) (message : String) (o : Outcome)
        → finish_user_input_card connection at id key status message rows ≡ ok (o, rows')
        → StoreStep rows rows'
    submits :
        (at : ℕ) (id : String) (input : AnswerInput) (o : Outcome)
        → begin_user_input_answer connection at id input rows ≡ ok (o, rows')
        → StoreStep rows rows'
    settles :
        (at : ℕ) (id key operation : String) (status : AnswerStatus) (o : Outcome)
        → finish_user_input connection at id key operation status rows ≡ ok (o, rows')
        → StoreStep rows rows'
    expires :
        (at : ℕ) (id key : String) (o : Outcome)
        → expire_user_input connection at id key rows ≡ ok (o, rows')
        → StoreStep rows rows'
    loses :
        (at : ℕ) (id key operation : String) (o : Outcome)
        → mark_user_input_unknown connection at id key operation rows ≡ ok (o, rows')
        → StoreStep rows rows'
    begins_stop :
        (at : ℕ) (id : String) (input : StopInput) (o : Outcome)
        → begin_stop connection at id input rows ≡ ok (o, rows')
        → StoreStep rows rows'
    finishes_stop :
        (at : ℕ) (id : String) (stop : StopResult) (saved : Fields) (known : Bool)
        → finish_stop connection at id stop rows ≡ ok (saved, known, rows')
        → StoreStep rows rows'

  -- A sequence of operations, the last one first.
  pub data Reach (rows : List Job) : List Job → Type 0 where
    here : Reach rows rows
    next : {rows' rows'' : List Job} → Reach rows rows' → StoreStep rows' rows'' → Reach rows rows''
