-- ===== src/Storage/ForwardJobs/Fork/Steps.antt =====
-- beginFork and finishFork write a new result to one job and leave all else of it.
use agent_chat_bridge.Prelude.{
  ℕ, String, Option, none, some, arith, List, ok, not, Edits, Edits-refl, update-Edits,
  if◌then◌else◌, ◌==◌, find?, is_text, Ensures, ensures, Ensures->>=, either_branch,
}
use agent_chat_bridge.Json.{Fields, get, truthy, text_of, members}
use agent_chat_bridge.Storage.ForwardJobs.{Job, required, is_run}
use agent_chat_bridge.Storage.ForwardJobs.Lifecycle.{JobStep, CanMove-refl}
use agent_chat_bridge.Storage.ForwardJobs.Fork.{
  Tables, Outcome, not_found, stale, replay, ForkInput, ForkResult, write_result, begin_fork_on,
  begin_fork, finish_fork_on, finish_fork, settle, offers_fork, is_bound, is_binding,
}

pub write_result-Edits :
    (connection run : String) (document : Fields) (at : ℕ) (rows : List Job)
    → Edits JobStep rows (write_result connection run document at rows)
unfolding write_result
write_result-Edits connection run document at rows =
    update-Edits JobStep (is_run connection run)
      (λ j. record j { result_json = document; updated_at = at })
      (λ j h. record { same = ground arith; move = CanMove-refl j.status; sound = λ w. w }) rows

module _ (connection : String) (at : ℕ) (t : Tables) where
  -- The jobs after an operation on both tables.
  abbrev pub KeepsJobs : Outcome × Tables → Type 0
  KeepsJobs r = Edits JobStep t.jobs r.1.jobs

  unchanged : (o : Outcome) → Ensures KeepsJobs (ok (o, t))
  unchanged o = ensures KeepsJobs (Edits-refl JobStep t.jobs)

  begin_fork_on-Edits :
      (run : String) (input : ForkInput) (found : Option Job)
      → Ensures KeepsJobs (begin_fork_on connection at run input found t)
  unfolding begin_fork_on
  begin_fork_on-Edits run input none = unchanged not_found
  begin_fork_on-Edits run input (some found) =
      either_branch (Ensures KeepsJobs) (not (offers_fork input found)) _ _ (λ _. unchanged stale)
        λ _.
          either_branch (Ensures KeepsJobs) (truthy (get "fork" found.result_json)) _ _
            (λ _. unchanged (replay _))
            λ _.
              either_branch (Ensures KeepsJobs)
                (not (
                  is_bound
                    (find? (is_binding connection input.binding_open_id input.chat_id) t.sessions)
                    input.source_thread_id))
                _ _ (λ _. unchanged stale)
                λ _. Ensures->>= KeepsJobs (required input.actor 191) _ λ actor _.
                  Ensures->>= KeepsJobs (required input.operation_id 36) _
                    λ operation _. ensures KeepsJobs (write_result-Edits connection run _ at t.jobs)

  finish_fork_on-Edits :
      (run operation target : String) (input : ForkResult) (found : Option Job)
      → Ensures KeepsJobs (finish_fork_on connection at run operation target input found t)
  unfolding finish_fork_on
  finish_fork_on-Edits run operation target input none = unchanged not_found
  finish_fork_on-Edits run operation target input (some found) =
      let fork = members (get "fork" found.result_json) in
      either_branch (Ensures KeepsJobs) (not (is_text (text_of (get "operationId" fork)) operation))
        _ _ (λ _. unchanged stale)
        λ _.
          either_branch (Ensures KeepsJobs) (not (is_text (text_of (get "status" fork)) "pending"))
            _ _ (λ _. unchanged (replay _))
            λ _.
              Ensures->>= KeepsJobs
                (settle connection at found.result_json fork input input.status target t.sessions) _
                λ closed _. ensures KeepsJobs (write_result-Edits connection run _ at t.jobs)

  -- Neither operation moves a job along its life.
  pub begin_fork-Edits :
      (id : String) (input : ForkInput) → Ensures KeepsJobs (begin_fork connection at id input t)
  unfolding begin_fork
  begin_fork-Edits id input = Ensures->>= KeepsJobs (required id 36) _ λ run _.
      Ensures->>= KeepsJobs (required input.source_thread_id 255) _ λ source _.
        Ensures->>= KeepsJobs (required input.binding_open_id 191) _ λ open_id _.
          Ensures->>= KeepsJobs (required input.chat_id 191) _ λ chat _.
            Ensures->>= KeepsJobs (required input.message_id 191) _ λ message _.
              Ensures->>= KeepsJobs (required input.card_message_id 191) _
                λ card _. begin_fork_on-Edits run input (find? (is_run connection run) t.jobs)

  pub finish_fork-Edits :
      (id : String) (input : ForkResult) → Ensures KeepsJobs (finish_fork connection at id input t)
  unfolding finish_fork
  finish_fork-Edits id input = Ensures->>= KeepsJobs (required id 36) _ λ run _.
      Ensures->>= KeepsJobs (required input.operation_id 36) _ λ operation _.
        Ensures->>= KeepsJobs
          (if input.target_thread_id == "" then ok "" else required input.target_thread_id 255) _
          λ target _.
            finish_fork_on-Edits run operation target input (find? (is_run connection run) t.jobs)
