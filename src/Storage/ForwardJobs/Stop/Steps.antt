-- ===== src/Storage/ForwardJobs/Stop/Steps.antt =====
-- beginStop and finishStop write a new result to one job and leave all else of it.
use agent_chat_bridge.Prelude.{
  ℕ, String, Option, none, some, Bool, arith, List, ok, not, ◌&&◌, ◌||◌, find?, ltb, affected,
  Ensures, ensures, Ensures->>=, either_branch, Edits, Edits-refl, update-Edits, if◌then◌else◌,
  ◌==◌, refused, stop_conflict,
}
use agent_chat_bridge.Json.{Fields, obj, set}
use agent_chat_bridge.Storage.ForwardJobs.{Job, required, is_run, is_running}
use agent_chat_bridge.Storage.ForwardJobs.Lifecycle.{JobStep, CanMove-refl}
use agent_chat_bridge.Storage.ForwardJobs.Fork.{Outcome, not_found, stale, already_finished, replay}
use agent_chat_bridge.Storage.ForwardJobs.Stop.{
  StopInput, StopResult, names_turn, identifies_turn, stop_of, is_open_stop, write_stop,
  begin_stop_on, begin_stop, saved_stop, finish_stop,
}

module _ (connection : String) (at : ℕ) (rows : List Job) where
  write_stop-Edits :
      (p : Job → Bool) (stop : Fields) → Edits JobStep rows (write_stop connection at p stop rows)
  unfolding write_stop
  write_stop-Edits p stop =
      update-Edits JobStep p
        (λ j. record j { result_json = set "stop" (obj stop) j.result_json; updated_at = at })
        (λ j h. record { same = ground arith; move = CanMove-refl j.status; sound = λ w. w }) rows

  abbrev pub Keeps : Outcome × List Job → Type 0
  Keeps r = Edits JobStep rows r.1

  unchanged : (o : Outcome) → Ensures Keeps (ok (o, rows))
  unchanged o = ensures Keeps (Edits-refl JobStep rows)

  begin_stop_on-Edits :
      (run : String) (input : StopInput) (found : Option Job)
      → Ensures Keeps (begin_stop_on connection at run input found rows)
  unfolding begin_stop_on
  begin_stop_on-Edits run input none = unchanged not_found
  begin_stop_on-Edits run input (some found) =
      either_branch (Ensures Keeps)
        (not (identifies_turn input found) || not (found.message_id == input.message_id)) _ _
        (λ _. unchanged stale)
        λ _.
          either_branch (Ensures Keeps) (not (is_running found.status)) _ _
            (λ _. unchanged already_finished)
            λ _.
              either_branch (Ensures Keeps)
                (names_turn input.thread_id input.turn_id input.message_id (stop_of found)) _ _
                (λ _. unchanged (replay _))
                λ _.
                  Ensures->>= Keeps (required input.actor 191) _
                    λ actor _. ensures Keeps (write_stop-Edits _ _)

  -- Neither operation moves a job along its life.
  pub begin_stop-Edits :
      (id : String) (input : StopInput) → Ensures Keeps (begin_stop connection at id input rows)
  unfolding begin_stop
  begin_stop-Edits id input = Ensures->>= Keeps (required id 36) _ λ run _.
      Ensures->>= Keeps (required input.thread_id 255) _ λ thread _.
        Ensures->>= Keeps (required input.turn_id 255) _ λ turn _.
          Ensures->>= Keeps
            (if input.binding_thread_id == "" then ok "" else required input.binding_thread_id 255)
            _
            λ bound _.
              Ensures->>= Keeps (required input.message_id 191) _
                λ message _. begin_stop_on-Edits run input (find? (is_run connection run) rows)

  abbrev pub KeepsStopped : Fields × Bool × List Job → Type 0
  KeepsStopped r = Edits JobStep rows r.2

  saved_stop-Edits :
      (stop : StopResult) (found : Option Job)
      → Ensures KeepsStopped (saved_stop connection at stop found rows)
  unfolding saved_stop
  saved_stop-Edits stop none = refused KeepsStopped stop_conflict
  saved_stop-Edits stop (some found) =
      either_branch (Ensures KeepsStopped)
        (names_turn stop.thread_id stop.turn_id stop.message_id (stop_of found)) _ _
        (λ _. ensures KeepsStopped (Edits-refl JobStep rows))
        (λ _. refused KeepsStopped stop_conflict)

  pub finish_stop-Edits :
      (id : String) (stop : StopResult)
      → Ensures KeepsStopped (finish_stop connection at id stop rows)
  unfolding finish_stop
  finish_stop-Edits id stop = Ensures->>= KeepsStopped (required id 36) _ λ run _.
      either_branch (Ensures KeepsStopped)
        (ltb 0 (affected (λ j. is_run connection run j && is_open_stop stop j) rows)) _ _
        (λ _. ensures KeepsStopped (write_stop-Edits _ _))
        (λ _. saved_stop-Edits stop (find? (is_run connection run) rows))
