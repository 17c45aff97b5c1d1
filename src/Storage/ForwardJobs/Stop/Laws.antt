-- ===== src/Storage/ForwardJobs/Stop/Laws.antt =====
-- One person's stop of a turn is recorded once.
use agent_chat_bridge.Prelude.{
  ℕ, String, ◌≡◌, Option, none, some, Bool, true, false, not, arith, refl, sym, ap, ◌∙◌, List, ok,
  find?, ◌==◌, find?-update, find?-match, Result, ◌&&◌, ◌||◌, eq_iff, inl, inr, if◌then◌else◌,
}
use agent_chat_bridge.Json.{Json, obj, Fields, get, set, members}
use agent_chat_bridge.Json.Laws.{get-set}
use agent_chat_bridge.Storage.ForwardJobs.{Job, required, required-cases, is_run, is_running}
use agent_chat_bridge.Storage.ForwardJobs.Fork.{Outcome, stale, already_finished, replay, fresh}
use agent_chat_bridge.Storage.ForwardJobs.Stop.{
  StopInput, names_turn, new_stop, identifies_turn, stop_of, write_stop, begin_stop_on, begin_stop,
}

-- The row that the write leaves.
abbrev with_stop : Fields → ℕ → Job → Job
with_stop stop at j = record j {
  result_json = set "stop" (obj stop) j.result_json;
  updated_at = at;
}

-- The same request by another person.
abbrev pub by_actor : String → StopInput → StopInput
by_actor actor input = record input { actor = actor }

stop_of-with_stop : (stop : Fields) (at : ℕ) (j : Job) → stop_of (with_stop stop at j) ≡ stop
stop_of-with_stop stop at j = ap members (get-set "stop" "stop" (obj stop) j.result_json)

-- The checks of the turn read nothing that the write changes.
identifies_turn-with_stop :
    (input : StopInput) (actor : String) (stop : Fields) (at : ℕ) (j : Job)
    → identifies_turn (by_actor actor input) (with_stop stop at j) ≡ identifies_turn input j
unfolding identifies_turn
identifies_turn-with_stop input actor stop at j =
    rw
      (
        get-set "stop" "execution" (obj stop) j.result_json,
        get-set "stop" "executionCard" (obj stop) j.result_json,
      )
      refl

-- A request that is recorded passed the guards before.
past_guards :
    (a b c : Bool) (x : Json) (m : Result (Outcome × List Job)) (rows rows' : List Job)
    {stop : Json}
    → (if a
        then ok (stale, rows)
        else if b
        then ok (already_finished, rows)
        else if c
        then ok (replay x, rows)
        else m)
      ≡ ok (fresh stop, rows')
    → (a ≡ false) × (b ≡ false) × (c ≡ false) × (m ≡ ok (fresh stop, rows'))
past_guards true b c x m rows rows' e = cc
past_guards false true c x m rows rows' e = cc
past_guards false false true x m rows rows' e = cc
past_guards false false false x m rows rows' e = (refl, refl, refl, e)

same_text : (s : String) → (s == s) ≡ true
same_text s = ground (arith, eq_iff s s)

module _ (connection : String) where
  -- The limits that an accepted request meets.
  stop-passes :
      (at : ℕ) (id : String) (input : StopInput) (rows : List Job) {r : Outcome × List Job}
      → begin_stop connection at id input rows ≡ ok r
      → (required id 36 ≡ ok id)
        × (required input.thread_id 255 ≡ ok input.thread_id)
        × (required input.turn_id 255 ≡ ok input.turn_id)
        × ((b : String) × ((if input.binding_thread_id == ""
                then ok ""
                else required input.binding_thread_id 255)
              ≡ ok b))
        × (required input.message_id 191 ≡ ok input.message_id)
  unfolding begin_stop
  stop-passes at id input rows e = ground (
    arith,
    required-cases id 36,
    required-cases input.thread_id 255,
    required-cases input.turn_id 255,
    required-cases input.binding_thread_id 255,
    required-cases input.message_id 191,
  )

  stop-on :
      (at : ℕ) (id : String) (input : StopInput) (rows : List Job) {r : Outcome × List Job}
      → begin_stop connection at id input rows ≡ ok r
      → (required id 36 ≡ ok id)
        × (begin_stop_on connection at id input (find? (is_run connection id) rows) rows ≡ ok r)
        × ((at' : ℕ) (actor : String) (rows' : List Job)
            → begin_stop connection at' id (by_actor actor input) rows'
              ≡ begin_stop_on connection at' id
                  (by_actor actor input)
                  (find? (is_run connection id) rows')
                  rows')
  unfolding begin_stop
  stop-on at id input rows e =
      let passed = stop-passes at id input rows e in
      (passed.0, ground arith, λ at' actor rows'. ground arith)

  stop-recorded :
      (at : ℕ) (id : String) (input : StopInput) (found : Option Job) (rows rows' : List Job)
      {stop : Json}
      → begin_stop_on connection at id input found rows ≡ ok (fresh stop, rows')
      → (j : Job) × (found ≡ some j)
        × (is_running j.status ≡ true)
        × (identifies_turn input j ≡ true)
        × ((j.message_id == input.message_id) ≡ true)
        × (stop ≡ obj (new_stop input input.actor at))
        × (rows'
            ≡ write_stop connection at
                (λ k. is_run connection id k && is_running k.status)
                (new_stop input input.actor at)
                rows)
  unfolding begin_stop_on
  stop-recorded at id input none rows rows' e = cc
  stop-recorded at id input (some j) rows rows' e =
      let (matches, running, _, wrote) =
        past_guards (not (identifies_turn input j) || not (j.message_id == input.message_id))
          (not (is_running j.status))
          (names_turn input.thread_id input.turn_id input.message_id (stop_of j)) _ _ rows rows'
          e in
      elim (required-cases input.actor 191) [
        | inl passed ↦
            let done = rw passed at wrote in
            (j, refl, ground arith, ground arith, ground arith, cc, cc)
        | inr refused ↦ cc (rw refused at wrote)
      ]

  find?-write_stop :
      (at : ℕ) (id : String) (stop : Fields) (rows : List Job) {j : Job}
      → find? (is_run connection id) rows ≡ some j
      → is_running j.status ≡ true
      → find?
          (is_run connection id)
          (write_stop connection at (λ k. is_run connection id k && is_running k.status) stop rows)
        ≡ some (with_stop stop at j)
  unfolding write_stop
  find?-write_stop at id stop rows {j = j} found running =
      let matched = (find?-match (is_run connection id) rows found).1 in
      find?-update (λ k. is_run connection id k && is_running k.status) (is_run connection id)
        (with_stop stop at) (λ y h. ground arith) (λ y. refl) rows found (ground arith)

  stop-replays :
      (at at' : ℕ) (id : String) (input : StopInput) (actor : String) (j : Job) (rows : List Job)
      → is_running j.status ≡ true
      → identifies_turn input j ≡ true
      → (j.message_id == input.message_id) ≡ true
      → begin_stop_on connection at' id
          (by_actor actor input)
          (some (with_stop (new_stop input input.actor at) at j))
          rows
        ≡ ok (replay (obj (new_stop input input.actor at)), rows)
  unfolding begin_stop_on get
  stop-replays at at' id input actor j rows running same_turn same_message =
      let stop = new_stop input input.actor at in
      let turn = identifies_turn-with_stop input actor stop at j in
      let there = stop_of-with_stop stop at j in
      rw
        (
          turn,
          same_turn,
          same_message,
          running,
          there,
          same_text input.thread_id,
          same_text input.turn_id,
          same_text input.message_id,
        )
        refl

  -- On the table that a recorded stop of a turn left, a later request to stop that turn, by anybody, returns the
  -- recorded one and writes nothing.
  pub begin_stop_again :
      (at at' : ℕ) (id actor : String) (input : StopInput) (rows rows' : List Job) (stop : Json)
      → begin_stop connection at id input rows ≡ ok (fresh stop, rows')
      → begin_stop connection at' id (by_actor actor input) rows' ≡ ok (replay stop, rows')
  begin_stop_again at at' id actor input rows rows' stop e =
      let (run, on, later) = stop-on at id input rows e in
      let (j, found, running, turn, message, is_stop, table) =
        stop-recorded at id input _ rows rows' on in
      later at' actor rows'
      ∙ ap (λ t. begin_stop_on connection at' id (by_actor actor input) t rows')
          (ap (find? (is_run connection id)) table
            ∙ find?-write_stop at id (new_stop input input.actor at) rows found running)
      ∙ stop-replays at at' id input actor j rows' running turn message
      ∙ ap (λ x. ok (replay x, rows')) (sym is_stop)
