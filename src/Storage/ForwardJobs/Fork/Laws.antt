-- ===== src/Storage/ForwardJobs/Fork/Laws.antt =====
-- One card forks its busy thread once.
use agent_chat_bridge.Prelude.{
  ℕ, String, ◌≡◌, Option, none, some, Bool, true, false, not, arith, refl, sym, ap, ◌∙◌, List, ok,
  find?, find?-update, find?-match, Result, inl, inr, if◌then◌else◌,
}
use agent_chat_bridge.Json.{Json, obj, Fields, get, set, truthy}
use agent_chat_bridge.Json.Laws.{get-set}
use agent_chat_bridge.Storage.ForwardJobs.{Job, required, required-cases, is_run}
use agent_chat_bridge.Storage.ForwardJobs.Fork.{
  Tables, Outcome, stale, replay, fresh, ForkInput, offers_fork, is_bound, is_binding, new_fork,
  write_result, begin_fork_on, begin_fork,
}

-- The same request with another person and operation.
abbrev pub by_operation : String → String → ForkInput → ForkInput
by_operation actor operation input = record input { actor = actor; operation_id = operation }

-- The row that the write leaves.
abbrev with_fork : Fields → ℕ → Job → Job
with_fork fork at j = record j {
  result_json = set "fork" (obj fork) j.result_json;
  updated_at = at;
}

-- What the card offered reads nothing that the write changes.
offers_fork-with_fork :
    (input : ForkInput) (actor operation : String) (fork : Fields) (at : ℕ) (j : Job)
    → offers_fork (by_operation actor operation input) (with_fork fork at j) ≡ offers_fork input j
unfolding offers_fork
offers_fork-with_fork input actor operation fork at j =
    rw
      (
        get-set "fork" "busyFork" (obj fork) j.result_json,
        get-set "fork" "executionCard" (obj fork) j.result_json,
      )
      refl

-- A request that is recorded passed the guards before.
past_checks :
    (a b c : Bool) (x : Json) (m : Result (Outcome × Tables)) (t t' : Tables) {fork : Json}
    → (if a then ok (stale, t) else if b then ok (replay x, t) else if c then ok (stale, t) else m)
      ≡ ok (fresh fork, t')
    → (a ≡ false) × (b ≡ false) × (c ≡ false) × (m ≡ ok (fresh fork, t'))
past_checks true b c x m t t' e = cc
past_checks false true c x m t t' e = cc
past_checks false false true x m t t' e = cc
past_checks false false false x m t t' e = (refl, refl, refl, e)

module _ (connection : String) where
  -- The limits that an accepted request meets.
  fork-passes :
      (at : ℕ) (id : String) (input : ForkInput) (t : Tables) {r : Outcome × Tables}
      → begin_fork connection at id input t ≡ ok r
      → (required id 36 ≡ ok id)
        × (required input.source_thread_id 255 ≡ ok input.source_thread_id)
        × (required input.binding_open_id 191 ≡ ok input.binding_open_id)
        × (required input.chat_id 191 ≡ ok input.chat_id)
        × (required input.message_id 191 ≡ ok input.message_id)
        × (required input.card_message_id 191 ≡ ok input.card_message_id)
  unfolding begin_fork
  fork-passes at id input t e = ground (
    arith,
    required-cases id 36,
    required-cases input.source_thread_id 255,
    required-cases input.binding_open_id 191,
    required-cases input.chat_id 191,
    required-cases input.message_id 191,
    required-cases input.card_message_id 191,
  )

  fork-on :
      (at : ℕ) (id : String) (input : ForkInput) (t : Tables) {r : Outcome × Tables}
      → begin_fork connection at id input t ≡ ok r
      → (required id 36 ≡ ok id)
        × (begin_fork_on connection at id input (find? (is_run connection id) t.jobs) t ≡ ok r)
        × ((at' : ℕ) (actor operation : String) (t' : Tables)
            → begin_fork connection at' id (by_operation actor operation input) t'
              ≡ begin_fork_on connection at' id
                  (by_operation actor operation input)
                  (find? (is_run connection id) t'.jobs)
                  t')
  unfolding begin_fork
  fork-on at id input t e =
      let (run, source, open_id, chat, message, sent) = fork-passes at id input t e in
      (
        run,
        rw (run, source, open_id, chat, message, sent) at e,
        λ at' actor operation t'. rw (run, source, open_id, chat, message, sent) refl,
      )

  fork-recorded :
      (at : ℕ) (id : String) (input : ForkInput) (found : Option Job) (t t' : Tables) {fork : Json}
      → begin_fork_on connection at id input found t ≡ ok (fresh fork, t')
      → (j : Job) × (found ≡ some j)
        × (offers_fork input j ≡ true)
        × (fork ≡ obj (new_fork input.source_thread_id input.actor input.operation_id at))
        × (t'.jobs
            ≡ write_result connection id
                (set "fork"
                  (obj (new_fork input.source_thread_id input.actor input.operation_id at))
                  j.result_json)
                at
                t.jobs)
  unfolding begin_fork_on
  fork-recorded at id input none t t' e = cc
  fork-recorded at id input (some j) t t' e =
      let (offered, _, _, wrote) =
        past_checks (not (offers_fork input j)) (truthy (get "fork" j.result_json))
          (not (
            is_bound (find? (is_binding connection input.binding_open_id input.chat_id) t.sessions)
              input.source_thread_id))
          _ _ t t' e in
      elim (required-cases input.actor 191) [
        | inl actor ↦ elim (required-cases input.operation_id 36) [
          | inl operation ↦
              let done = rw (actor, operation) at wrote in
              (j, refl, ground arith, cc, ap (λ (x : Tables). x.jobs) (sym (second-of done)))
          | inr refused ↦ cc (rw (actor, refused) at wrote)
        ]
        | inr refused ↦ cc (rw refused at wrote)
      ]
    where
      second-of :
          {o o' : Outcome} {x y : Tables}
          → ◌≡◌ {A = Result (Outcome × Tables)} (ok (o, x)) (ok (o', y))
          → x ≡ y
      second-of p = cc

  find?-write_fork :
      (at : ℕ) (id : String) (fork : Fields) (rows : List Job) {j : Job}
      → find? (is_run connection id) rows ≡ some j
      → find?
          (is_run connection id)
          (write_result connection id (set "fork" (obj fork) j.result_json) at rows)
        ≡ some (with_fork fork at j)
  unfolding write_result
  find?-write_fork at id fork rows {j = j} found =
      find?-update (is_run connection id) (is_run connection id)
        (λ k. record k { result_json = set "fork" (obj fork) j.result_json; updated_at = at })
        (λ y h. h) (λ y. refl) rows found (find?-match (is_run connection id) rows found).1

  fork-replays :
      (at at' : ℕ) (id : String) (input : ForkInput) (actor operation : String) (fork : Fields)
      (j : Job) (t : Tables)
      → offers_fork input j ≡ true
      → begin_fork_on connection at' id
          (by_operation actor operation input)
          (some (with_fork fork at j))
          t
        ≡ ok (replay (obj fork), t)
  unfolding begin_fork_on
  fork-replays at at' id input actor operation fork j t offered =
      rw
        (
          offers_fork-with_fork input actor operation fork at j,
          offered,
          get-set "fork" "fork" (obj fork) j.result_json,
        )
        refl

  -- On the tables that a recorded fork of a card left, a later request of that card, by anybody, returns the
  -- recorded fork and writes nothing.
  pub begin_fork_again :
      (at at' : ℕ) (id actor operation : String) (input : ForkInput) (t t' : Tables) (fork : Json)
      → begin_fork connection at id input t ≡ ok (fresh fork, t')
      → begin_fork connection at' id (by_operation actor operation input) t' ≡ ok (replay fork, t')
  begin_fork_again at at' id actor operation input t t' fork e =
      let (run, on, later) = fork-on at id input t e in
      let (j, found, offered, is_fork, table) = fork-recorded at id input _ t t' on in
      later at' actor operation t'
      ∙ ap (λ f. begin_fork_on connection at' id (by_operation actor operation input) f t')
          (ap (find? (is_run connection id)) table
            ∙ find?-write_fork at id
                (new_fork input.source_thread_id input.actor input.operation_id at) t.jobs found)
      ∙ fork-replays at at' id input actor operation
          (new_fork input.source_thread_id input.actor input.operation_id at) j t' offered
      ∙ ap (λ x. ok (replay x, t')) (sym is_fork)
