-- ===== src/Storage/ForwardJobs/Leases/Documents.antt =====
-- What the operations of a worker leave alone in the result document of a job.
use agent_chat_bridge.Prelude.{
  ℕ, String, Bool, true, false, none, some, List, [], ◌∷◌, Result, ok, ◌≡◌, arith, Edits,
  update-Edits, one_of, >>=-eq-ok, ok-injective, ltb, affected, ensure, invalid_store_input,
  if◌then◌else◌, not, ◌||◌, ◌==◌, refl, ap, ◌∙◌, inl, inr,
}
use agent_chat_bridge.Json.{Json, Fields, get, remove_all, merge_patch, is_absent}
use agent_chat_bridge.Json.Laws.{get-set, get-remove_all, get-merge_patch}
use agent_chat_bridge.Storage.ForwardJobs.{Job, Status, is_finished, required-cases}
use agent_chat_bridge.Storage.ForwardJobs.Leases.{
  owned_update, feedback_members, delivered_members, finished, with_execution, renew,
  patch_execution, patch_feedback, patch_reply_result, mark_reply_pending, mark_finished,
  mark_finished_without_reply, mark_retry, retried, release_feedback, is_quiet, feedback_written,
  with_cleanup, feedback_keys,
}
use agent_chat_bridge.Storage.ForwardJobs.Leases.Steps.{with_args, with_ensure}
use agent_chat_bridge.Storage.ForwardJobs.Leases.Laws.{
  LeaseCall, renews, patches_execution, patches_feedback, patches_reply, answers, finishes,
  finishes_quietly, retries, releases, lease_call,
}

-- The member of the result is the one that it was.
abbrev pub Keeps : String → Job → Job → Type 0
Keeps key j k = get key k.result_json ≡ get key j.result_json

-- The members of a result that belong to others than the worker that completes the job.
abbrev pub foreign_members : List String
foreign_members = "executionCard" ∷ "typing" ∷ "stop" ∷ "userInput" ∷ []

abbrev pub foreign_members_and_delivery : List String
foreign_members_and_delivery = "executionCard" ∷ "typing" ∷ "stop" ∷ "delivery" ∷ "userInput" ∷ []

-- The members that a call leaves alone: all but the one that it names, and for a result that is
-- merged in, those that it lacks and the foreign ones, to which markFinished adds the delivery record.
abbrev pub spares : LeaseCall → String → Bool
spares (patches_execution x) key = not ("execution" == key)
spares (patches_feedback k v) key = not (k == key)
spares (patches_reply r) key = one_of foreign_members key || is_absent (get key r)
spares (answers r x code) key =
    one_of foreign_members key || is_absent (get key (with_execution x r))
spares (finishes s r code sent) key =
    one_of foreign_members_and_delivery key || is_absent (get key r)
spares (finishes_quietly s r code) key = one_of foreign_members key || is_absent (get key r)
spares _ key = true

get-merge_patch_spared :
    (hidden : List String) (key : String) (p m : Fields)
    → (one_of hidden key || is_absent (get key p)) ≡ true
    → get key (merge_patch (remove_all hidden p) m) ≡ get key m
get-merge_patch_spared hidden key p m h =
    get-merge_patch key (remove_all hidden p) m (ground (arith, get-remove_all hidden key p))

second-injective :
    {a b : Status} {x y : List Job}
    → ◌≡◌ {A = Result (Status × List Job)} (ok (a, x)) (ok (b, y))
    → x ≡ y
second-injective e = cc

owned_update-Keeps :
    (key : String) (p : Job → Bool) (f : Job → Job)
    → ((j : Job) → Keeps key j (f j))
    → (rows rows' : List Job) → owned_update p f rows ≡ ok rows'
    → Edits (Keeps key) rows rows'
unfolding owned_update
owned_update-Keeps key p f keep rows rows' e =
    let (_, _, done) = >>=-eq-ok (ensure (ltb 0 (affected p rows)) _) _ e in
    rw (← (ok-injective done)) (update-Edits (Keeps key) p f (λ j _. keep j) rows)

feedback_written-Keeps :
    (key k : String) (at : ℕ) (v : Json) (j : Job)
    → (k == key) ≡ false
    → Keeps key j (feedback_written k v at j)
unfolding feedback_written with_cleanup
feedback_written-Keeps key k at v j h = ground (arith, get-set k key v j.result_json)

module _ (connection id owner : String) (at : ℕ) where
  -- Whatever a worker calls under its lease, an accepted call leaves every member of every stored
  -- result that it does not write as it was. So a call that merges a result in, whatever that result
  -- is, keeps the execution card, the typing reaction, the stop request and the user input, and
  -- markFinished also the delivery record.
  pub lease_call-Keeps :
      (call : LeaseCall) (key : String) (rows rows' : List Job)
      → spares call key ≡ true
      → lease_call connection id owner at call rows ≡ ok rows'
      → Edits (Keeps key) rows rows'
  unfolding lease_call renew patch_execution patch_feedback patch_reply_result mark_reply_pending
      mark_finished mark_finished_without_reply mark_retry release_feedback finished retried
  lease_call-Keeps (renews t) key rows rows' h e =
      with_args connection id owner at _ e (owned_update-Keeps key _ _ (λ j. refl) rows rows')
  lease_call-Keeps (patches_execution x) key rows rows' h e = with_args connection id owner at _ e (
      owned_update-Keeps key _ _ (λ j. ground (arith, get-set "execution" key x j.result_json)) rows
        rows')
  lease_call-Keeps (patches_feedback k v) key rows rows' h e =
      with_args connection id owner at _ e λ e'. elim (required-cases k 32) [
        | inl passed ↦
            owned_update-Keeps key _ (feedback_written k v at)
              (λ j. feedback_written-Keeps key k at v j (ground arith)) rows rows'
              (with_ensure connection id owner at (one_of feedback_keys k) invalid_store_input _
                (rw passed at e')).1
        | inr refused ↦ cc (rw refused at e')
      ]
  lease_call-Keeps (patches_reply r) key rows rows' h e = with_args connection id owner at _ e (
      owned_update-Keeps key _ _
        (λ j. get-merge_patch_spared feedback_members key r j.result_json h) rows rows')
  lease_call-Keeps (answers r x code) key rows rows' h e = with_args connection id owner at _ e (
      owned_update-Keeps key _ _
        (λ j. get-merge_patch_spared feedback_members key (with_execution x r) j.result_json h) rows
        rows')
  lease_call-Keeps (finishes s r code sent) key rows rows' h e =
      with_args connection id owner at _ e λ e'.
        owned_update-Keeps key _
          (finished s delivered_members r code (if sent then some at else none) at)
          (λ j. get-merge_patch_spared delivered_members key r j.result_json h) rows rows'
          (with_ensure connection id owner at (is_finished s) invalid_store_input _ e').1
  lease_call-Keeps (finishes_quietly s r code) key rows rows' h e =
      with_args connection id owner at _ e λ e'.
        owned_update-Keeps key _ (finished s feedback_members r code none at)
          (λ j. get-merge_patch_spared feedback_members key r j.result_json h) rows rows'
          (with_ensure connection id owner at (is_quiet s) invalid_store_input _ e').1
  lease_call-Keeps (retries i) key rows rows' h e =
      let ((status, changed), retried_rows, same) =
        >>=-eq-ok (mark_retry connection id owner at i rows) _ e in
      with_args connection id owner at _ retried_rows λ e'.
        let (changed', written, same') = >>=-eq-ok (owned_update _ (retried i at) rows) _ e' in
        owned_update-Keeps key _ (retried i at) (λ j. refl) rows rows'
          (written ∙ ap ok (second-injective same') ∙ same)
  lease_call-Keeps (releases n) key rows rows' h e =
      with_args connection id owner at _ e (owned_update-Keeps key _ _ (λ j. refl) rows rows')
