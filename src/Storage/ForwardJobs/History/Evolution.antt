-- ===== src/Storage/ForwardJobs/History/Evolution.antt =====
-- Each accepted operation takes each row at most one step on and adds at most one row.
use agent_chat_bridge.Prelude.{
  ℕ, String, Bool, List, [], ◌∷◌, ◌++◌, ◌≡◌, ◌≢◌, ◌⊎◌, inl, inr, All, sym, subst, Edits, Edits-mono,
  Edits-refl, Ensures-ok,
}
use agent_chat_bridge.Json.{Json}
use agent_chat_bridge.Storage.ForwardJobs.{Job, pending}
use agent_chat_bridge.Storage.ForwardJobs.Lifecycle.{JobStep, IsWellFormed}
use agent_chat_bridge.Storage.ForwardJobs.Claims.{ids}
use agent_chat_bridge.Storage.ForwardJobs.Claims.Selection.{HasDistinctIds}
use agent_chat_bridge.Storage.ForwardJobs.Claims.Steps.{
  ClaimStep, claim-Claimed, claim_reply_pending-Claimed, claim_feedback_pending-Claimed,
  claim_by_id-Edits, claim_reply_by_id-Edits, patch_prepared_input-Edits,
}
use agent_chat_bridge.Storage.ForwardJobs.Leases.Steps.{
  Accepted, renew-Accepted, patch_execution-Accepted, patch_feedback-Accepted,
  patch_reply_result-Accepted, mark_reply_pending-Accepted, mark_finished-Accepted,
  mark_finished_without_reply-Accepted, mark_retry-Accepted, release_feedback-Accepted,
}
use agent_chat_bridge.Storage.ForwardJobs.Fork.{Tables}
use agent_chat_bridge.Storage.ForwardJobs.Fork.Steps.{
  KeepsJobs, begin_fork-Edits, finish_fork-Edits,
}
use agent_chat_bridge.Storage.ForwardJobs.UserInput.Steps.{
  KeepsRows, begin_user_input-Edits, finish_user_input_card-Edits, begin_user_input_answer-Edits,
  finish_user_input-Edits, expire_user_input-Edits, mark_user_input_unknown-Edits,
}
use agent_chat_bridge.Storage.ForwardJobs.Stop.Steps.{
  Keeps, KeepsStopped, begin_stop-Edits, finish_stop-Edits,
}
use agent_chat_bridge.Storage.ForwardJobs.Register.Laws.{upsert-Grows}
use agent_chat_bridge.Storage.ForwardJobs.History.{
  StoreStep, registers, prepares, claims, claims_one, claims_replies, claims_reply, claims_cleanups,
  renews, patches_execution, patches_feedback, patches_reply, answers, finishes, finishes_quietly,
  retries, releases, begins_fork, finishes_fork, asks, sends_card, submits, settles, expires, loses,
  begins_stop, finishes_stop,
}

-- The table after an operation: every old row as it was or one step on, and at most one new row.
abbrev pub Evolves : List Job → List Job → Type 0
Evolves rows rows' =
    Edits JobStep rows rows'
    ⊎ ((j : Job) × (rows' ≡ rows ++ j ∷ [])
        × All (λ m. m ≢ j.id) (ids rows)
        × (j.status ≡ pending)
        × IsWellFormed j)

Claim-Edits :
    (p : Job → Bool) (lease : Job → Job) (rows rows' : List Job)
    → Edits (ClaimStep p lease) rows rows'
    → Edits JobStep rows rows'
Claim-Edits p lease rows rows' = Edits-mono (λ j k s. s.step) rows rows'

Lease-Edits :
    {c id owner : String} {at : ℕ} (rows rows' : List Job)
    → Accepted c id owner at rows rows'
    → Edits JobStep rows rows'
Lease-Edits rows rows' a = Edits-mono (λ j k s. s.step) rows rows' a.edits

module _ (digest : Json → String) (c : String) (rows rows' : List Job) where
  pub StoreStep-Evolves : HasDistinctIds rows → StoreStep digest c rows rows' → Evolves rows rows'
  StoreStep-Evolves d (registers input run n at j duplicate fresh e) =
      elim (upsert-Grows digest c input run n at rows j duplicate rows' e) [
        | inl same ↦ inl (rw same (Edits-refl JobStep rows))
        | inr (k, table, id, new, sound) ↦
            inr (k, table, subst (λ m. All (λ i. i ≢ m) (ids rows)) (sym id) fresh, new, sound)
      ]
  StoreStep-Evolves d (prepares id x at found e) =
      inl (patch_prepared_input-Edits c id x at rows _ e)
  StoreStep-Evolves d (claims i locked at got e) =
      inl (Claim-Edits _ _ rows rows' (claim-Claimed c i at rows d locked _ e).edits)
  StoreStep-Evolves d (claims_one i id at got e) =
      inl (Claim-Edits _ _ rows rows' (claim_by_id-Edits c i at rows d id _ e))
  StoreStep-Evolves d (claims_replies i locked at got e) =
      inl (Claim-Edits _ _ rows rows' (claim_reply_pending-Claimed c i at rows d locked _ e).edits)
  StoreStep-Evolves d (claims_reply i id at got e) =
      inl (Claim-Edits _ _ rows rows' (claim_reply_by_id-Edits c i at rows d id _ e))
  StoreStep-Evolves d (claims_cleanups i locked at got e) =
      inl
        (Claim-Edits _ _ rows rows' (claim_feedback_pending-Claimed c i at rows d locked _ e).edits)
  StoreStep-Evolves d (renews id o at t e) =
      inl (Lease-Edits rows rows' (renew-Accepted c id o at t rows rows' e))
  StoreStep-Evolves d (patches_execution id o at x e) =
      inl (Lease-Edits rows rows' (patch_execution-Accepted c id o at x rows rows' e))
  StoreStep-Evolves d (patches_feedback id o at key v e) =
      inl (Lease-Edits rows rows' (patch_feedback-Accepted c id o at key v rows rows' e))
  StoreStep-Evolves d (patches_reply id o at r e) =
      inl (Lease-Edits rows rows' (patch_reply_result-Accepted c id o at r rows rows' e))
  StoreStep-Evolves d (answers id o at r x code e) =
      inl (Lease-Edits rows rows' (mark_reply_pending-Accepted c id o at r x code rows rows' e))
  StoreStep-Evolves d (finishes id o at s r code sent e) =
      inl (Lease-Edits rows rows' (mark_finished-Accepted c id o at s r code sent rows rows' e))
  StoreStep-Evolves d (finishes_quietly id o at s r code e) = inl (
      Lease-Edits rows rows' (mark_finished_without_reply-Accepted c id o at s r code rows rows' e))
  StoreStep-Evolves d (retries id o at i s e) =
      inl (Lease-Edits rows rows' (mark_retry-Accepted c id o at i s rows rows' e))
  StoreStep-Evolves d (releases id o at n e) =
      inl (Lease-Edits rows rows' (release_feedback-Accepted c id o at n rows rows' e))
  StoreStep-Evolves d (begins_fork at id i before after o e) =
      let t : Tables = record { jobs = rows; sessions = before } in
      inl (Ensures-ok (KeepsJobs c at t) (begin_fork-Edits c at t id i) e)
  StoreStep-Evolves d (finishes_fork at id i before after o e) =
      let t : Tables = record { jobs = rows; sessions = before } in
      inl (Ensures-ok (KeepsJobs c at t) (finish_fork-Edits c at t id i) e)
  StoreStep-Evolves d (asks at id i o e) =
      inl (Ensures-ok (KeepsRows c at rows) (begin_user_input-Edits c at rows id i) e)
  StoreStep-Evolves d (sends_card at id key s m o e) =
      inl (Ensures-ok (KeepsRows c at rows) (finish_user_input_card-Edits c at rows id key s m) e)
  StoreStep-Evolves d (submits at id i o e) =
      inl (Ensures-ok (KeepsRows c at rows) (begin_user_input_answer-Edits c at rows id i) e)
  StoreStep-Evolves d (settles at id key op s o e) =
      inl (Ensures-ok (KeepsRows c at rows) (finish_user_input-Edits c at rows id key op s) e)
  StoreStep-Evolves d (expires at id key o e) =
      inl (Ensures-ok (KeepsRows c at rows) (expire_user_input-Edits c at rows id key) e)
  StoreStep-Evolves d (loses at id key op o e) =
      inl (Ensures-ok (KeepsRows c at rows) (mark_user_input_unknown-Edits c at rows id key op) e)
  StoreStep-Evolves d (begins_stop at id i o e) =
      inl (Ensures-ok (Keeps c at rows) (begin_stop-Edits c at rows id i) e)
  StoreStep-Evolves d (finishes_stop at id s saved known e) =
      inl (Ensures-ok (KeepsStopped c at rows) (finish_stop-Edits c at rows id s) e)
