-- ===== src/Storage/ForwardJobs/Register/Laws.antt =====
-- upsert: one job for one key, and what a repeated call sees.
use agent_chat_bridge.Prelude.{
  ℕ, String, ◌≡◌, ◌⊎◌, inl, inr, Option, none, some, Bool, true, arith, refl, sym, ap₂, ◌∙◌, List,
  [], ◌∷◌, ◌++◌, ok, err, not, find?, either_branch, if◌then◌else◌, ◌==◌, text_or, job_conflict,
  eq_iff, any, Bool-cases,
}
use agent_chat_bridge.Json.{Json}
use agent_chat_bridge.Storage.ForwardJobs.{Job, required, required-cases, pending}
use agent_chat_bridge.Storage.ForwardJobs.Lifecycle.{IsWellFormed}
use agent_chat_bridge.Storage.ForwardJobs.Register.{
  UpsertInput, request_fingerprint, request_key, new_job, meets_key, stored, insert_ignore, has_key,
  registered, upsert,
}

-- What an upsert does to the table: nothing, or one new pending job with the id that the database
-- gave.
abbrev pub Grows : ℕ → List Job → List Job → Type 0
Grows n rows rows' =
    (rows' ≡ rows)
    ⊎ ((j : Job) × (rows' ≡ rows ++ j ∷ []) × (j.id ≡ n) × (j.status ≡ pending) × IsWellFormed j)

insert_ignore-Grows :
    (j : Job) (rows : List Job)
    → j.status ≡ pending
    → IsWellFormed j
    → Grows j.id rows (insert_ignore j rows)
unfolding insert_ignore stored
insert_ignore-Grows j rows new sound =
    either_branch (Grows j.id rows) (any (meets_key j) rows) _ _ (λ _. inl refl)
      (λ _. inr (stored j, refl, refl, new, sound))

find?-any :
    (p q : Job → Bool) (rows : List Job) {j : Job}
    → find? p rows ≡ some j
    → ((k : Job) → p k ≡ true → q k ≡ true)
    → any q rows ≡ true
unfolding find?
find?-any p q [] e imp = cc
find?-any p q (k ∷ rows) e imp = elim (Bool-cases (p k)) [
  | inl found ↦ rw (imp k found) refl
  | inr other ↦ elim (Bool-cases (q k)) [
    | inl meets ↦ rw meets refl
    | inr clear ↦ rw clear (find?-any p q rows (rw other at e) imp)
  ]
]

registered-cases :
    (hash run : String) (found : Option Job) (rows : List Job) {j : Job} {duplicate : Bool}
    {rows' : List Job}
    → registered hash run found rows ≡ ok (j, duplicate, rows')
    → (found ≡ some j)
      × (j.request_hash ≡ hash)
      × (duplicate ≡ not (j.public_run_id == run))
      × (rows' ≡ rows)
unfolding registered
registered-cases hash run none rows e = cc
registered-cases hash run (some k) rows e = ground (arith, eq_iff k.request_hash hash)

module _ (digest : Json → String) (connection : String) where
  abbrev key_of : UpsertInput → String
  key_of input = request_key digest connection input.caller_id input.idempotency_key

  -- The hash that the row keeps of the request.
  abbrev pub hash_of : UpsertInput → String
  hash_of input = text_or input.request_hash (request_fingerprint digest connection input)

  abbrev job_of : UpsertInput → String → ℕ → ℕ → Job
  job_of input run n at =
      new_job digest connection input input.caller_id (key_of input) (hash_of input)
        input.message_id input.conversation_id run n at

  -- The inputs that upsert accepts.
  abbrev pub IsValid : UpsertInput → Type 0
  IsValid input =
      (required input.caller_id 128 ≡ ok input.caller_id)
      × (required input.idempotency_key 512 ≡ ok input.idempotency_key)
      × (required input.message_id 191 ≡ ok input.message_id)
      × (required input.conversation_id 191 ≡ ok input.conversation_id)

  upsert_of_IsValid :
      (input : UpsertInput) (run : String) (n at : ℕ) (rows : List Job)
      → IsValid input
      → upsert digest connection input run n at rows ≡ (
          let rows' = insert_ignore (job_of input run n at) rows in
          registered (hash_of input) run (find? (has_key connection (key_of input)) rows') rows')
  unfolding upsert
  upsert_of_IsValid input run n at rows (c, k, m, v) = rw (c, k, m, v) refl

  -- What an accepted upsert shows: its inputs were valid, and its job is the row under the key.
  upsert-IsValid :
      (input : UpsertInput) (run : String) (n at : ℕ) (rows : List Job) {r : Job × Bool × List Job}
      → upsert digest connection input run n at rows ≡ ok r
      → IsValid input
  unfolding upsert
  upsert-IsValid input run n at rows e = ground (
    arith,
    required-cases input.caller_id 128,
    required-cases input.idempotency_key 512,
    required-cases input.message_id 191,
    required-cases input.conversation_id 191,
  )

  upsert-found :
      (input : UpsertInput) (run : String) (n at : ℕ) (rows : List Job) {j : Job} {duplicate : Bool}
      {rows' : List Job}
      → upsert digest connection input run n at rows ≡ ok (j, duplicate, rows')
      → (rows' ≡ insert_ignore (job_of input run n at) rows)
        × (find? (has_key connection (key_of input)) rows' ≡ some j)
        × (j.request_hash ≡ hash_of input)
        × (duplicate ≡ not (j.public_run_id == run))
  upsert-found input run n at rows e =
      let valid = upsert-IsValid input run n at rows e in
      let (found, hash, fresh, table) =
        registered-cases (hash_of input) run _ _
          (sym (upsert_of_IsValid input run n at rows valid) ∙ e) in
      (table, rw table found, hash, fresh)

  has_key-meets_key :
      (input : UpsertInput) (run : String) (n at : ℕ) (k : Job)
      → has_key connection (key_of input) k ≡ true
      → meets_key (job_of input run n at) k ≡ true
  unfolding has_key meets_key new_job
  has_key-meets_key input run n at k h = ground arith

  -- An accepted upsert adds at most one row, a pending job with the id that the database gave.
  pub upsert-Grows :
      (input : UpsertInput) (run : String) (n at : ℕ) (rows : List Job) (j : Job) (duplicate : Bool)
      (rows' : List Job)
      → upsert digest connection input run n at rows ≡ ok (j, duplicate, rows')
      → Grows n rows rows'
  unfolding new_job
  upsert-Grows input run n at rows j duplicate rows' e =
      rw (upsert-found input run n at rows e).0
        (insert_ignore-Grows (job_of input run n at) rows refl (refl, refl, refl, refl))

  -- On the table that an accepted call left, a call whose inputs keep their limits, with the same
  -- caller and idempotency key, never makes a second job. With the same
  -- request hash it returns the first job and the table as it is, marked as a duplicate unless the
  -- run id that it drew is that of the first job; with another hash it fails with `job_conflict`.
  pub upsert_again :
      (input again : UpsertInput) (run run' : String) (n n' at at' : ℕ) (rows rows' : List Job)
      (j : Job) (duplicate : Bool)
      → upsert digest connection input run n at rows ≡ ok (j, duplicate, rows')
      → IsValid again
      → again.caller_id ≡ input.caller_id
      → again.idempotency_key ≡ input.idempotency_key
      → upsert digest connection again run' n' at' rows' ≡ (
          if j.request_hash == hash_of again
          then ok (j, not (j.public_run_id == run'), rows')
          else err job_conflict)
  unfolding insert_ignore registered
  upsert_again input again run run' n n' at at' rows rows' j duplicate e valid caller key =
      let (_, found, _, _) = upsert-found input run n at rows e in
      let same : key_of again ≡ key_of input = ap₂ (request_key digest connection) caller key in
      let found' : find? (has_key connection (key_of again)) rows' ≡ some j = rw same found in
      let met =
        find?-any (has_key connection (key_of again)) (meets_key (job_of again run' n' at')) rows'
          found' (has_key-meets_key again run' n' at') in
      upsert_of_IsValid again run' n' at' rows' valid ∙ rw (met, found') refl
