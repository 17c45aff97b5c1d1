-- ===== src/Storage/Runs/Leases/Laws.antt =====
-- What an operation that passed `owned` or releaseAttempt knows.
use agent_chat_bridge.Prelude.{
  ℕ, String, true, false, Option, none, some, List, find?, ok, ◌≡◌, ◌==◌, eq_iff, arith,
  find?-match, Bool-cases, >>=-eq-ok, inl, inr, ok-injective, ap, ◌∙◌, subst,
}
use agent_chat_bridge.Storage.ForwardJobs.{required}
use agent_chat_bridge.Storage.Runs.{RunJob, is_job}
use agent_chat_bridge.Storage.Runs.Leases.{LeaseInput, lease, is_leased, holds_job, owned_job}

holds_job-held :
    (token : String) (at : ℕ) (found : Option RunJob) {j : RunJob}
    → holds_job token at found ≡ ok j
    → (found ≡ some j) × (is_leased token at j.lease_token j.status j.lease_expires_at ≡ true)
unfolding holds_job
holds_job-held token at none e = cc
holds_job-held token at (some k) {j = j} e =
    elim (Bool-cases (is_leased token at k.lease_token k.status k.lease_expires_at)) [
      | inl held ↦
          let same = ok-injective (rw held at e) in
          (
            ap some same,
            subst (λ x. is_leased token at x.lease_token x.status x.lease_expires_at ≡ true) same
                held,
          )
      | inr free ↦ cc (rw free at e)
    ]

-- The row of a job, which its caller has under an unexpired lease.
pub owned_job-held :
    (connection : String) (input : LeaseInput) (at : ℕ) (jobs : List RunJob) {j : RunJob}
    → owned_job connection input at jobs ≡ ok j
    → (find? (is_job connection input.id) jobs ≡ some j)
      × (is_leased input.lease_token at j.lease_token j.status j.lease_expires_at ≡ true)
unfolding owned_job
owned_job-held connection input at jobs e =
    let (_, _, held) = >>=-eq-ok (lease input) _ e in
    holds_job-held input.lease_token at (find? (is_job connection input.id) jobs) held

-- A lease that passed its check has an id.
pub lease-id : (input : LeaseInput) {u : Unit {0}} → lease input ≡ ok u → (input.id == "") ≡ false
unfolding lease required
lease-id input e = elim (Bool-cases (input.id == "")) [
  | inl empty ↦ cc (rw empty at e)
  | inr given ↦ given
]

pub owned_job-id :
    (connection : String) (input : LeaseInput) (at : ℕ) (jobs : List RunJob) {j : RunJob}
    → owned_job connection input at jobs ≡ ok j
    → (j.id ≡ input.id) × (j.connection_id ≡ connection) × ((j.id == "") ≡ false)
unfolding owned_job
owned_job-id connection input at jobs {j = j} e =
    let (_, checked, _) = >>=-eq-ok (lease input) _ e in
    let (found, _) = owned_job-held connection input at jobs e in
    let (_, met) = find?-match (is_job connection input.id) jobs found in
    let same : j.id ≡ input.id = (eq_iff j.id input.id).0 (ground (arith, met)) in
    (
      same,
      (eq_iff j.connection_id connection).0 (ground (arith, met)),
      ap (λ x. x == "") same ∙ lease-id input checked,
    )
