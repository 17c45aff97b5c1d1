-- ===== src/Storage/Runs/Steering/Laws.antt =====
-- A job's text is sent into a turn at most once, as long as its sending is not settled.
use agent_chat_bridge.Prelude.{
  ℕ, String, Bool, true, not, ◌&&◌, ◌||◌, Option, none, some, List, [], ◌∷◌, ◌++◌, find?, any, ok,
  Ensures, ensures, Ensures->>=, Ensures-ok, ◌≡◌, refl, sym, ap, subst, ◌∙◌, inl, inr, arith,
  Bool-cases, ◌==◌, eq_iff, eq_refl, >>=-eq-ok, if◌then◌else◌, find?-match, stale_lease, one_of,
  invalid_job_kind, ensure, ok-injective, ltb,
}
use agent_chat_bridge.Storage.Runs.{RunJob, Steer, Store, is_attempt, is_job}
use agent_chat_bridge.Storage.ForwardJobs.{js_length}
use agent_chat_bridge.Storage.Runs.Leases.{LeaseInput, is_leased}
use agent_chat_bridge.Storage.Runs.Attempts.{is_unresolved}
use agent_chat_bridge.Storage.Runs.Steering.{
  SteerKind, inactive, recovery_required, admitted, Target, latest, is_guidance, is_steerable,
  new_steer, steer_target, steer_busy, steer_after, begin_steer_attempt, steer_field, assert_lease,
}

latest-append :
    (p : Steer → Bool) (row : Steer) (found : Option Steer) (rows : List Steer)
    → p row ≡ true
    → latest p found (rows ++ row ∷ []) ≡ some row
unfolding latest
latest-append p row found [] met = rw met refl
latest-append p row found (s ∷ rows) met =
    latest-append p row (if p s then some s else found) rows met

-- The answer is not a permission to send.
abbrev pub IsWithheld : SteerKind → Type 0
IsWithheld (admitted s) = ⊥
IsWithheld inactive = Unit
IsWithheld (recovery_required s) = Unit

-- An admission records the intent as the newest guidance of the job.
abbrev pub IsRecorded : String → SteerKind × Store → Type 0
IsRecorded job (inactive, t) = Unit
IsRecorded job (recovery_required s, t) = Unit
IsRecorded job (admitted s, t) =
    (latest (is_guidance job) none t.steering ≡ some s) × (is_unresolved s ≡ true)

steer_target-IsRecorded :
    (job : RunJob) (agent : String) (at : ℕ) (found : Option Target) (t : Store)
    → IsRecorded job.id (steer_target job agent at found t)
unfolding steer_target one_of
steer_target-IsRecorded job agent at none t = tt
steer_target-IsRecorded job agent at (some x) t =
    elim (Bool-cases (not (is_steerable job agent x))) [
      | inl a ↦ rw a tt
      | inr a ↦
          elim (Bool-cases
            (any (λ s. is_guidance job.id s && s.target_run_id == x.run.id) t.steering)) [
              | inl b ↦ rw (a, b) tt
              | inr b ↦
                  elim (Bool-cases
                    (any (λ s. s.target_run_id == x.run.id && is_unresolved s) t.steering)) [
                      | inl c ↦ rw (a, b, c) tt
                      | inr c ↦
                          rw (a, b, c)
                            (
                              latest-append (is_guidance job.id) (new_steer job agent x at) none
                                  t.steering (eq_refl job.id),
                              refl,
                            )
                    ]
            ]
    ]

steer_busy-IsRecorded :
    (connection : String) (job : RunJob) (agent : String) (at : ℕ) (busy : Option String)
    (t : Store)
    → IsRecorded job.id (steer_busy connection job agent at busy t)
steer_busy-IsRecorded connection job agent at none t = tt
steer_busy-IsRecorded connection job agent at (some run) t =
    steer_target-IsRecorded job agent at _ t

steer_after-IsRecorded :
    (connection : String) (job : RunJob) (agent : String) (at : ℕ) (found : Option Steer)
    (t : Store)
    → IsRecorded job.id (steer_after connection job agent at found t)
unfolding steer_after
steer_after-IsRecorded connection job agent at none t =
    steer_busy-IsRecorded connection job agent at _ t
steer_after-IsRecorded connection job agent at (some s) t = elim (Bool-cases (is_unresolved s)) [
  | inl pending ↦ rw pending tt
  | inr over ↦ rw over (steer_busy-IsRecorded connection job agent at _ t)
]

steer_field-value :
    (value : String) (limit : ℕ) {v : String} → steer_field value limit ≡ ok v → v ≡ value
unfolding steer_field
steer_field-value value limit e = elim (Bool-cases (value == "" || ltb limit (js_length value))) [
  | inl bad ↦ cc (rw bad at e)
  | inr good ↦ sym (ok-injective (rw good at e))
]

assert_lease-found :
    (token : String) (at : ℕ) (found : Option RunJob) {j : RunJob}
    → assert_lease token at found ≡ ok j
    → found ≡ some j
unfolding assert_lease
assert_lease-found token at none e = cc
assert_lease-found token at (some k) e =
    let (_, _, held) =
      >>=-eq-ok (ensure (is_leased token at k.lease_token k.status k.lease_expires_at) stale_lease)
        _ e in
    let (_, _, done) = >>=-eq-ok (ensure (k.kind == "agent") invalid_job_kind) _ held in
    ap some (ok-injective done)

asserted-id :
    (connection token id : String) (at : ℕ) (t : Store) {j : RunJob}
    → assert_lease token at (find? (is_job connection id) t.jobs) ≡ ok j
    → j.id ≡ id
asserted-id connection token id at t {j = j} e =
    let (_, met) =
      find?-match (is_job connection id) t.jobs
        (assert_lease-found token at (find? (is_job connection id) t.jobs) e) in
    (eq_iff j.id id).0 (ground (arith, met))

begin_steer_attempt-IsRecorded :
    (connection : String) (input : LeaseInput) (agent_id : String) (at : ℕ) (t : Store)
    → Ensures (IsRecorded input.id) (begin_steer_attempt connection input agent_id at t)
unfolding begin_steer_attempt
begin_steer_attempt-IsRecorded connection input agent_id at t =
    Ensures->>= (IsRecorded input.id) (steer_field agent_id 128) _ (λ agent _.
      Ensures->>= (IsRecorded input.id) (steer_field input.id 36) _ (λ id same.
        Ensures->>= (IsRecorded input.id) (steer_field input.lease_token 36) _ (λ token _.
          Ensures->>= (IsRecorded input.id)
            (assert_lease token at (find? (is_job connection id) t.jobs)) _
            (λ job held. elim (Bool-cases (any (is_attempt id) t.attempts)) [
              | inl native ↦ rw native (ensures (IsRecorded input.id) {a = (inactive, t)} tt)
              | inr fresh ↦ rw fresh (
                  let previous = latest (is_guidance id) none t.steering in
                  ensures (IsRecorded input.id) {a = steer_after connection job agent at previous t}
                    (subst (λ x. IsRecorded x (steer_after connection job agent at previous t))
                      (asserted-id connection token id at t held
                        ∙ steer_field-value input.id 36 same)
                      (steer_after-IsRecorded connection job agent at previous t)))
            ]))))

-- What a job with the unresolved guidance `s` is answered: inactive when it has an attempt of its
-- own, else to recover that guidance.
abbrev pub IsAnswered : String → Steer → Store → SteerKind × Store → Type 0
IsAnswered id s t (admitted _, t') = ⊥
IsAnswered id s t (inactive, t') = (any (is_attempt id) t.attempts ≡ true) × (t' ≡ t)
IsAnswered id s t (recovery_required s', t') = (s' ≡ s) × (t' ≡ t)

unresolved-IsAnswered :
    (connection : String) (input : LeaseInput) (agent_id : String) (at : ℕ) (t : Store) (s : Steer)
    → latest (is_guidance input.id) none t.steering ≡ some s
    → is_unresolved s ≡ true
    → Ensures (IsAnswered input.id s t) (begin_steer_attempt connection input agent_id at t)
unfolding begin_steer_attempt steer_after
unresolved-IsAnswered connection input agent_id at t s newest pending =
    let P = IsAnswered input.id s t in
    Ensures->>= P (steer_field agent_id 128) _ (λ agent _.
      Ensures->>= P (steer_field input.id 36) _ (λ id same.
        Ensures->>= P (steer_field input.lease_token 36) _ (λ token _.
          Ensures->>= P (assert_lease token at (find? (is_job connection id) t.jobs)) _ (λ job held.
            let named = steer_field-value input.id 36 same in
            elim (Bool-cases (any (is_attempt id) t.attempts)) [
              | inl native ↦ rw native (
                  ensures P {a = (inactive, t)}
                    (ap (λ x. any (is_attempt x) t.attempts) (sym named) ∙ native, refl))
              | inr fresh ↦
                  rw (fresh, named, newest, pending)
                    (ensures P {a = (recovery_required s, t)} (refl, refl))
            ]))))

-- The answer of a call for such a job is no permission to send.
pub IsAnswered-IsWithheld :
    (id : String) (s : Steer) (t : Store) (r : SteerKind × Store)
    → IsAnswered id s t r
    → IsWithheld r.0
IsAnswered-IsWithheld id s t (admitted _, t') h = h
IsAnswered-IsWithheld id s t (inactive, t') h = tt
IsAnswered-IsWithheld id s t (recovery_required s', t') h = tt

-- On the tables that an admission to send a guidance left, no call for the same job is admitted again,
-- whatever its lease, its agent and the time are: it fails, or it is inactive and the job has an
-- attempt of its own, or it is told to recover that guidance, and the tables stay as they are.
pub begin_steer_attempt-once :
    (connection : String) (input again : LeaseInput) (agent other : String) (at later : ℕ)
    (t t' : Store) (s : Steer)
    → begin_steer_attempt connection input agent at t ≡ ok (admitted s, t')
    → again.id ≡ input.id
    → Ensures (IsAnswered again.id s t') (begin_steer_attempt connection again other later t')
begin_steer_attempt-once connection input again agent other at later t t' s e same =
    let (newest, pending) =
      Ensures-ok (IsRecorded input.id) (begin_steer_attempt-IsRecorded connection input agent at t)
        e in
    unresolved-IsAnswered connection again other later t' s
      (ap (λ x. latest (is_guidance x) none t'.steering) same ∙ newest) pending
