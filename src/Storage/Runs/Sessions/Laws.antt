-- ===== src/Storage/Runs/Sessions/Laws.antt =====
-- A reset of a refused thread gives the right to start a new thread once.
use agent_chat_bridge.Prelude.{
  ℕ, ◌+◌, String, true, ◌&&◌, Option, none, some, find?, ok, ensure, Ensures, ensures, refused,
  Ensures->>=, Ensures->>, Ensures-ok, ◌≡◌, refl, ap, ◌∙◌, inl, inr, Bool-cases, ◌==◌, eq_refl,
  find?-match, find?-update-mapped, find?-append, find?-none, mapped, edited,
  rejected_thread_conflict, rotation_conflict, invalid_rotation, invalid_job_kind, ltb,
}
use agent_chat_bridge.Json.{Json}
use agent_chat_bridge.Storage.Rotation.{Rotation, rotation_field, max_safe}
use agent_chat_bridge.Storage.Runs.{Attempt, Store, is_attempt, is_session_of}
use agent_chat_bridge.Storage.Runs.Leases.{owned_job}
use agent_chat_bridge.Storage.Runs.Sessions.{
  RejectedInput, Reset, rejected_payload, is_rotation_of, rejected_row, is_rejected_run,
  apply_reset, reset_once, reset_found, rejected_key, reset_rejected_thread_admission,
}

-- The run's attempt has an audit row of the request, with the hash of the request.
abbrev IsSpent : (Json → String) → String → RejectedInput → Store → Type 0
IsSpent digest connection input t =
    (a : Attempt) × (r : Rotation) × (find? (is_attempt input.lease.id) t.attempts ≡ some a)
    × (find? (is_rotation_of a (rejected_key digest connection input)) t.rotations ≡ some r)
    × ((r.payload_hash == digest (rejected_payload input)) ≡ true)

module _ (digest : Json → String) (connection : String) (input : RejectedInput) (row_id : String)
    (at : ℕ) where
  abbrev Spends : Reset × Store → Type 0
  Spends r = IsSpent digest connection input r.1

  apply_reset-Spends :
      (a : Attempt) (t : Store)
      → find? (is_attempt input.lease.id) t.attempts ≡ some a
      → find? (is_rotation_of a (rejected_key digest connection input)) t.rotations ≡ none
      → Ensures Spends (
          apply_reset input a
            (rejected_key digest connection input)
            (digest (rejected_payload input))
            row_id
            at
            t)
  unfolding apply_reset
  apply_reset-Spends a t found new =
      let key = rejected_key digest connection input in
      let hash = digest (rejected_payload input) in
      let same_session = is_session_of a.connection_id a.conversation_id a.agent_id in
      let next = λ (x : Attempt). record x {
        generation = input.expected_generation + 1;
        native_thread_id = none;
      } in
      let row = rejected_row input a key hash row_id at in
      let (_, mine) = find?-match (is_attempt input.lease.id) t.attempts found in
      let changed : edited (is_attempt input.lease.id) next a ≡ next a = rw mine refl in
      Ensures->> Spends
        (ensure (is_rejected_run input a (find? same_session t.sessions)) rejected_thread_conflict)
        _
        (ensures Spends (
          next a,
          row,
          find?-update-mapped (is_attempt input.lease.id) (is_attempt input.lease.id) next
                (λ x. refl) t.attempts
              ∙ ap (mapped (edited (is_attempt input.lease.id) next)) found
              ∙ ap some changed,
          find?-append (is_rotation_of a key) row t.rotations
              (rw
                (
                  eq_refl a.connection_id,
                  eq_refl a.conversation_id,
                  eq_refl a.agent_id,
                  eq_refl key,
                )
                refl)
              (find?-none (is_rotation_of a key) t.rotations new),
          eq_refl hash,
        ))

  reset_once-Spends :
      (a : Attempt) (r : Option Rotation) (t : Store)
      → find? (is_attempt input.lease.id) t.attempts ≡ some a
      → find? (is_rotation_of a (rejected_key digest connection input)) t.rotations ≡ r
      → Ensures Spends (
          reset_once input a
            (rejected_key digest connection input)
            (digest (rejected_payload input))
            row_id
            at
            r
            t)
  unfolding reset_once
  reset_once-Spends a none t found e = apply_reset-Spends a t found e
  reset_once-Spends a (some r) t found e =
      elim (Bool-cases (r.payload_hash == digest (rejected_payload input))) [
        | inl same ↦ rw same (ensures Spends (a, r, found, e, same))
        | inr other ↦ rw other (refused Spends rotation_conflict)
      ]

  reset_found-Spends :
      (a : Option Attempt) (t : Store)
      → find? (is_attempt input.lease.id) t.attempts ≡ a
      → Ensures Spends (reset_found digest connection input row_id at a t)
  unfolding reset_found
  reset_found-Spends none t e = refused Spends rejected_thread_conflict
  reset_found-Spends (some a) t e = reset_once-Spends a _ t e refl

  reset-Spends :
      (t : Store)
      → Ensures Spends (reset_rejected_thread_admission digest connection input row_id at t)
  unfolding reset_rejected_thread_admission
  reset-Spends t = Ensures->>= Spends (rotation_field input.expected_thread_id 255) _ (λ thread _.
      Ensures->> Spends
        (ensure
          (input.reason == "thread_archived"
            && ltb 0 input.expected_generation
            && ltb input.expected_generation max_safe)
          invalid_rotation)
        _
        (Ensures->>= Spends (owned_job connection input.lease at t.jobs) _ (λ j _.
          Ensures->> Spends (ensure (j.kind == "agent") invalid_job_kind) _
            (reset_found-Spends (find? (is_attempt input.lease.id) t.attempts) t refl))))

  -- A request with its audit row is answered with the need of recovery.
  spent :
      (t : Store)
      → IsSpent digest connection input t
      → Ensures
          (λ r. (r.0.recovery_required ≡ true) × (r.1 ≡ t))
          (reset_rejected_thread_admission digest connection input row_id at t)
  unfolding reset_rejected_thread_admission reset_found reset_once
  spent t (a, r, attempt, audit, hash) =
      let P = λ (x : Reset × Store). (x.0.recovery_required ≡ true) × (x.1 ≡ t) in
      Ensures->>= P (rotation_field input.expected_thread_id 255) _ (λ thread _.
        Ensures->> P
          (ensure
            (input.reason == "thread_archived"
              && ltb 0 input.expected_generation
              && ltb input.expected_generation max_safe)
            invalid_rotation)
          _
          (Ensures->>= P (owned_job connection input.lease at t.jobs) _ (λ j _.
            Ensures->> P (ensure (j.kind == "agent") invalid_job_kind) _
              (rw (attempt, audit, hash) (ensures P (refl, refl))))))

-- On the tables that an answered reset left, the same request is never a second permission: it fails,
-- or answers that the run needs recovery and changes nothing.
pub reset_rejected-once :
    (digest : Json → String) (connection : String) (input : RejectedInput) (row_id row_id' : String)
    (at at' : ℕ) (t t' : Store) (answer : Reset)
    → reset_rejected_thread_admission digest connection input row_id at t ≡ ok (answer, t')
    → Ensures
        (λ r. (r.0.recovery_required ≡ true) × (r.1 ≡ t'))
        (reset_rejected_thread_admission digest connection input row_id' at' t')
reset_rejected-once digest connection input row_id row_id' at at' t t' answer e =
    spent digest connection input row_id' at' t' (
      Ensures-ok (λ r. IsSpent digest connection input r.1)
        (reset-Spends digest connection input row_id at t) e)
