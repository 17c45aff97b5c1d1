-- ===== src/Storage/Runs/Calls/Rotations.antt =====
-- rotateIdleSession keeps the generations of sessions: the one that it changes rises.
use agent_chat_bridge.Prelude.{
  ℕ, String, not, Option, none, some, find?, ensure, Ensures, ensures, refused, Ensures->>=,
  Ensures->>, Bool-cases, inl, inr, arith, ◌==◌, refl, session_conflict, session_busy,
  store_unavailable, rotation_conflict,
}
use agent_chat_bridge.Json.{Json}
use agent_chat_bridge.Storage.Rotation.{
  BridgeSession, Rotation, RotationTables, RotateInput, rotation_field, is_session, is_same_key,
  is_expected, has_run, retire, rotated, insert_rotation, rotation_row, rotation_payload,
  rotate_idle_session,
}
use agent_chat_bridge.Storage.Runs.Calls.Keeps.{SessionsKept, sessions_same, sessions_update}

abbrev pub RotationKeeps : RotationTables → (ℕ × String) × RotationTables → Type 0
RotationKeeps t r = SessionsKept t.sessions r.1.sessions

retire-RotationKeeps :
    (input : RotateInput) (at : ℕ) (found : Option BridgeSession) (t : RotationTables)
    → Ensures (RotationKeeps t) (retire input at found t)
unfolding retire
retire-RotationKeeps input at none t = refused (RotationKeeps t) session_conflict
retire-RotationKeeps input at (some s) t =
    Ensures->> (RotationKeeps t) (ensure (is_expected input s) session_conflict) _ (
      Ensures->> (RotationKeeps t) (ensure (not (has_run s.active_run_id)) session_busy) _ (
        ensures (RotationKeeps t)
          (sessions_update (is_session input) _ (λ c v g k. refl) (λ k. omega arith) t.sessions)))

rotated-RotationKeeps :
    (input : RotateInput) (payload_hash row_id : String) (at : ℕ) (found : Option Rotation)
    (t : RotationTables)
    → Ensures (RotationKeeps t) (rotated input payload_hash row_id at found t)
unfolding rotated
rotated-RotationKeeps input payload_hash row_id at none t =
    refused (RotationKeeps t) store_unavailable
rotated-RotationKeeps input payload_hash row_id at (some r) t =
    elim (Bool-cases (not (r.payload_hash == payload_hash))) [
      | inl other ↦ rw other (refused (RotationKeeps t) rotation_conflict)
      | inr same ↦ elim (Bool-cases (not (r.id == row_id))) [
        | inl again ↦ rw (same, again) (ensures (RotationKeeps t) (sessions_same t.sessions))
        | inr first ↦
            rw (same, first) (retire-RotationKeeps input at (find? (is_session input) t.sessions) t)
      ]
    ]

pub rotate_idle_session-RotationKeeps :
    (digest : Json → String) (input : RotateInput) (row_id : String) (at : ℕ) (t : RotationTables)
    → Ensures (RotationKeeps t) (rotate_idle_session digest input row_id at t)
unfolding rotate_idle_session
rotate_idle_session-RotationKeeps digest input row_id at t =
    let P = RotationKeeps t in
    let h = digest (rotation_payload input) in
    let rows = insert_rotation input (rotation_row input h row_id at) t.rotations in
    Ensures->>= P (rotation_field input.connection_id 128) _ (λ a _.
      Ensures->>= P (rotation_field input.conversation_id 255) _ (λ b _.
        Ensures->>= P (rotation_field input.agent_id 128) _ (λ c _.
          Ensures->>= P (rotation_field input.idempotency_key 255) _ (λ d _.
            Ensures->>= P (rotation_field input.expected_thread_id 255) _ (λ e _. Ensures->> P _ _ (
              Ensures->> P _ _ (
                rotated-RotationKeeps input h row_id at (find? (is_same_key input) rows)
                  (record t { rotations = rows }))))))))
