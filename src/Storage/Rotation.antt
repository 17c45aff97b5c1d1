-- ===== src/Storage/Rotation.antt =====
-- storage/rotation.mjs: rotateIdleSession, which retires the native thread of an idle session and
-- keeps one audit row for each idempotency key. `digest` is the hash of the request, `row_id` a fresh
-- UUID, `at` stands for the readings of the clock within the operation.
pub mod Laws
mod Witnesses
use agent_chat_bridge.Prelude.{
  ℕ, ◌+◌, String, Bool, true, false, not, ◌&&◌, ◌||◌, Option, none, some, List, [], ◌∷◌, ◌++◌, ◌==◌,
  nat_eq, ltb, leb, if◌then◌else◌, one_of, is_text, any, find?, update, Result, ok, err, ◌>>=◌,
  ◌>>◌, ensure, StoreError, invalid_rotation, rotation_conflict, session_conflict, session_busy,
  store_unavailable,
}
use agent_chat_bridge.Json.{Json, null, bool, num, str, obj, end, field}
use agent_chat_bridge.Storage.ForwardJobs.{js_length}

-- A row of bridge_sessions, as far as the operation reads or writes it.
pub record BridgeSession : Type 0 where
  pub connection_id : String
  pub conversation_id : String
  pub agent_id : String
  pub generation : ℕ
  pub native_thread_id : Option String
  pub active_run_id : Option String
  pub last_message_at : Option ℕ
  pub updated_at : ℕ

-- A row of bridge_session_rotations.
pub record Rotation : Type 0 where
  pub id : String
  pub connection_id : String
  pub conversation_id : String
  pub agent_id : String
  pub idempotency_key : String
  pub payload_hash : String
  pub reason : String
  pub previous_generation : ℕ
  pub generation : ℕ
  pub retired_thread_id : String
  pub created_at : ℕ

pub record RotationTables : Type 0 where
  pub sessions : List BridgeSession
  pub rotations : List Rotation

-- `expected_activity` is `some` where the input has `expectedLastMessageAt`, which may be null.
pub record RotateInput : Type 0 where
  pub connection_id : String
  pub conversation_id : String
  pub agent_id : String
  pub idempotency_key : String
  pub expected_thread_id : String
  pub expected_generation : ℕ
  pub reason : String
  pub expected_activity : Option (Option ℕ)

-- field
unfoldable pub rotation_field : String → ℕ → Result String
rotation_field value limit =
    if value == "" || ltb limit (js_length value) then err invalid_rotation else ok value

-- Number.MAX_SAFE_INTEGER
abbrev pub max_safe : ℕ
max_safe = 9007199254740991

abbrev pub safe_activity : Option (Option ℕ) → Bool
safe_activity (some (some n)) = leb n max_safe
safe_activity _ = true

abbrev pub same_activity : Option (Option ℕ) → Option ℕ → Bool
same_activity none stored = true
same_activity (some none) none = true
same_activity (some (some n)) (some m) = nat_eq m n
same_activity _ _ = false

abbrev pub is_same_key : RotateInput → Rotation → Bool
is_same_key input r =
    r.connection_id == input.connection_id
    && r.conversation_id == input.conversation_id
    && r.agent_id == input.agent_id
    && r.idempotency_key == input.idempotency_key

abbrev pub is_session : RotateInput → BridgeSession → Bool
is_session input s =
    s.connection_id == input.connection_id
    && s.conversation_id == input.conversation_id
    && s.agent_id == input.agent_id

-- The activity that is hashed: the number where the input names one (the code hashes its text).
abbrev pub activity_value : Option (Option ℕ) → Json
activity_value (some (some n)) = num n
activity_value _ = null

abbrev pub has_activity : Option (Option ℕ) → Bool
has_activity none = false
has_activity (some a) = true

-- The request that is hashed.
abbrev pub rotation_payload : RotateInput → Json
rotation_payload input = obj (
    field "generation" (num input.expected_generation) (
      field "threadId" (str input.expected_thread_id) (
        field "reason" (str input.reason) (
          field "hasActivity" (bool (has_activity input.expected_activity))
            (field "activity" (activity_value input.expected_activity) end)))))

-- The audit row of a request.
abbrev pub rotation_row : RotateInput → String → String → ℕ → Rotation
rotation_row input payload_hash row_id at = record {
  id = row_id;
  connection_id = input.connection_id;
  conversation_id = input.conversation_id;
  agent_id = input.agent_id;
  idempotency_key = input.idempotency_key;
  payload_hash = payload_hash;
  reason = input.reason;
  previous_generation = input.expected_generation;
  generation = input.expected_generation + 1;
  retired_thread_id = input.expected_thread_id;
  created_at = at;
}

-- INSERT … ON DUPLICATE KEY UPDATE id=id
unfoldable pub insert_rotation : RotateInput → Rotation → List Rotation → List Rotation
insert_rotation input r rows = if any (is_same_key input) rows then rows else rows ++ r ∷ []

-- The session is the expected one.
unfoldable pub is_expected : RotateInput → BridgeSession → Bool
is_expected input s =
    nat_eq s.generation input.expected_generation
    && is_text s.native_thread_id input.expected_thread_id
    && same_activity input.expected_activity s.last_message_at

-- `session.active_run_id` in a condition.
abbrev pub has_run : Option String → Bool
has_run none = false
has_run (some run) = not (run == "")

unfoldable pub retire :
    RotateInput → ℕ → Option BridgeSession → RotationTables → Result ((ℕ × String) × RotationTables)
unfolding is_expected
retire input at none t = err session_conflict
retire input at (some s) t = do
  ensure (is_expected input s) session_conflict
  ensure (not (has_run s.active_run_id)) session_busy
  ok (
    (input.expected_generation + 1, input.expected_thread_id),
    record t {
      sessions =
          update (is_session input)
            (λ k. record k {
              generation = k.generation + 1;
              native_thread_id = none;
              updated_at = at;
            })
            t.sessions;
    },
  )

-- What follows the insertion of the audit row.
unfoldable pub rotated :
    RotateInput
    → String
    → String
    → ℕ
    → Option Rotation
    → RotationTables
    → Result ((ℕ × String) × RotationTables)
unfolding retire
rotated input payload_hash row_id at none t = err store_unavailable
rotated input payload_hash row_id at (some r) t =
    if not (r.payload_hash == payload_hash)
    then err rotation_conflict
    else if not (r.id == row_id)
    then ok ((r.generation, r.retired_thread_id), t)
    else let found = find? (is_session input) t.sessions in retire input at found t

module _ (digest : Json → String) where
  -- rotateIdleSession
  unfoldable pub rotate_idle_session :
      RotateInput → String → ℕ → RotationTables → Result ((ℕ × String) × RotationTables)
  unfolding insert_rotation rotated
  rotate_idle_session input row_id at t = do
    connection ← rotation_field input.connection_id 128
    conversation ← rotation_field input.conversation_id 255
    agent ← rotation_field input.agent_id 128
    key ← rotation_field input.idempotency_key 255
    thread ← rotation_field input.expected_thread_id 255
    ensure
        (ltb 0 input.expected_generation
          && ltb input.expected_generation max_safe
          && one_of ("session_idle" ∷ "rules_updated" ∷ "thread_archived" ∷ []) input.reason)
        invalid_rotation
    ensure (safe_activity input.expected_activity) invalid_rotation
    let payload_hash = digest (rotation_payload input)
    let rows = insert_rotation input (rotation_row input payload_hash row_id at) t.rotations
    rotated input payload_hash row_id at (find? (is_same_key input) rows)
        (record t { rotations = rows })
