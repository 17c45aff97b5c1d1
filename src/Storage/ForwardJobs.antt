-- ===== src/Storage/ForwardJobs.antt =====
-- storage/forward-jobs.mjs, the store of forward jobs: the row of assistant_codex_forward_jobs, its
-- states, and the input checks that the operations of the child modules share.
pub mod Claims
pub mod Leases
pub mod Fork
pub mod UserInput
pub mod Stop
pub mod Register
pub mod Lifecycle
pub mod History
mod Witnesses
use agent_chat_bridge.Prelude.{
  ℕ, suc, ◌+◌, String, Bool, true, false, not, ◌&&◌, ◌||◌, Option, none, some, List, [], ◌∷◌, ◌==◌,
  nat_eq, ltb, leb, if◌then◌else◌, or_else, Result, ◌>>=◌, Ensures, refused, ok, err,
  invalid_store_input, min, max, one_of, ◌≡◌, ◌⊎◌, inl, inr, arith, is_text,
}
use agent_chat_bridge.Json.{Json, Fields, Items, get, members, items, unquote, has_item, is_absent}
use Prim.Native.Char.{Char, code}
use Prim.Native.String

-- The words of the column `status`.
pub data Status : Type 0 where
  pending running reply_pending held completed failed deferred : Status

-- The columns that the operations read or write. `id` is the primary key, `public_run_id` the id
-- that callers use.
pub record Job : Type 0 where
  pub id : ℕ
  pub connection_id : String
  pub public_run_id : String
  pub request_key_hash : String
  pub request_hash : String
  pub caller_id : String
  pub execution_namespace : String
  pub delivery_mode : String
  pub message_id : String
  pub source_message_id : Option String
  pub chat_id : String
  pub chat_type : String
  pub message_type : String
  pub sender_open_id : String
  pub sender_union_id : String
  pub sender_name : String
  pub conversation_scope : String
  pub prompt : String
  pub group_chat_context_json : Json
  pub context_entries_json : Json
  pub status : Status
  pub attempts : ℕ
  pub reply_attempts : ℕ
  pub lease_owner : String
  pub lease_expires_at : Option ℕ
  pub feedback_cleanup_pending : Bool
  pub feedback_cleanup_at : Option ℕ
  pub next_attempt_at : Option ℕ
  pub started_at : Option ℕ
  pub finished_at : Option ℕ
  pub reply_sent_at : Option ℕ
  pub result_json : Fields
  pub last_error : String
  pub created_at : ℕ
  pub updated_at : ℕ

abbrev pub is_pending : Status → Bool
is_pending pending = true
is_pending _ = false

abbrev pub is_running : Status → Bool
is_running running = true
is_running _ = false

abbrev pub is_reply_pending : Status → Bool
is_reply_pending reply_pending = true
is_reply_pending _ = false

-- `status IN ('completed','failed','deferred')`
abbrev pub is_finished : Status → Bool
is_finished completed = true
is_finished failed = true
is_finished deferred = true
is_finished _ = false

-- `status IN ('held','completed','failed','deferred')`
abbrev pub is_settled : Status → Bool
is_settled held = true
is_settled s = is_finished s

-- `status IN ('running','reply_pending','held','completed','failed','deferred')`
abbrev pub is_started : Status → Bool
is_started pending = false
is_started _ = true

-- `value.length` in JavaScript: UTF-16 code units.
unfoldable pub js_length : String → ℕ
js_length String.[] = 0
js_length (String.◌∷◌ c s) = (if ltb (code c) 0x10000 then 1 else 2) + js_length s

-- An absent input is the empty text, which is refused alike.
unfoldable pub required : String → ℕ → Result String
required value limit =
    if value == "" || ltb limit (js_length value) then err invalid_store_input else ok value

-- An input that is not refused is passed on as it is.
pub required-cases :
    (value : String) (limit : ℕ)
    → (required value limit ≡ ok value) ⊎ (required value limit ≡ err invalid_store_input)
unfolding required
required-cases value limit = ground arith

-- A checked text is the text.
pub Ensures-required {κ} :
    {A : Type 0} (P : A → Type κ) (value : String) (limit : ℕ) (rest : String → Result A)
    → Ensures P (rest value)
    → Ensures P (required value limit >>= rest)
Ensures-required P value limit rest h = elim (required-cases value limit) [
  | inl good ↦ rw good h
  | inr bad ↦ rw bad (refused P invalid_store_input)
]

-- `Number(input.leaseMs || 60000)`
abbrev pub lease_ms : ℕ → ℕ
lease_ms n = if nat_eq n 0 then 60000 else n

-- `Math.max(1, Math.min(5, Number(input.limit || 1)))`
abbrev pub batch : ℕ → ℕ
batch n = max 1 (min 5 (if nat_eq n 0 then 1 else n))

-- SAFE_EXECUTION_SQL
unfoldable pub safe_execution : Job → Bool
safe_execution j =
    let execution = members (get "execution" j.result_json) in
    not (is_text (unquote (get "unconfirmed" execution)) "true")
    && not (
        one_of ("start_intent" ∷ "bound" ∷ "unknown" ∷ [])
          (or_else (unquote (get "status" execution)) ""))
    && is_absent (get "intent" execution)
    && is_absent (get "threadId" execution)
    && is_absent (get "turnId" execution)

-- SAFE_DELIVERY_SQL
unfoldable pub safe_delivery : Job → Bool
safe_delivery j =
    let card = members (get "executionCard" j.result_json) in
    let delivery = members (get "delivery" j.result_json) in
    let texts = items (get "items" (members (get "text" delivery))) in
    let attachments = items (get "attachments" delivery) in
    not (is_text (unquote (get "delivery" card)) "unknown")
    && not (
        one_of ("intent" ∷ "unknown" ∷ [])
          (or_else (unquote (get "status" (members (get "deliveryState" card)))) ""))
    && not (has_item "status" "unknown" texts)
    && not (has_item "status" "intent" texts)
    && not (has_item "status" "pending" texts)
    && not (has_item "status" "unknown" attachments)
    && not (has_item "status" "send_intent" attachments)
    && not (has_item "status" "upload_intent" attachments)

-- `connection_id=? AND public_run_id=?`
abbrev pub is_run : String → String → Job → Bool
is_run connection id j = j.connection_id == connection && j.public_run_id == id
