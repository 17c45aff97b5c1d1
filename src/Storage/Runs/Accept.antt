-- ===== src/Storage/Runs/Accept.antt =====
-- storage/store.mjs: acceptInbound. `id` is a fresh UUID, `sequence` the one that the database gives a
-- new row; `fresh n` gives the id and the sequence of the n-th hook's job where it is new.
pub mod Laws
use agent_chat_bridge.Prelude.{
  ℕ, suc, String, Bool, true, false, not, ◌&&◌, ◌||◌, Option, none, some, List, [], ◌∷◌, ◌++◌, ◌==◌,
  if◌then◌else◌, or_else, find?, insert_once, Result, ok, err, ◌>>=◌, ◌>>◌, ensure,
  invalid_inbound_source, inbound_conflict, store_unavailable,
}
use agent_chat_bridge.Json.{Json, obj}
use agent_chat_bridge.Storage.ForwardJobs.{required}
use agent_chat_bridge.Storage.Runs.{RunJob}
use agent_chat_bridge.Storage.Runs.Jobs.{JobInput, insert_job}
use agent_chat_bridge.Storage.Runs.Inbound.{
  InboxRow, MessageReceipt, Tombstone, Intake, InboundInput, source_of, is_known_source,
  record_conversation, is_canonical, is_receipt, has_receipt, is_inbox_key, inbox_row,
  InboundAnswer, repeated_answer, first_event, receipt_row, store_message,
}

abbrev pub is_tombstone : InboundInput → Tombstone → Bool
is_tombstone input d =
    d.connection_id == input.connection_id && d.message_id == input.recalled_message_id

-- The tombstone of a recalled message.
unfoldable pub recall : InboundInput → ℕ → List Tombstone → Result (List Tombstone)
recall input at rows =
    if input.recalled_message_id == ""
    then ok rows
    else required input.recalled_message_id 255 >>= λ message. ok (
        insert_once (is_tombstone input)
          (record { connection_id = input.connection_id; message_id = message; created_at = at })
          rows)

abbrev pub hook_input : InboundInput → InboxRow → String × Option Json → JobInput
hook_input input row (hook, payload) = record {
  connection_id = input.connection_id;
  conversation_id = input.conversation_id;
  kind = "hook";
  hook_id = hook;
  idempotency_key = input.event_key;
  event_id = some row.id;
  source_sequence = some row.sequence;
  payload = or_else payload (obj input.payload);
}

-- The receipt of a message that is seen for the first time.
abbrev pub add_receipt :
    InboundInput → Option MessageReceipt → InboxRow → List MessageReceipt → List MessageReceipt
add_receipt input (some r) row rows = rows
add_receipt input none row rows =
    if is_canonical input then rows ++ receipt_row input row ∷ [] else rows

abbrev pub find_receipt : InboundInput → List MessageReceipt → Option MessageReceipt
find_receipt input rows = if is_canonical input then find? (is_receipt input) rows else none

module _ (digest : Json → String) where
  -- The jobs of the hooks, one after another.
  unfoldable pub insert_hooks :
      InboundInput
      → InboxRow
      → (ℕ → String × ℕ)
      → ℕ
      → ℕ
      → List (String × Option Json)
      → List RunJob
      → Result (List String × List RunJob)
  insert_hooks input row fresh at n [] jobs = ok ([], jobs)
  insert_hooks input row fresh at n (hook ∷ hooks) jobs =
      insert_job digest (hook_input input row hook) (fresh n).0 (fresh n).1 at jobs >>= λ made.
      insert_hooks input row fresh at (suc n) hooks made.1 >>= λ more.
      ok (made.0.id ∷ more.0, more.1)

  -- What a new event does.
  unfoldable pub take_event :
      InboundInput → InboxRow → (ℕ → String × ℕ) → ℕ → Intake → Result (InboundAnswer × Intake)
  unfolding recall insert_hooks
  take_event input row fresh at t = do
    tombstones ← recall input at t.tombstones
    made ← insert_hooks input row fresh at 0 input.hooks t.jobs
    ok (
      record {
        event_id = row.id;
        sequence = row.sequence;
        duplicate = false;
        first_receipt = true;
        duplicate_canonical = false;
        hook_job_ids = made.0;
      },
      record t {
        tombstones = tombstones;
        messages = store_message input input.message at t.messages;
        jobs = made.1;
      },
    )

  -- What follows the INSERT into the inbox: `receipt` is the receipt found before it.
  unfoldable pub accept_row :
      InboundInput
      → String
      → String
      → (ℕ → String × ℕ)
      → ℕ
      → Option MessageReceipt
      → Option InboxRow
      → Intake
      → Result (InboundAnswer × Intake)
  unfolding take_event
  accept_row input payload_hash id fresh at receipt none t = err store_unavailable
  accept_row input payload_hash id fresh at receipt (some row) t = do
    ensure
        (row.payload_hash == payload_hash
          || has_receipt receipt && source_of input == "history_catchup")
        inbound_conflict
    let t' = record t { receipts = add_receipt input receipt row t.receipts }
    let first = first_event receipt row
    if not (row.id == id) || has_receipt receipt
        then (repeated_answer first (has_receipt receipt) (find? (λ r. r.id == first) t'.inbox)
              t'.jobs
            >>= λ answer. ok (answer, t'))
        else take_event input row fresh at t'

  -- The INSERT into the inbox, and what follows it.
  unfoldable pub accept_event :
      InboundInput
      → String
      → ℕ
      → (ℕ → String × ℕ)
      → ℕ
      → Option MessageReceipt
      → Intake
      → Result (InboundAnswer × Intake)
  unfolding accept_row
  accept_event input id sequence fresh at receipt t =
      let payload_hash = digest (or_else input.semantic_payload (obj input.payload)) in
      let inbox =
        insert_once (is_inbox_key input) (inbox_row input receipt payload_hash id sequence at)
          t.inbox in
      accept_row input payload_hash id fresh at receipt (find? (is_inbox_key input) inbox)
        (record t { inbox = inbox })

  -- acceptInbound
  unfoldable pub accept_inbound :
      InboundInput → String → ℕ → (ℕ → String × ℕ) → ℕ → Intake → Result (InboundAnswer × Intake)
  unfolding is_known_source record_conversation accept_event
  accept_inbound input id sequence fresh at t = do
    connection ← required input.connection_id 128
    conversation ← required input.conversation_id 255
    ensure (is_known_source input) invalid_inbound_source
    conversations ← record_conversation input t.conversations
    message ← if is_canonical input then required input.message_id 255 else ok ""
    let receipt = find_receipt input t.receipts
    key ← required input.event_key 255
    type ← required input.event_type 64
    policy ← required input.policy_version 128
    accept_event input id sequence fresh at receipt (record t { conversations = conversations })
