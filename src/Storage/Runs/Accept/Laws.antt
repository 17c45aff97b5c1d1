-- ===== src/Storage/Runs/Accept/Laws.antt =====
-- A message is received once.
use agent_chat_bridge.Prelude.{
  ℕ, String, Bool, true, false, not, ◌&&◌, ◌||◌, Option, none, some, List, ◌==◌, or_else, find?,
  insert_once, ok, ◌>>=◌, ensure, Ensures, ensures, refused, Ensures->>=, Ensures->>, Ensures-ok,
  ◌≡◌, refl, inl, inr, Bool-cases, eq_refl, find?-append, find?-none, store_unavailable,
  inbound_conflict, invalid_inbound_source, if◌then◌else◌,
}
use agent_chat_bridge.Json.{Json, obj}
use agent_chat_bridge.Storage.ForwardJobs.{Ensures-required, required}
use agent_chat_bridge.Storage.Runs.{RunJob}
use agent_chat_bridge.Storage.Runs.Inbound.{
  InboxRow, MessageReceipt, Intake, InboundInput, source_of, is_known_source, record_conversation,
  is_canonical, is_receipt, has_receipt, is_inbox_key, inbox_row, InboundAnswer, repeated_answer,
  first_event, receipt_row,
}
use agent_chat_bridge.Storage.Runs.Accept.{
  recall, add_receipt, find_receipt, insert_hooks, take_event, accept_row, accept_event,
  accept_inbound,
}

-- The message has a receipt.
abbrev IsReceived : InboundInput → Intake → Type 0
IsReceived input t = (r : MessageReceipt) × (find? (is_receipt input) t.receipts ≡ some r)

abbrev Receives : InboundInput → InboundAnswer × Intake → Type 0
Receives input r = IsReceived input r.1

add_receipt-found :
    (input : InboundInput) (receipt : Option MessageReceipt) (row : InboxRow)
    (rows : List MessageReceipt)
    → is_canonical input ≡ true
    → find_receipt input rows ≡ receipt
    → (r : MessageReceipt) × (find? (is_receipt input) (add_receipt input receipt row rows)
        ≡ some r)
add_receipt-found input (some r) row rows message e = (r, rw message at e)
add_receipt-found input none row rows message e = (
  receipt_row input row,
  rw message (
      find?-append (is_receipt input) (receipt_row input row) rows
        (rw (eq_refl input.connection_id, eq_refl input.conversation_id, eq_refl input.message_id)
          refl)
        (find?-none (is_receipt input) rows (rw message at e))),
)

module _ (digest : Json → String) (input : InboundInput) (fresh : ℕ → String × ℕ) (at : ℕ) where
  take_event-Receives :
      (row : InboxRow) (t : Intake)
      → IsReceived input t
      → Ensures (Receives input) (take_event digest input row fresh at t)
  unfolding take_event
  take_event-Receives row t known =
      Ensures->>= (Receives input) (recall input at t.tombstones) _ (λ tombstones _.
        Ensures->>= (Receives input) (insert_hooks digest input row fresh at 0 input.hooks t.jobs) _
          (λ made _. ensures (Receives input) known))

  accept_row-Receives :
      (payload_hash id : String) (receipt : Option MessageReceipt) (found : Option InboxRow)
      (t : Intake)
      → is_canonical input ≡ true
      → find_receipt input t.receipts ≡ receipt
      → Ensures (Receives input) (accept_row digest input payload_hash id fresh at receipt found t)
  unfolding accept_row
  accept_row-Receives payload_hash id receipt none t message e =
      refused (Receives input) store_unavailable
  accept_row-Receives payload_hash id receipt (some row) t message e =
      let known = add_receipt-found input receipt row t.receipts message e in
      let t' : Intake = record t { receipts = add_receipt input receipt row t.receipts } in
      Ensures->> (Receives input)
        (ensure
          (row.payload_hash == payload_hash
            || has_receipt receipt && source_of input == "history_catchup")
          inbound_conflict)
        _
        (elim (Bool-cases (not (row.id == id) || has_receipt receipt)) [
          | inl again ↦ rw again (
              let first = first_event receipt row in
              Ensures->>= (Receives input)
                (repeated_answer first (has_receipt receipt) (find? (λ r. r.id == first) t'.inbox)
                  t'.jobs)
                _ (λ answer _. ensures (Receives input) known))
          | inr new ↦ rw new (take_event-Receives row t' known)
        ])

  accept_event-Receives :
      (id : String) (sequence : ℕ) (t : Intake)
      → is_canonical input ≡ true
      → Ensures
          (Receives input)
          (accept_event digest input id sequence fresh at (find_receipt input t.receipts) t)
  unfolding accept_event
  accept_event-Receives id sequence t message =
      let receipt = find_receipt input t.receipts in
      let payload_hash = digest (or_else input.semantic_payload (obj input.payload)) in
      let inbox =
        insert_once (is_inbox_key input) (inbox_row input receipt payload_hash id sequence at)
          t.inbox in
      accept_row-Receives payload_hash id receipt (find? (is_inbox_key input) inbox)
        (record t { inbox = inbox }) message refl

  accept_inbound-Receives :
      (id : String) (sequence : ℕ) (t : Intake)
      → is_canonical input ≡ true
      → Ensures (Receives input) (accept_inbound digest input id sequence fresh at t)
  unfolding accept_inbound
  accept_inbound-Receives id sequence t message =
      Ensures-required (Receives input) input.connection_id 128 _ (
        Ensures-required (Receives input) input.conversation_id 255 _ (
          Ensures->> (Receives input) (ensure (is_known_source input) invalid_inbound_source) _ (
            Ensures->>= (Receives input) (record_conversation input t.conversations) _
              (λ conversations _.
                Ensures->>= (Receives input)
                  (if is_canonical input then required input.message_id 255 else ok "") _
                  (λ checked _. Ensures-required (Receives input) input.event_key 255 _ (
                    Ensures-required (Receives input) input.event_type 64 _ (
                      Ensures-required (Receives input) input.policy_version 128 _ (
                        accept_event-Receives id sequence
                          (record t { conversations = conversations }) message))))))))

-- Nothing is received anew, and no job is made.
abbrev pub IsRepeated : Intake → InboundAnswer × Intake → Type 0
IsRepeated t r =
    (r.0.first_receipt ≡ false)
    × (r.0.duplicate ≡ true)
    × (r.1.jobs ≡ t.jobs)
    × (r.1.receipts ≡ t.receipts)
    × (r.1.messages ≡ t.messages)

repeated_answer-shape :
    (first : String) (canonical : Bool) (found : Option InboxRow) (jobs : List RunJob)
    → Ensures
        (λ a. (a.first_receipt ≡ false) × (a.duplicate ≡ true))
        (repeated_answer first canonical found jobs)
repeated_answer-shape first canonical none jobs = refused _ store_unavailable
repeated_answer-shape first canonical (some row) jobs = ensures _ (refl, refl)

module _ (digest : Json → String) (input : InboundInput) (fresh : ℕ → String × ℕ) (at : ℕ) where
  known_row-IsRepeated :
      (payload_hash id : String) (r : MessageReceipt) (found : Option InboxRow) (t : Intake)
      → Ensures (IsRepeated t) (accept_row digest input payload_hash id fresh at (some r) found t)
  unfolding accept_row
  known_row-IsRepeated payload_hash id r none t = refused (IsRepeated t) store_unavailable
  known_row-IsRepeated payload_hash id r (some row) t =
      Ensures->> (IsRepeated t)
        (ensure (row.payload_hash == payload_hash || source_of input == "history_catchup")
          inbound_conflict)
        _
        (elim (Bool-cases (not (row.id == id))) [
          | inl other ↦ rw other (again row)
          | inr same ↦ rw same (again row)
        ])
    where
      again :
          (row : InboxRow)
          → Ensures (IsRepeated t) (
              repeated_answer r.first_event_id true
                (find? (λ x. x.id == r.first_event_id) t.inbox)
                t.jobs
              >>= λ answer. ok (answer, t))
      again row =
          Ensures->>= (IsRepeated t)
            (repeated_answer r.first_event_id true (find? (λ x. x.id == r.first_event_id) t.inbox)
              t.jobs)
            _
            (λ answer e.
              let (first, duplicate) = Ensures-ok _ (repeated_answer-shape _ _ _ _) e in
              ensures (IsRepeated t) {a = (answer, t)} (first, duplicate, refl, refl, refl))

  known_event-IsRepeated :
      (id : String) (sequence : ℕ) (r : MessageReceipt) (t : Intake)
      → Ensures (IsRepeated t) (accept_event digest input id sequence fresh at (some r) t)
  unfolding accept_event
  known_event-IsRepeated id sequence r t =
      let payload_hash = digest (or_else input.semantic_payload (obj input.payload)) in
      let inbox =
        insert_once (is_inbox_key input) (inbox_row input (some r) payload_hash id sequence at)
          t.inbox in
      known_row-IsRepeated payload_hash id r (find? (is_inbox_key input) inbox)
        (record t { inbox = inbox })

  known-IsRepeated :
      (id : String) (sequence : ℕ) (r : MessageReceipt) (t : Intake)
      → find_receipt input t.receipts ≡ some r
      → Ensures (IsRepeated t) (accept_inbound digest input id sequence fresh at t)
  unfolding accept_inbound
  known-IsRepeated id sequence r t known =
      Ensures-required (IsRepeated t) input.connection_id 128 _ (
        Ensures-required (IsRepeated t) input.conversation_id 255 _ (
          Ensures->> (IsRepeated t) (ensure (is_known_source input) invalid_inbound_source) _ (
            Ensures->>= (IsRepeated t) (record_conversation input t.conversations) _
              (λ conversations _.
                Ensures->>= (IsRepeated t)
                  (if is_canonical input then required input.message_id 255 else ok "") _
                  (λ checked _. Ensures-required (IsRepeated t) input.event_key 255 _ (
                    Ensures-required (IsRepeated t) input.event_type 64 _ (
                      Ensures-required (IsRepeated t) input.policy_version 128 _ (
                        rw known (
                          known_event-IsRepeated id sequence r
                            (record t { conversations = conversations }))))))))))

-- Once an event of the type `message.received` is taken in, no further event of this type about the
-- same message of the same conversation, live or from the history, under whatever event key, is
-- received anew: it fails, or is answered as a duplicate, and makes no job, no receipt and no stored
-- message. Events of other types, such as a recall of the message, are events of their own.
pub accept_inbound-once :
    (digest : Json → String) (input again : InboundInput) (id id' : String) (sequence sequence' : ℕ)
    (fresh fresh' : ℕ → String × ℕ) (at at' : ℕ) (t t' : Intake) (answer : InboundAnswer)
    → accept_inbound digest input id sequence fresh at t ≡ ok (answer, t')
    → is_canonical input ≡ true
    → is_canonical again ≡ true
    → again.connection_id ≡ input.connection_id
    → again.conversation_id ≡ input.conversation_id
    → again.message_id ≡ input.message_id
    → Ensures (IsRepeated t') (accept_inbound digest again id' sequence' fresh' at' t')
accept_inbound-once digest input again id id' sequence sequence' fresh fresh' at at' t t' answer e
      message message' connection conversation name =
    let (r, found) =
      Ensures-ok (Receives input)
        (accept_inbound-Receives digest input fresh at id sequence t message) e in
    known-IsRepeated digest again fresh' at' id' sequence' r t'
      (rw message' (rw (connection, conversation, name) found))
