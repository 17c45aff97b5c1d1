-- ===== src/Storage/Runs/Inbound.antt =====
-- storage/store.mjs: acceptInbound, which takes an event of the channel into the inbox once and makes
-- the jobs of its hooks. `id` is a fresh UUID, `sequence` the one that the database gives a new row;
-- `fresh n` gives the id and the sequence of the n-th hook's job where it is new.

use agent_chat_bridge.Prelude.{
  ℕ, String, Bool, true, false, not, ◌&&◌, Option, none, some, List, [], ◌∷◌, map, ◌==◌,
  if◌then◌else◌, or_else, text_or, is_text, find?, filter, insert_once, Result, ok, err, ◌>>◌,
  ensure, one_of, conversation_type_conflict, store_unavailable,
}
use agent_chat_bridge.Json.{
  Json, null, str, arr, obj, Fields, field, end, nil, get, set, text_of, truthy,
}
use agent_chat_bridge.Storage.Runs.{RunJob}

-- bridge_inbox
pub record InboxRow : Type 0 where
  pub id : String
  pub connection_id : String
  pub event_key : String
  pub event_type : String
  pub message_id : String
  pub revision : String
  pub conversation_id : String
  pub occurred_at : ℕ
  pub payload_hash : String
  pub payload : Json
  pub policy_version : String
  pub passive_context : Bool
  pub sequence : ℕ
  pub created_at : ℕ

-- bridge_message_receipts
pub record MessageReceipt : Type 0 where
  pub connection_id : String
  pub conversation_id : String
  pub message_id : String
  pub first_event_id : String

-- bridge_conversations
pub record Conversation : Type 0 where
  pub connection_id : String
  pub conversation_id : String
  pub conversation_type : String

-- bridge_message_tombstones
pub record Tombstone : Type 0 where
  pub connection_id : String
  pub message_id : String
  pub created_at : ℕ

-- assistant_inbound_messages
pub record StoredMessage : Type 0 where
  pub connection_id : String
  pub message_id : String
  pub chat_id : String
  pub chat_type : String
  pub message_type : String
  pub sender_open_id : String
  pub sender_name : String
  pub content_text : String
  pub content_json : Json
  pub mentions_json : Json
  pub raw_event_json : Json
  pub bot_mentioned : Bool
  pub group_context_candidate : Bool
  pub message_created_at : ℕ
  pub message_updated_at : ℕ
  pub received_at : ℕ

pub record Intake : Type 0 where
  pub inbox : List InboxRow
  pub receipts : List MessageReceipt
  pub conversations : List Conversation
  pub tombstones : List Tombstone
  pub messages : List StoredMessage
  pub jobs : List RunJob

-- `input.inboundMessage`; an absent text is "".
pub record InboundMessage : Type 0 where
  pub message_type : String
  pub sender_open_id : String
  pub sender_name : String
  pub text : String
  pub content : Option Json
  pub mentions : Option Json
  pub bot_mentioned : Bool
  pub group_context_candidate : Bool
  pub created_at : Option ℕ
  pub updated_at : Option ℕ

pub record InboundInput : Type 0 where
  pub connection_id : String
  pub conversation_id : String
  pub source : Option String
  pub conversation_type : Option String
  pub event_key : String
  pub event_type : String
  pub message_id : String
  pub revision : String
  pub occurred_at : Option ℕ
  pub payload : Fields
  pub semantic_payload : Option Json
  pub policy_version : String
  pub passive_context : Bool
  pub recalled_message_id : String
  pub message : Option InboundMessage
  pub hooks : List (String × Option Json)

-- `given ?? payload[name] ?? fallback`; a value that is no text is no word that is allowed.
abbrev pub word_of : Option String → Option Json → String → String
word_of (some s) v fallback = s
word_of none none fallback = fallback
word_of none (some null) fallback = fallback
word_of none (some (str s)) fallback = s
word_of none (some _) fallback = ""

abbrev pub source_of : InboundInput → String
source_of input = word_of input.source (get "source" input.payload) "live"

abbrev pub type_of : InboundInput → String
type_of input = word_of input.conversation_type (get "conversationType" input.payload) "unknown"

-- `payload[name] && payload[name] !== word`
abbrev pub contradicts : Option Json → String → Bool
contradicts v word = truthy v && not (is_text (text_of v) word)

unfoldable pub is_known_source : InboundInput → Bool
is_known_source input =
    one_of ("live" ∷ "history_catchup" ∷ []) (source_of input)
    && one_of ("p2p" ∷ "group" ∷ "unknown" ∷ []) (type_of input)
    && not (contradicts (get "source" input.payload) (source_of input))
    && not (contradicts (get "conversationType" input.payload) (type_of input))

abbrev pub is_conversation : InboundInput → Conversation → Bool
is_conversation input c =
    c.connection_id == input.connection_id && c.conversation_id == input.conversation_id

abbrev pub conversation_row : InboundInput → Conversation
conversation_row input = record {
  connection_id = input.connection_id;
  conversation_id = input.conversation_id;
  conversation_type = type_of input;
}

abbrev pub check_type : String → Option Conversation → Result (Unit {0})
check_type type none = err store_unavailable
check_type type (some c) = ensure (c.conversation_type == type) conversation_type_conflict

-- The conversation keeps the type that it was first seen with.
unfoldable pub record_conversation : InboundInput → List Conversation → Result (List Conversation)
record_conversation input rows =
    if type_of input == "unknown"
    then ok rows
    else let rows' = insert_once (is_conversation input) (conversation_row input) rows in
      check_type (type_of input) (find? (is_conversation input) rows') >> ok rows'

abbrev pub is_canonical : InboundInput → Bool
is_canonical input = input.event_type == "message.received"

abbrev pub is_receipt : InboundInput → MessageReceipt → Bool
is_receipt input r =
    r.connection_id == input.connection_id
    && r.conversation_id == input.conversation_id
    && r.message_id == input.message_id

abbrev pub has_receipt : Option MessageReceipt → Bool
has_receipt none = false
has_receipt (some r) = true

abbrev pub is_inbox_key : InboundInput → InboxRow → Bool
is_inbox_key input r = r.connection_id == input.connection_id && r.event_key == input.event_key

abbrev pub stored_payload : InboundInput → Json
stored_payload input = obj (
    set "conversationType" (str (type_of input))
      (set "source" (str (source_of input)) input.payload))

abbrev pub inbox_row : InboundInput → Option MessageReceipt → String → String → ℕ → ℕ → InboxRow
inbox_row input receipt payload_hash id sequence at = record {
  id = id;
  connection_id = input.connection_id;
  event_key = input.event_key;
  event_type = input.event_type;
  message_id = input.message_id;
  revision = input.revision;
  conversation_id = input.conversation_id;
  occurred_at = or_else input.occurred_at at;
  payload_hash = payload_hash;
  payload = stored_payload input;
  policy_version = input.policy_version;
  passive_context = not (has_receipt receipt) && input.passive_context;
  sequence = sequence;
  created_at = at;
}

pub record InboundAnswer : Type 0 where
  pub event_id : String
  pub sequence : ℕ
  pub duplicate : Bool
  pub first_receipt : Bool
  pub duplicate_canonical : Bool
  pub hook_job_ids : List String

-- The answer to an event that was taken before.
abbrev pub repeated_answer : String → Bool → Option InboxRow → List RunJob → Result InboundAnswer
repeated_answer first_id canonical none jobs = err store_unavailable
repeated_answer first_id canonical (some first) jobs = ok (record {
  event_id = first_id;
  sequence = first.sequence;
  duplicate = true;
  first_receipt = false;
  duplicate_canonical = canonical;
  hook_job_ids =
      map (λ (j : RunJob). j.id)
        (filter (λ j. is_text j.event_id first_id && j.kind == "hook") jobs);
})

abbrev pub first_event : Option MessageReceipt → InboxRow → String
first_event none row = row.id
first_event (some r) row = r.first_event_id

abbrev pub receipt_row : InboundInput → InboxRow → MessageReceipt
receipt_row input row = record {
  connection_id = input.connection_id;
  conversation_id = input.conversation_id;
  message_id = input.message_id;
  first_event_id = row.id;
}

abbrev pub message_row : InboundInput → InboundMessage → ℕ → StoredMessage
message_row input m at = record {
  connection_id = input.connection_id;
  message_id = input.message_id;
  chat_id = input.conversation_id;
  chat_type = type_of input;
  message_type = text_or m.message_type "text";
  sender_open_id = m.sender_open_id;
  sender_name = m.sender_name;
  content_text = m.text;
  content_json = or_else m.content (obj (field "text" (str m.text) end));
  mentions_json = or_else m.mentions (arr nil);
  raw_event_json = obj (
      field "source" (str (source_of input))
        (field "eventKey" (str input.event_key) (field "revision" (str input.revision) end)));
  bot_mentioned = m.bot_mentioned;
  group_context_candidate = m.group_context_candidate;
  message_created_at = or_else m.created_at (or_else input.occurred_at at);
  message_updated_at = or_else m.updated_at (or_else m.created_at (or_else input.occurred_at at));
  received_at = at;
}

abbrev pub is_message : InboundInput → StoredMessage → Bool
is_message input m = m.connection_id == input.connection_id && m.message_id == input.message_id

-- INSERT IGNORE INTO assistant_inbound_messages
abbrev pub store_message :
    InboundInput → Option InboundMessage → ℕ → List StoredMessage → List StoredMessage
store_message input none at rows = rows
store_message input (some m) at rows = insert_once (is_message input) (message_row input m at) rows
