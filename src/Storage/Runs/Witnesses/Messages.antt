-- ===== src/Storage/Runs/Witnesses/Messages.antt =====
-- The theorem on inbound messages at one message.
use agent_chat_bridge.Json.{get}
use agent_chat_bridge.Prelude.{true, one_of}
use agent_chat_bridge.Storage.ForwardJobs.{js_length}
use agent_chat_bridge.Storage.ForwardJobs.{required}
use agent_chat_bridge.Prelude.{false, ℕ, String, none, [], ◌∷◌, refl, Ensures, find?, insert_once}
use agent_chat_bridge.Json.{end}
use agent_chat_bridge.Storage.Runs.Inbound.{
  InboxRow, Intake, InboundInput, InboundAnswer, inbox_row, receipt_row,
}
use agent_chat_bridge.Storage.Runs.Accept.{accept_inbound}
use agent_chat_bridge.Storage.Runs.Accept.Laws.{IsRepeated, accept_inbound-once}
use agent_chat_bridge.Storage.Runs.Witnesses.{hash_of}

abbrev received : InboundInput
received = record {
  connection_id = "feishu";
  conversation_id = "oc";
  source = none;
  conversation_type = none;
  event_key = "k1";
  event_type = "message.received";
  message_id = "om";
  revision = "";
  occurred_at = none;
  payload = end;
  semantic_payload = none;
  policy_version = "1";
  passive_context = false;
  recalled_message_id = "";
  message = none;
  hooks = [];
}

abbrev received_again : InboundInput
received_again = record received { event_key = "k2" }

abbrev ids : ℕ → String × ℕ
ids n = ("x", n)

abbrev no_events : Intake
no_events = record {
  inbox = [];
  receipts = [];
  conversations = [];
  tombstones = [];
  messages = [];
  jobs = [];
}

abbrev first_row : InboxRow
first_row = inbox_row received none "h" "e1" 1 5

abbrev one_event : Intake
one_event = record no_events {
  inbox = first_row ∷ [];
  receipts = receipt_row received first_row ∷ [];
}

abbrev first_answer : InboundAnswer
first_answer = record {
  event_id = "e1";
  sequence = 1;
  duplicate = false;
  first_receipt = true;
  duplicate_canonical = false;
  hook_job_ids = [];
}

accept_inbound-once_example :
    Ensures (IsRepeated one_event) (accept_inbound hash_of received_again "e2" 2 ids 9 one_event)
unfolding accept_inbound required js_length one_of get find? insert_once
accept_inbound-once_example =
    accept_inbound-once hash_of received received_again "e1" "e2" 1 2 ids ids 5 9 no_events
      one_event first_answer refl refl refl refl refl refl
