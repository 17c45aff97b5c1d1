-- ===== src/Core/PrivateAdmission/History.antt =====
-- The admissions of one process: any sequence of the operations of core/private-admission.mjs, with the
-- two halves of overlapping checks in any order, and the replies that the endpoint gave.
use agent_chat_bridge.Prelude.{ℕ, String, Option, List, [], ◌∷◌, In}
use agent_chat_bridge.Json.{Json}
use agent_chat_bridge.Core.PrivateAdmission.{
  Decision, Verdict, Settings, Call, State, empty_state, Reply, outcome_of, CheckInput, learn,
  begin_check, finish_check, reply_for, refuse_message, should_lookup_union,
}

-- A request that settled, what became of it, and when.
pub record Event : Type 0 where
  pub call : Call
  pub reply : Reply
  pub time : ℕ

module _ (parse : String → Option Json) (settings : Settings) where
  pub data Reach : State → List Event → Type 0 where
    starts : Reach empty_state []
    learns :
        {s : State} {h : List Event} (open_id union_id : String)
        → Reach s h
        → Reach (learn open_id union_id s) h
    begins :
        {s : State} {h : List Event} (at : ℕ) (input : CheckInput)
        → Reach s h
        → Reach (begin_check settings at input s).1 h
    finishes :
        {s : State} {h : List Event} (at : ℕ) (call : Call) (reply : Reply)
        → In call s.in_flight
        → Reach s h
        → Reach
            (finish_check settings at call (outcome_of parse call reply) s)
            (record { call = call; reply = reply; time = at } ∷ h)
    replies :
        {s : State} {h : List Event} (at : ℕ) (open_id : String) (decision : Decision)
        → Reach s h
        → Reach (reply_for settings at open_id decision s).1 h
    refuses :
        {s : State} {h : List Event} (message_id : String) (verdict : Verdict)
        → Reach s h
        → Reach (refuse_message message_id verdict s) h
    looks_up :
        {s : State} {h : List Event} (at : ℕ) (open_id : String)
        → Reach s h
        → Reach (should_lookup_union at open_id s).1 h
