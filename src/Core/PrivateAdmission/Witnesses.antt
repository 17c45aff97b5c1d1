-- ===== src/Core/PrivateAdmission/Witnesses.antt =====
-- The theorems on private admission at one sender, one endpoint and one minute.
use agent_chat_bridge.Prelude.{
  ℕ, ◌+◌, ◌≤◌, ◌<◌, String, Bool, true, false, Option, none, some, [], ◌∷◌, ◌==◌, In, inl, ◌≡◌,
  refl, if◌then◌else◌, arith,
}
use agent_chat_bridge.Json.{Json, Fields, bool, obj, end, field, get}
use agent_chat_bridge.Storage.ForwardJobs.{js_length}
use agent_chat_bridge.Core.PrivateAdmission.{
  allow, deny, Verdict, Settings, Entry, Call, State, empty_state, responded, CheckInput,
  begin_check, begin_request, cached_or_request, check_known, learn, outcome_of, classify,
  finish_check, reply_for, should_lookup_union, mark_replied,
}
use agent_chat_bridge.Core.PrivateAdmission.Memory.{
  find_key, remember, remember_all, delete_key, drop_oldest, remember_survives,
}
use agent_chat_bridge.Core.PrivateAdmission.History.{Event, Reach, starts, begins, finishes}
use agent_chat_bridge.Core.PrivateAdmission.Laws.{IsBounded, Reach-IsBounded}
use agent_chat_bridge.Core.PrivateAdmission.Admits.{classify_allow, check_admits}
use agent_chat_bridge.Core.PrivateAdmission.Once.{reply_for_once, should_lookup_union_once}

remember_survives_example :
    find_key {V = ℕ} "a"
      (remember_all 2 (("b", 2) ∷ []) (remember 2 "a" 1 (("c", 3) ∷ ("d", 4) ∷ [])))
    ≡ some 1
remember_survives_example =
    remember_survives 2 "a" 1 (("b", 2) ∷ []) (("c", 3) ∷ ("d", 4) ∷ []) (ground arith) (refl, tt)

abbrev admitting : Fields
admitting = field "allowed" (bool true) end

abbrev parse_example : String → Option Json
parse_example text = if text == "yes" then some (obj admitting) else none

abbrev settings_example : Settings
settings_example = record {
  timeout_ms = 3000;
  allow_cache_ms = 60000;
  deny_cache_ms = 5000;
  deny_text = "no";
  unavailable_text = "later";
}

abbrev sender : CheckInput
sender = record { open_id = "u"; union_id = ""; deadline_at = none }

abbrev call_example : Call
call_example = record { open_id = "u"; union_id = ""; timeout_ms = 3000 }

abbrev asking : State
asking = record empty_state { in_flight = call_example ∷ [] }

abbrev event_example : Event
event_example = record { call = call_example; reply = responded 200 "yes"; time = 10 }

abbrev admitted : Verdict
admitted = record { decision = allow; reason = "unspecified" }

abbrev entry_of : Verdict → ℕ → Bool → Entry
entry_of v until replied = record {
  verdict = v;
  union_id = "";
  expires_at = until;
  replied = replied;
}

abbrev known : Entry → State
known e = record empty_state { decisions = ("u", e) ∷ [] }

Reach_example :
    Reach parse_example settings_example
      (known (entry_of admitted 60010 false))
      (event_example ∷ [])
unfolding begin_check learn check_known cached_or_request begin_request find_key finish_check
    outcome_of classify remember delete_key drop_oldest js_length get
Reach_example =
    finishes {s = asking} 10 call_example (responded 200 "yes") (inl refl) (begins 0 sender starts)

Reach-IsBounded_example :
    IsBounded parse_example settings_example
      (known (entry_of admitted 60010 false))
      (event_example ∷ [])
Reach-IsBounded_example =
    Reach-IsBounded parse_example settings_example (known (entry_of admitted 60010 false))
      (event_example ∷ []) Reach_example

check_admits_example :
    (e : Event) × In e (event_example ∷ [])
    × (e.call.open_id ≡ "u")
    × (20 < e.time + 60000)
    × (0 < e.call.timeout_ms)
    × ((text : String) × (e.reply ≡ responded 200 text)
        × ((m : Fields) × (parse_example text ≡ some (obj m))
            × (get "allowed" m ≡ some (bool true))))
unfolding begin_check learn check_known cached_or_request find_key
check_admits_example =
    check_admits parse_example settings_example 20 sender (known (entry_of admitted 60010 false))
      (event_example ∷ []) admitted true Reach_example refl refl

classify_allow_example :
    (text : String) × (responded 200 "yes" ≡ responded 200 text)
    × (js_length text ≤ 4096)
    × ((m : Fields) × (parse_example text ≡ some (obj m)) × (get "allowed" m ≡ some (bool true)))
unfolding classify get js_length
classify_allow_example = classify_allow parse_example settings_example (responded 200 "yes") refl

abbrev denied : Verdict
denied = record { decision = deny; reason = "no_access" }

reply_for_once_example :
    reply_for settings_example 30 "u" deny (known (entry_of denied 5010 true))
    ≡ ("", known (entry_of denied 5010 true))
unfolding reply_for mark_replied find_key
reply_for_once_example =
    reply_for_once settings_example 20 30 "u" deny deny (known (entry_of denied 5010 false)) refl

should_lookup_union_once_example :
    should_lookup_union 59999 "u" (record empty_state { lookups = ("u", 60000) ∷ [] })
    ≡ (false, record empty_state { lookups = ("u", 60000) ∷ [] })
unfolding should_lookup_union remember delete_key drop_oldest find_key
should_lookup_union_once_example =
    should_lookup_union_once 0 59999 "u" empty_state
      (record empty_state { lookups = ("u", 60000) ∷ [] }) refl (ground arith)
