-- ===== src/Core/PrivateAdmission.antt =====
-- core/private-admission.mjs: whether a private sender may use the agent. An endpoint decides; its
-- answers are kept in bounded maps. `parse` is JSON.parse, which gives `none` where it throws. A check
-- is two steps: `begin_check` up to its first await, and `finish_check` when its request settles.
pub mod Memory
pub mod History
pub mod Laws
pub mod Admits
pub mod Once
mod Witnesses
use agent_chat_bridge.Prelude.{
  ℕ, ◌+◌, ◌-◌, min, String, Bool, true, false, not, ◌&&◌, ◌||◌, Option, none, some, List, [], ◌∷◌,
  ◌++◌, ◌==◌, nat_eq, ltb, leb, if◌then◌else◌, one_of, or_else, text_or, filter, any,
}
use agent_chat_bridge.Json.{Json, bool, str, obj, get}
use agent_chat_bridge.Storage.ForwardJobs.{js_length}
use agent_chat_bridge.Core.PrivateAdmission.Memory.{find_key, remember}
use Prim.Native.Char.{Char, code}
use Prim.Native.String

pub data Decision : Type 0 where
  allow deny unavailable : Decision

-- `{ decision, reason }`
pub record Verdict : Type 0 where
  pub decision : Decision
  pub reason : String

-- `a === b` of two decisions
abbrev pub same_decision : Decision → Decision → Bool
same_decision allow allow = true
same_decision deny deny = true
same_decision unavailable unavailable = true
same_decision _ _ = false

pub record Settings : Type 0 where
  pub timeout_ms : ℕ
  pub allow_cache_ms : ℕ
  pub deny_cache_ms : ℕ
  pub deny_text : String
  pub unavailable_text : String

-- An entry of `decisions`.
pub record Entry : Type 0 where
  pub verdict : Verdict
  pub union_id : String
  pub expires_at : ℕ
  pub replied : Bool

-- A request under way: its key of `inFlight`, and its time limit.
pub record Call : Type 0 where
  pub open_id : String
  pub union_id : String
  pub timeout_ms : ℕ

pub record State : Type 0 where
  pub decisions : List (String × Entry)
  pub unions : List (String × String)
  pub messages : List (String × Verdict)
  pub lookups : List (String × ℕ)
  pub in_flight : List Call

abbrev pub empty_state : State
empty_state = record { decisions = []; unions = []; messages = []; lookups = []; in_flight = [] }

abbrev pub decision_limit : ℕ
decision_limit = 1000

abbrev pub union_limit : ℕ
union_limit = 10000

abbrev pub message_limit : ℕ
message_limit = 10000

abbrev pub lookup_limit : ℕ
lookup_limit = 10000

-- UNION_LOOKUP_RETRY_MS
abbrev pub union_retry_ms : ℕ
union_retry_ms = 60000

-- TRANSIENT_DENY_REASONS
abbrev pub transient_reasons : List String
transient_reasons = "no_union_id" ∷ "open_id_missing" ∷ []

-- `[A-Za-z0-9_]`
abbrev pub is_word_code : ℕ → Bool
is_word_code n =
    leb 48 n && leb n 57 || leb 65 n && leb n 90 || nat_eq n 95 || leb 97 n && leb n 122

unfoldable pub is_word : String → Bool
is_word String.[] = true
is_word (String.◌∷◌ c s) = is_word_code (code c) && is_word s

-- `REASON.test(s)`
unfoldable pub is_reason : String → Bool
unfolding is_word
is_reason s = is_word s && not (s == "") && leb (js_length s) 64

-- What became of a request: the name of the error that it threw, or a status and a text.
pub data Reply : Type 0 where
  failed : String → Reply
  responded : ℕ → String → Reply

abbrev pub reason_of : Option Json → String
reason_of (some (str s)) = if is_reason s then s else "unspecified"
reason_of _ = "unspecified"

abbrev pub judge_allowed : Option Json → Option Json → Verdict
judge_allowed (some (bool b)) reason = record {
  decision = if b then allow else deny;
  reason = reason_of reason;
}
judge_allowed _ reason = record { decision = unavailable; reason = "invalid_response" }

abbrev pub judge : Option Json → Verdict
judge (some (obj body)) = judge_allowed (get "allowed" body) (get "reason" body)
judge _ = record { decision = unavailable; reason = "invalid_response" }

-- The outcome of request.
unfoldable pub classify : (String → Option Json) → Reply → Verdict
classify parse (failed name) = record {
  decision = unavailable;
  reason = if one_of ("TimeoutError" ∷ "AbortError" ∷ []) name then "timeout" else "network_error";
}
classify parse (responded status text) =
    if nat_eq status 200
    then judge (if leb (js_length text) 4096 then parse text else none)
    else record { decision = unavailable; reason = "http_status" }

-- The outcome of an operation: without time left, no request is made.
unfoldable pub outcome_of : (String → Option Json) → Call → Reply → Verdict
unfolding classify
outcome_of parse call reply =
    if ltb call.timeout_ms 1
    then record { decision = unavailable; reason = "deadline" }
    else classify parse reply

-- The parts of a check's input that it reads; absent texts are empty.
pub record CheckInput : Type 0 where
  pub open_id : String
  pub union_id : String
  pub deadline_at : Option ℕ

-- Where a check stands at its first await: answered, waiting for a request that is under way, or for
-- one of its own.
pub data Started : Type 0 where
  answered : Verdict → Bool → Started
  joined started : Call → Started

-- learn
unfoldable pub learn : String → String → State → State
unfolding remember
learn open_id union_id s =
    if open_id == "" || union_id == ""
    then s
    else record s { unions = remember union_limit open_id union_id s.unions }

-- `unionId || unions.get(openId) || ''`
abbrev pub known_union : CheckInput → State → String
known_union input s = text_or input.union_id (or_else (find_key input.open_id s.unions) "")

-- `entry && entry.expiresAt > now() && !(entry.unionId === '' && knownUnion)`
abbrev pub usable : ℕ → String → Option Entry → Option Verdict
usable at union none = none
usable at union (some e) =
    if ltb at e.expires_at && not (e.union_id == "" && not (union == ""))
    then some e.verdict
    else none

abbrev pub is_call : String → String → Call → Bool
is_call open_id union c = c.open_id == open_id && c.union_id == union

-- `Math.min(settings.timeoutMs, Math.floor(deadlineAt - now() - DEADLINE_MARGIN_MS))`, with 0 for
-- what is below 0: both are less than 1.
abbrev pub time_left : Settings → ℕ → Option ℕ → ℕ
time_left settings at none = settings.timeout_ms
time_left settings at (some deadline) = min settings.timeout_ms (deadline - at - 250)

-- The part of check after the lookup of a cached result.
unfoldable pub begin_request : Settings → ℕ → CheckInput → String → State → Started × State
begin_request settings at input union s =
    let call : Call = record {
      open_id = input.open_id;
      union_id = union;
      timeout_ms = time_left settings at input.deadline_at;
    } in
    if any (is_call input.open_id union) s.in_flight
    then (joined call, s)
    else (started call, record s { in_flight = s.in_flight ++ call ∷ [] })

-- The answer by a cached result, or the part after it.
unfoldable pub cached_or_request :
    Settings → ℕ → CheckInput → State → Option Verdict → Started × State
unfolding begin_request
cached_or_request settings at input s (some verdict) = (answered verdict true, s)
cached_or_request settings at input s none = begin_request settings at input (known_union input s) s

-- The part of check after `learn`.
unfoldable pub check_known : Settings → ℕ → CheckInput → State → Started × State
unfolding cached_or_request
check_known settings at input s =
    cached_or_request settings at input s
      (usable at (known_union input s) (find_key input.open_id s.decisions))

unfoldable pub begin_check : Settings → ℕ → CheckInput → State → Started × State
unfolding learn check_known
begin_check settings at input s =
    if input.open_id == ""
    then (answered (record { decision = deny; reason = "open_id_missing" }) false, s)
    else check_known settings at input (learn input.open_id input.union_id s)

-- The entry that check remembers.
abbrev pub new_entry : Settings → ℕ → String → Verdict → Entry
new_entry settings at union outcome = record {
  verdict = outcome;
  union_id = union;
  expires_at =
      at
      + (if same_decision outcome.decision allow
          then settings.allow_cache_ms
          else settings.deny_cache_ms);
  replied = false;
}

-- What the operation of check does when its request settles.
unfoldable pub finish_check : Settings → ℕ → Call → Verdict → State → State
unfolding remember
finish_check settings at call outcome s =
    let left = filter (λ c. not (is_call call.open_id call.union_id c)) s.in_flight in
    if outcome.reason == "deadline" then record s { in_flight = left } else record s {
      in_flight = left;
      decisions =
          remember decision_limit call.open_id (new_entry settings at call.union_id outcome)
            s.decisions;
    }

-- `entry.replied = true` of the entry of a key
unfoldable pub mark_replied : String → List (String × Entry) → List (String × Entry)
mark_replied k [] = []
mark_replied k ((j, e) ∷ m) =
    if j == k then (j, record e { replied = true }) ∷ m else (j, e) ∷ mark_replied k m

-- The refusals that replyFor answers.
abbrev pub owes_reply : Decision → ℕ → Option Entry → Bool
owes_reply decision at none = false
owes_reply decision at (some e) =
    not (same_decision e.verdict.decision allow)
    && same_decision e.verdict.decision decision
    && not e.replied
    && not (ltb e.expires_at at)

-- replyFor
unfoldable pub reply_for : Settings → ℕ → String → Decision → State → String × State
unfolding mark_replied
reply_for settings at open_id decision s =
    if owes_reply decision at (find_key open_id s.decisions)
    then (
      if same_decision decision deny then settings.deny_text else settings.unavailable_text,
      record s { decisions = mark_replied open_id s.decisions },
    )
    else ("", s)

-- refuseMessage
unfoldable pub refuse_message : String → Verdict → State → State
unfolding remember
refuse_message message_id verdict s =
    if not (same_decision verdict.decision deny)
      || one_of transient_reasons verdict.reason
      || message_id == ""
    then s
    else record s { messages = remember message_limit message_id verdict s.messages }

-- refused
unfoldable pub refused_message : String → State → Option Verdict
refused_message message_id s = find_key message_id s.messages

-- shouldLookupUnion
unfoldable pub should_lookup_union : ℕ → String → State → Bool × State
unfolding remember
should_lookup_union at open_id s =
    if open_id == ""
      || any (λ u. u.0 == open_id) s.unions
      || ltb at (or_else (find_key open_id s.lookups) 0)
    then (false, s)
    else (
      true,
      record s { lookups = remember lookup_limit open_id (at + union_retry_ms) s.lookups },
    )
