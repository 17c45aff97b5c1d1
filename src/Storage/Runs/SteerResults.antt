-- ===== src/Storage/Runs/SteerResults.antt =====
-- storage/steering.mjs: finishSteerAttempt, which settles what became of a guidance.
use Prim.Native.String as Text
use Prim.Native.Char.{code}
use agent_chat_bridge.Prelude.{
  ℕ, ◌+◌, String, Bool, true, false, ◌&&◌, ◌||◌, Option, none, some, [], ◌∷◌, ◌==◌, nat_eq, leb,
  if◌then◌else◌, is_text, find?, any, update, Result, ok, err, ◌>>=◌, ◌>>◌, ensure, one_of,
  invalid_steer, steer_conflict,
}
use agent_chat_bridge.Json.{Json, null, bool, str, obj, end, field}
use agent_chat_bridge.Storage.Rotation.{BridgeSession}
use agent_chat_bridge.Storage.Runs.{RunJob, Steer, Store, is_attempt, is_session_of, is_job}
use agent_chat_bridge.Storage.Runs.Leases.{LeaseInput}
use agent_chat_bridge.Storage.Runs.Jobs.{is_id}
use agent_chat_bridge.Storage.Runs.Attempts.{advance}
use agent_chat_bridge.Storage.Runs.Steering.{is_guidance, latest, steer_field, assert_lease}

pub record SteerResult : Type 0 where
  pub outcome : String
  pub error_code : Option String

-- `[a-z]`
abbrev pub is_small : ℕ → Bool
is_small n = leb 97 n && leb n 122

-- `[a-z0-9_]*`
unfoldable pub is_small_word : String → Bool
is_small_word Text.[] = true
is_small_word (Text.◌∷◌ c s) =
    (is_small (code c) || leb 48 (code c) && leb (code c) 57 || nat_eq (code c) 95)
    && is_small_word s

-- `/^[a-z][a-z0-9_]*$/`
unfoldable pub is_code : String → Bool
unfolding is_small_word
is_code Text.[] = false
is_code (Text.◌∷◌ c s) = is_small (code c) && is_small_word s

-- `errorCode` is absent, or a word of at most 64 code units.
unfoldable pub check_code : Option String → Result (Unit {0})
unfolding is_code
check_code none = ok tt
check_code (some code) = steer_field code 64 >>= λ c. ensure (is_code c) invalid_steer

abbrev pub text_value : Option String → Json
text_value none = null
text_value (some s) = str s

abbrev pub steer_payload : SteerResult → Json
steer_payload input =
    obj (field "outcome" (str input.outcome) (field "errorCode" (text_value input.error_code) end))

abbrev pub settle_steer : SteerResult → String → String → ℕ → Steer → Steer
settle_steer input token payload_hash at s = record s {
  status = input.outcome;
  error_code = input.error_code;
  settled_lease_token = some token;
  result_hash = some payload_hash;
  updated_at = at;
}

-- `{accepted:'succeeded',rejected:'pending',unknown:'unknown'}`
abbrev pub guided_status : String → String
guided_status outcome =
    if outcome == "accepted"
    then "succeeded"
    else if outcome == "rejected"
    then "pending"
    else "unknown"

abbrev pub guided_result : SteerResult → Steer → Json
guided_result input s =
    if input.outcome == "accepted"
    then obj (
        field "deferred" (bool true) (
          field "targetRunId" (str s.target_run_id)
            (field "nativeTurnId" (str s.native_turn_id) end)))
    else null

abbrev pub guided : SteerResult → Steer → ℕ → RunJob → RunJob
guided input s at j = record j {
  status = guided_status input.outcome;
  result = guided_result input s;
  error_code = input.error_code;
  next_attempt_at = if input.outcome == "rejected" then at + 1000 else at;
  lease_token = none;
  lease_owner = none;
  lease_expires_at = none;
  updated_at = at;
}

-- The session that an accepted guidance went to, unless it was replaced.
abbrev pub is_guided_session : Steer → BridgeSession → Bool
is_guided_session s x =
    is_session_of s.connection_id s.conversation_id s.agent_id x
    && nat_eq x.generation s.generation
    && is_text x.native_thread_id s.native_thread_id

module _ (digest : Json → String) (connection : String) where
  -- The three statements that settle the guidance `s`.
  unfoldable pub settle_guidance : LeaseInput → SteerResult → ℕ → Steer → Store → Store
  settle_guidance input result at s t = record t {
    steering =
        update (λ x. is_guidance input.id x && x.target_run_id == s.target_run_id)
          (settle_steer result input.lease_token (digest (steer_payload result)) at) t.steering;
    jobs = update (is_id input.id) (guided result s at) t.jobs;
    sessions =
        if result.outcome == "accepted"
        then update (is_guided_session s)
            (λ x. record x { last_message_at = advance x.last_message_at s.created_at }) t.sessions
        else t.sessions;
  }

  -- A call whose lease has settled the guidance already.
  unfoldable pub settled_again : SteerResult → Steer → Store → Result (String × Store)
  settled_again result s t =
      if is_text s.result_hash (digest (steer_payload result))
      then ok (s.status, t)
      else err steer_conflict

  unfoldable pub settle_latest :
      LeaseInput → SteerResult → ℕ → Option Steer → Store → Result (String × Store)
  unfolding settle_guidance
  settle_latest input result at none t = err steer_conflict
  settle_latest input result at (some s) t =
      ensure (s.status == "intent") steer_conflict
      >> ensure (any (is_attempt s.target_run_id) t.attempts) steer_conflict
      >> ok (result.outcome, settle_guidance input result at s t)

  abbrev pub is_settled_by : LeaseInput → Steer → Bool
  is_settled_by input s =
      is_guidance input.id s
      && s.connection_id == connection
      && is_text s.settled_lease_token input.lease_token

  -- What follows the reading of the guidance that this lease has settled.
  unfoldable pub finish_steer_on :
      LeaseInput → SteerResult → ℕ → Option Steer → Store → Result (String × Store)
  unfolding settled_again settle_latest assert_lease
  finish_steer_on input result at (some s) t = settled_again result s t
  finish_steer_on input result at none t =
      assert_lease input.lease_token at (find? (is_job connection input.id) t.jobs) >>= λ job.
      settle_latest input result at (latest (is_guidance input.id) none t.steering) t

  -- finishSteerAttempt
  unfoldable pub finish_steer_attempt :
      LeaseInput → SteerResult → ℕ → Store → Result (String × Store)
  unfolding finish_steer_on check_code
  finish_steer_attempt input result at t = do
    ensure (one_of ("accepted" ∷ "rejected" ∷ "unknown" ∷ []) result.outcome) invalid_steer
    check_code result.error_code
    id ← steer_field input.id 36
    token ← steer_field input.lease_token 36
    finish_steer_on input result at (find? (is_settled_by input) t.steering) t
