-- ===== src/Core/Steering.antt =====
-- core/steering.mjs: createSteeringHandler, over beginSteerAttempt, finishSteerAttempt and
-- getSteerAttempt of the steering store. The reply of the agent's process to steerTurn is a
-- parameter, and so is whether the reply of a settlement that was committed is lost.
pub mod Laws
pub mod Outcomes
mod Witnesses
use agent_chat_bridge.Prelude.{
  ℕ, String, Bool, true, false, not, ◌&&◌, ◌==◌, Option, none, some, [], ◌∷◌, one_of, ◌>>=◌, Result,
  err, ok, StoreError, if◌then◌else◌,
}
use agent_chat_bridge.Json.{Json}
use agent_chat_bridge.Storage.Runs.{Steer, Store}
use agent_chat_bridge.Storage.Runs.Leases.{LeaseInput}
use agent_chat_bridge.Storage.Runs.Steering.{
  SteerKind, inactive, recovery_required, admitted, steer_field, latest, is_guidance,
  begin_steer_attempt,
}
use agent_chat_bridge.Storage.Runs.SteerResults.{SteerResult, finish_steer_attempt}

-- What steerTurn does: the turnId of its result, or the `outcome` of what it throws.
pub data SteerReply : Type 0 where
  replied : Option String → SteerReply
  refused_with : String → SteerReply

-- The text that is sent into a turn.
pub record Guide : Type 0 where
  pub thread : String
  pub turn : String
  pub text : String
  pub message : String

-- `false`; `true` with the outcome that is logged; what is thrown.
pub data SteerEnd : Type 0 where
  not_steered : SteerEnd
  steered : String → SteerEnd
  unconfirmed : SteerEnd
  failed : StoreError → SteerEnd

pub record SteerRun : Type 0 where
  pub sent : Option Guide
  pub answer : SteerEnd
  pub tables : Store

abbrev pub outcome_of_turn : String → SteerReply → String
outcome_of_turn turn (replied none) = "unknown"
outcome_of_turn turn (replied (some id)) = if id == turn then "accepted" else "unknown"
outcome_of_turn turn (refused_with outcome) =
    if outcome == "rejected" then "rejected" else "unknown"

-- errorCode
abbrev pub result_of : String → SteerResult
result_of outcome = record {
  outcome = outcome;
  error_code =
      if outcome == "accepted"
      then none
      else some (if outcome == "rejected" then "steer_rpc_rejected" else "steer_admission_unknown");
}

abbrev pub is_open : Option Steer → Bool
is_open none = false
is_open (some s) = one_of ("intent" ∷ "unknown" ∷ []) s.status

abbrev pub is_settled : Steer → Bool
is_settled s = one_of ("accepted" ∷ "rejected" ∷ "unknown" ∷ []) s.status

abbrev pub confirmed : Option Steer → SteerEnd
confirmed none = unconfirmed
confirmed (some s) = if is_settled s then steered s.status else unconfirmed

abbrev pub read_back : Result (Option Steer) → SteerEnd
read_back (err e) = failed e
read_back (ok recorded) = confirmed recorded

module _ (connection : String) where
  -- getSteerAttempt
  unfoldable pub get_steer_attempt : String → Store → Result (Option Steer)
  get_steer_attempt id t = steer_field id 36 >>= λ job.
      ok (latest (λ s. is_guidance job s && s.connection_id == connection) none t.steering)

  -- The admission: a handler that is not enabled only goes on with a guidance left open.
  unfoldable pub begin_steer : Bool → LeaseInput → ℕ → Store → Result (SteerKind × Store)
  unfolding get_steer_attempt
  begin_steer true input at t = begin_steer_attempt connection input "codex" at t
  begin_steer false input at t = get_steer_attempt input.id t >>= λ previous.
      if is_open previous
      then begin_steer_attempt connection input "codex" at t
      else ok (inactive, t)

module _ (digest : Json → String) (connection : String) where
  -- The end of the settlement; one that throws is read back.
  abbrev pub after_finish :
      LeaseInput → String → Bool → Store → Result (String × Store) → SteerEnd × Store
  after_finish input outcome lost t (err e) =
      (read_back (get_steer_attempt connection input.id t), t)
  after_finish input outcome lost t (ok (status, t')) =
      if lost
      then (read_back (get_steer_attempt connection input.id t'), t')
      else (steered outcome, t')

  unfoldable pub settle_outcome : LeaseInput → String → Bool → ℕ → Store → SteerEnd × Store
  unfolding get_steer_attempt
  settle_outcome input outcome lost at t =
      after_finish input outcome lost t
        (finish_steer_attempt digest connection input (result_of outcome) at t)

  abbrev pub run_of : Option Guide → SteerEnd × Store → SteerRun
  run_of guide (answer, t) = record { sent = guide; answer = answer; tables = t }

  abbrev pub guide_of : String → Steer → Guide
  guide_of text s = record {
    thread = s.native_thread_id;
    turn = s.native_turn_id;
    text = text;
    message = s.client_message_id;
  }

  unfoldable pub after_begin :
      LeaseInput → String → SteerReply → Bool → ℕ → Store → Result (SteerKind × Store) → SteerRun
  unfolding settle_outcome
  after_begin input text reply lost at t (err e) = run_of none (failed e, t)
  after_begin input text reply lost at t (ok (inactive, t')) = run_of none (not_steered, t')
  after_begin input text reply lost at t (ok (recovery_required s, t')) =
      run_of none (settle_outcome input "unknown" lost at t')
  after_begin input text reply lost at t (ok (admitted s, t')) =
      run_of (some (guide_of text s))
        (settle_outcome input (outcome_of_turn s.native_turn_id reply) lost at t')

  -- steer
  unfoldable pub steer : Bool → LeaseInput → String → SteerReply → Bool → ℕ → ℕ → Store → SteerRun
  unfolding begin_steer after_begin
  steer enabled input text reply lost at later t =
      after_begin input text reply lost later t (begin_steer connection enabled input at t)
