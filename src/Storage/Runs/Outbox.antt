-- ===== src/Storage/Runs/Outbox.antt =====
-- storage/store.mjs: recordOutbox, which records an effect that the bridge owes a chat. `fresh` holds
-- the ids that a new effect takes: its own and its platform's.
use agent_chat_bridge.Prelude.{
  ℕ, String, Bool, true, false, not, ◌&&◌, ◌||◌, Option, none, some, List, [], ◌∷◌, ◌==◌,
  if◌then◌else◌, or_else, is_text, find?, any, insert_once, Result, ok, err, ◌>>=◌, ◌>>◌, ensure,
  one_of, invalid_outbox_kind, invalid_artifact_effect, invalid_outbox_predecessor,
  resource_retired, outbox_conflict, store_unavailable,
}
use agent_chat_bridge.Json.{Json, null, str, obj, end, field, get, members, text_of}
use agent_chat_bridge.Storage.ForwardJobs.{required}
use agent_chat_bridge.Storage.Runs.{RunJob, Effect, is_job}

pub record EffectInput : Type 0 where
  pub connection_id : String
  pub conversation_id : String
  pub idempotency_key : String
  pub kind : String
  pub payload : Json
  pub job_id : Option String
  pub predecessor_id : Option String
  pub platform_uuid : Option String

-- A text in a condition: neither absent nor empty.
abbrev pub is_given : Option String → Bool
is_given none = false
is_given (some s) = not (s == "")

-- `a === b`, where absent is null.
abbrev pub same_text : Option String → Option String → Bool
same_text none none = true
same_text (some s) (some t) = s == t
same_text _ _ = false

-- WHERE connection_id=? AND idempotency_key=?
abbrev pub is_effect_key : String → String → Effect → Bool
is_effect_key connection key e = e.connection_id == connection && e.idempotency_key == key

-- WHERE id=? AND connection_id=? AND conversation_id=?
abbrev pub is_effect_of : String → String → String → Effect → Bool
is_effect_of connection conversation id e =
    e.id == id && e.connection_id == connection && e.conversation_id == conversation

-- The document names the connection, the conversation and the run.
unfoldable pub names_run : String → String → Option String → Option Json → Bool
names_run connection conversation run doc =
    is_text (text_of (get "connectionId" (members doc))) connection
    && is_text (text_of (get "conversationId" (members doc))) conversation
    && is_given run
    && same_text (text_of (get "runId" (members doc))) run

abbrev pub artifact_ref : Json → Option Json
artifact_ref payload = get "ref" (members (some payload))

abbrev pub effect_payload : EffectInput → Json
effect_payload input = obj (
    field "conversationId" (str input.conversation_id)
      (field "kind" (str input.kind) (field "payload" input.payload end)))

abbrev pub effect_kinds : List String
effect_kinds =
    "create" ∷ "reply" ∷ "reaction" ∷ "upload" ∷ "update" ∷ "artifact_upload" ∷ "artifact_send" ∷ []

module _ (digest : Json → String) where
  -- The upload that an artifact's sending follows: of the same job and the same artifact.
  unfoldable pub is_upload : EffectInput → Option Effect → Bool
  is_upload input none = false
  is_upload input (some e) =
      e.kind == "artifact_upload"
      && same_text e.job_id input.job_id
      && digest (or_else (artifact_ref e.payload) null)
        == digest (or_else (artifact_ref input.payload) null)

  -- What an effect with an artifact must be.
  unfoldable pub check_artifact : EffectInput → List Effect → Result (Unit {0})
  unfolding names_run is_upload
  check_artifact input outbox =
      if not (one_of ("artifact_upload" ∷ "artifact_send" ∷ []) input.kind) then ok tt else do
        let scope = get "scope" (members (some input.payload))
        let ref = artifact_ref input.payload
        ensure
            (names_run input.connection_id input.conversation_id input.job_id scope
              && names_run input.connection_id input.conversation_id input.job_id ref)
            invalid_artifact_effect
        artifact ← required (or_else (text_of (get "artifactId" (members ref))) "") 255
        if not (input.kind == "artifact_send") then ok tt else do
          id ← required (or_else input.predecessor_id "") 36
          let upload = find? (is_effect_of input.connection_id input.conversation_id id) outbox
          ensure (is_upload input upload) invalid_artifact_effect

  -- The predecessor is an effect of the same conversation.
  unfoldable pub check_predecessor : EffectInput → List Effect → Result (Unit {0})
  check_predecessor input outbox = if not (is_given input.predecessor_id) then ok tt else do
    id ← required (or_else input.predecessor_id "") 36
    ensure (any (is_effect_of input.connection_id input.conversation_id id) outbox)
        invalid_outbox_predecessor

  -- The job's outputs are not retired, or the effect was recorded before.
  unfoldable pub check_output : Option RunJob → Bool → Result (Unit {0})
  check_output none recorded = err invalid_artifact_effect
  check_output (some j) recorded =
      ensure (j.output_resource_state == "pending" || recorded) resource_retired

  abbrev pub new_effect : EffectInput → String × String → ℕ → Effect
  new_effect input (id, uuid) at = record {
    id = id;
    connection_id = input.connection_id;
    conversation_id = input.conversation_id;
    idempotency_key = input.idempotency_key;
    kind = input.kind;
    payload_hash = digest (effect_payload input);
    payload = input.payload;
    job_id = input.job_id;
    predecessor_id = input.predecessor_id;
    platform_uuid = or_else input.platform_uuid uuid;
    status = "pending";
    attempts = 0;
    lease_owner = none;
    lease_token = none;
    lease_expires_at = none;
    first_attempt_at = none;
    next_attempt_at = at;
    error_code = none;
    result = null;
    cleanup_pending = false;
    created_at = at;
    updated_at = at;
  }

pub record Recorded : Type 0 where
  pub id : String
  pub platform_uuid : String
  pub predecessor_id : Option String
  pub duplicate : Bool

module _ (digest : Json → String) where
  -- What follows the INSERT.
  unfoldable pub inserted_effect :
      EffectInput → String → Option Effect → List Effect → Result (Recorded × List Effect)
  inserted_effect input id none outbox = err store_unavailable
  inserted_effect input id (some e) outbox =
      if e.payload_hash == digest (effect_payload input)
        && same_text e.job_id input.job_id
        && same_text e.predecessor_id input.predecessor_id
      then ok (
        record {
          id = e.id;
          platform_uuid = e.platform_uuid;
          predecessor_id = e.predecessor_id;
          duplicate = not (e.id == id);
        },
        outbox,
      )
      else err outbox_conflict

  -- insertOutbox
  unfoldable pub insert_outbox :
      EffectInput
      → String × String
      → ℕ
      → List RunJob
      → List Effect
      → Result (Recorded × List Effect)
  unfolding check_artifact check_predecessor check_output inserted_effect
  insert_outbox input fresh at jobs outbox = do
    connection ← required input.connection_id 128
    conversation ← required input.conversation_id 255
    key ← required input.idempotency_key 255
    ensure (one_of effect_kinds input.kind) invalid_outbox_kind
    check_artifact digest input outbox
    check_predecessor digest input outbox
    let same_key = is_effect_key connection key
    if is_given input.job_id
        then check_output digest (find? (is_job connection (or_else input.job_id "")) jobs)
            (any same_key outbox)
        else ok tt
    let outbox' = insert_once same_key (new_effect digest input fresh at) outbox
    inserted_effect input fresh.0 (find? same_key outbox') outbox'
