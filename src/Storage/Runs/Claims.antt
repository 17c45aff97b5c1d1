-- ===== src/Storage/Runs/Claims.antt =====
-- storage/store.mjs: claimJobs and claimOutbox, which hand rows to a worker under a lease.
-- `before` is the order of ids in the database, `locked` tells the ids of the rows that another
-- transaction holds (SKIP LOCKED).
pub mod Laws
use agent_chat_bridge.Prelude.{
  ℕ, ◌+◌, String, Bool, true, false, not, ◌&&◌, ◌||◌, Option, none, some, List, [], ◌∷◌, ◌++◌, map,
  ◌==◌, nat_eq, ltb, leb, at_most, if◌then◌else◌, or_else, filter, find?, any, take, sort_by,
  update, Result, ok, ◌>>=◌, ◌>>◌, ensure, one_of, invalid_store_limit, invalid_lease,
  invalid_job_kind,
}
use agent_chat_bridge.Storage.ForwardJobs.{required}
use agent_chat_bridge.Storage.Runs.{RunJob, Effect, is_effect, is_job}
use agent_chat_bridge.Storage.Runs.Jobs.{is_lease_time}

-- BRIDGE_JOB_STATUSES
abbrev pub job_statuses : List String
job_statuses =
    "pending" ∷ "running" ∷ "succeeded" ∷ "failed" ∷ "cancelled" ∷ "reply_pending" ∷ "unknown"
    ∷ "delivery_failed" ∷ []

-- TERMINAL_BRIDGE_JOB_STATUSES
abbrev pub terminal_statuses : List String
terminal_statuses = "succeeded" ∷ "failed" ∷ "cancelled" ∷ []

-- BLOCKING_HOOK_JOB_STATUSES
unfoldable pub blocking_statuses : List String
unfolding one_of
blocking_statuses = filter (λ s. not (one_of terminal_statuses s)) job_statuses

-- A hook job of the same conversation and hook, in the status, with an earlier sequence.
abbrev pub is_prior : RunJob → String → RunJob → Bool
is_prior j status prior =
    prior.connection_id == j.connection_id
    && prior.conversation_id == j.conversation_id
    && prior.hook_id == j.hook_id
    && prior.kind == "hook"
    && prior.status == status
    && ltb prior.sequence j.sequence

-- HOOK_PREDECESSOR_SQL: one probe for each status that blocks
unfoldable pub no_prior : List String → RunJob → List RunJob → Bool
no_prior [] j jobs = true
no_prior (s ∷ ss) j jobs = not (any (is_prior j s) jobs) && no_prior ss j jobs

unfoldable pub is_claimable_job : String → String → ℕ → List RunJob → RunJob → Bool
is_claimable_job connection kind at jobs j =
    j.connection_id == connection
    && j.kind == kind
    && (j.status == "pending" && leb j.next_attempt_at at
        || j.status == "running" && at_most j.lease_expires_at at)
    && (not (j.kind == "hook") || no_prior blocking_statuses j jobs)

-- There is no predecessor, or it is a sent effect of the connection.
abbrev pub sent_before : String → List Effect → Option String → Bool
sent_before connection outbox none = true
sent_before connection outbox (some id) =
    any (λ p. is_effect connection id p && p.status == "sent") outbox

-- OUTBOX_PREDECESSOR_SQL
unfoldable pub predecessor_sent : List Effect → Effect → Bool
predecessor_sent outbox e = sent_before e.connection_id outbox e.predecessor_id

-- OUTBOX_UNKNOWN_RETRY_MS
abbrev pub unknown_retry_ms : ℕ
unknown_retry_ms = 3300000

abbrev pub is_due_effect : String → ℕ → List Effect → Effect → Bool
is_due_effect connection at outbox e =
    e.connection_id == connection
    && e.status == "pending"
    && leb e.next_attempt_at at
    && predecessor_sent outbox e

-- `first_attempt_at>at-unknown_retry_ms`
abbrev pub is_recent : Option ℕ → ℕ → Bool
is_recent none at = false
is_recent (some t) at = ltb at (t + unknown_retry_ms)

abbrev pub is_uncertain_effect : String → ℕ → List Effect → Effect → Bool
is_uncertain_effect connection at outbox e =
    e.connection_id == connection
    && e.status == "unknown"
    && is_recent e.first_attempt_at at
    && leb e.next_attempt_at at
    && one_of ("create" ∷ "reply" ∷ "artifact_send" ∷ []) e.kind
    && predecessor_sent outbox e

-- An expired send is uncertain.
abbrev pub expire : Effect → Effect
expire e = record e { status = "unknown"; lease_token = none; lease_owner = none }

-- `limit`, `leaseMs`, `owner` of a claim
pub record RunClaim : Type 0 where
  pub owner : String
  pub limit : ℕ
  pub lease_ms : ℕ

-- The checks of a claim before its transaction; the limit is 50 where the input has none.
unfoldable pub check_claim : RunClaim → Result (Unit {0})
check_claim input = do
  ensure (leb 1 input.limit && leb input.limit 100) invalid_store_limit
  owner ← required input.owner 128
  ensure (is_lease_time input.lease_ms) invalid_lease

abbrev pub pick_row : {Row : Type 0} → Option Row → List Row → List Row
pick_row none rows = rows
pick_row (some row) rows = row ∷ rows

-- The rows of these ids, in the order of the ids.
abbrev pub pick : {Row : Type 0} → (String → Row → Bool) → List String → List Row → List Row
pick has_id [] rows = []
pick has_id (id ∷ ids) rows = pick_row (find? (has_id id) rows) (pick has_id ids rows)

-- id IN (…)
abbrev pub is_listed : List String → String → Bool
is_listed ids id = any (λ i. i == id) ids

abbrev pub lease_job : String → String → ℕ → ℕ → RunJob → RunJob
lease_job owner token until at j = record j {
  status = "running";
  attempts = j.attempts + 1;
  lease_owner = some owner;
  lease_token = some token;
  lease_expires_at = some until;
  updated_at = at;
}

abbrev pub lease_effect : String → String → ℕ → ℕ → Effect → Effect
lease_effect owner token until at e = record e {
  status = "running";
  attempts = e.attempts + 1;
  lease_owner = some owner;
  lease_token = some token;
  lease_expires_at = some until;
  first_attempt_at = some (or_else e.first_attempt_at at);
  updated_at = at;
}

module _ (connection : String) (before : String → String → Bool) (locked : String → Bool) where
  -- ORDER BY created_at,id
  abbrev pub by_row_age : ℕ × String → ℕ × String → Bool
  by_row_age (t, a) (u, b) = ltb t u || nat_eq t u && before a b

  abbrev pub job_candidates : String → ℕ → ℕ → List RunJob → List RunJob
  job_candidates kind at limit jobs = take limit (
      sort_by (λ a b. by_row_age (a.created_at, a.id) (b.created_at, b.id))
        (filter (λ j. is_claimable_job connection kind at jobs j && not (locked j.id)) jobs))

  -- claimJobs
  unfoldable pub claim_jobs :
      RunClaim → String → String → ℕ → List RunJob → Result (List RunJob × List RunJob)
  unfolding check_claim
  claim_jobs input kind token at jobs = do
    check_claim input
    ensure (one_of ("agent" ∷ "hook" ∷ []) kind) invalid_job_kind
    let ids = map (λ (j : RunJob). j.id) (job_candidates kind at input.limit jobs)
    let jobs' =
        update (λ j. j.connection_id == connection && is_listed ids j.id)
          (lease_job input.owner token (at + input.lease_ms) at) jobs
    ok (pick (is_job connection) ids jobs', jobs')

  abbrev pub branch : (Effect → Bool) → ℕ → List Effect → List Effect
  branch p limit outbox = take limit (
      sort_by (λ a b. by_row_age (a.created_at, a.id) (b.created_at, b.id))
        (filter (λ e. p e && not (locked e.id)) outbox))

  -- The UNION ALL of the due effects and the recent uncertain ones.
  unfoldable pub effect_candidates : ℕ → ℕ → List Effect → List Effect
  effect_candidates at limit outbox = take limit (
      sort_by (λ a b. by_row_age (a.created_at, a.id) (b.created_at, b.id))
        (branch (is_due_effect connection at outbox) limit outbox
          ++ branch (is_uncertain_effect connection at outbox) limit outbox))

  abbrev pub is_expired : ℕ → Effect → Bool
  is_expired at e =
      e.connection_id == connection && e.status == "running" && at_most e.lease_expires_at at

  -- UPDATE … ORDER BY lease_expires_at,id LIMIT 100
  unfoldable pub expire_leases : ℕ → List Effect → List Effect
  expire_leases at outbox =
      let expired = take 100 (
        sort_by
          (λ a b.
            by_row_age (or_else a.lease_expires_at 0, a.id) (or_else b.lease_expires_at 0, b.id))
          (filter (is_expired at) outbox)) in
      update (λ e. is_expired at e && is_listed (map (λ (x : Effect). x.id) expired) e.id) expire
        outbox

  -- claimOutbox; `expiring` tells whether this call reclassifies expired leases first.
  unfoldable pub claim_outbox :
      RunClaim → Bool → String → ℕ → List Effect → Result (List Effect × List Effect)
  unfolding check_claim effect_candidates expire_leases
  claim_outbox input expiring token at outbox = do
    check_claim input
    let current = if expiring then expire_leases at outbox else outbox
    let ids = map (λ (e : Effect). e.id) (effect_candidates at input.limit current)
    let outbox' =
        update (λ e. e.connection_id == connection && is_listed ids e.id)
          (lease_effect input.owner token (at + input.lease_ms) at) current
    ok (pick (is_effect connection) ids outbox', outbox')
