-- ===== src/Storage/Runs/Calls/Writes.antt =====
-- The operations on jobs and sessions keep generations and owners.
use agent_chat_bridge.Prelude.{
  ℕ, ◌+◌, String, Bool, true, false, not, Option, none, some, List, nat_eq, find?, any, insert_once,
  Result, ok, err, ensure, Ensures, ensures, refused, Ensures->>=, Ensures->>, Ensures-mono,
  Ensures-ok, ◌≡◌, refl, sym, ap, ◌∙◌, inl, inr, arith, Bool-cases, store_unavailable,
  session_conflict, thread_conflict, turn_conflict, is_text, ◌||◌, rejected_thread_conflict, eq_iff,
  Persist-update, if◌then◌else◌, session_busy, find?-match,
}
use agent_chat_bridge.Json.{Json}
use agent_chat_bridge.Storage.ForwardJobs.{Ensures-required}
use agent_chat_bridge.Storage.Rotation.{BridgeSession}
use agent_chat_bridge.Storage.Runs.{RunJob, Attempt, Store, is_session_of}
use agent_chat_bridge.Storage.Runs.Leases.{
  LeaseInput, owned_job, release_attempt, claim_thread, is_active_session,
}
use agent_chat_bridge.Storage.Runs.Jobs.{renew_job, hold_agent_attempt, retry_job}
use agent_chat_bridge.Storage.Runs.Outbox.{is_given, same_text}
use agent_chat_bridge.Storage.Runs.Settlement.{RunEffect, finish_job_with_outbox, record_chain}
use agent_chat_bridge.Storage.Runs.Attempts.{
  BindInput, begin_owned, start_attempt, bind_found, bind_session, new_session, coalesce,
}
use agent_chat_bridge.Storage.Runs.Sessions.{
  SessionInput, RejectedInput, put_session, first_session, set_session, reset_session, apply_reset,
  is_rejected_run,
}
use agent_chat_bridge.Storage.Runs.Calls.{tables}
use agent_chat_bridge.Storage.Runs.Calls.Keeps.{
  SessionAdvances, Keeps, Keeps-refl, Keeps-trans, owners_same, sessions_update, sessions_append,
  sessions_insert, claim_thread-Keeps, release_attempt-Keeps, OwnersKept, SessionsKept,
}

-- The tables beside an answer.
abbrev pub KeepsToo : {A : Type 0} → Store → A × Store → Type 0
KeepsToo t r = Keeps t r.1

pub tables-Keeps :
    {A : Type 0} (t : Store) (m : Result (A × Store))
    → Ensures (KeepsToo t) m
    → Ensures (Keeps t) (tables m)
tables-Keeps t (ok (a, t')) h = ensures (Keeps t) (Ensures-ok (KeepsToo t) h refl)
tables-Keeps t (err e) h = refused (Keeps t) e

start_attempt-Keeps :
    (job : RunJob) (agent : String) (at : ℕ) (found : Option BridgeSession) (t : Store)
    → Ensures (KeepsToo t) (start_attempt job agent at found t)
unfolding start_attempt
start_attempt-Keeps job agent at none t = refused (KeepsToo t) store_unavailable
start_attempt-Keeps job agent at (some s) t = elim (Bool-cases (is_given s.active_run_id)) [
  | inl busy ↦ rw busy (refused (KeepsToo t) session_busy)
  | inr free ↦ rw free (
      ensures (KeepsToo t)
        (sessions_update _ _ (λ c v g s. refl) (λ s. omega arith) t.sessions, owners_same t.owners))
]

pub begin_owned-Keeps :
    (job : RunJob) (agent : String) (at : ℕ) (found : Option Attempt) (t : Store)
    → Ensures (KeepsToo t) (begin_owned job agent at found t)
unfolding begin_owned
begin_owned-Keeps job agent at (some a) t = ensures (KeepsToo t) (Keeps-refl t)
begin_owned-Keeps job agent at none t =
    let key = is_session_of job.connection_id job.conversation_id agent in
    let fresh = new_session job.connection_id job.conversation_id agent at in
    let after : Store = record t { sessions = insert_once key fresh t.sessions } in
    Ensures->> (KeepsToo t) _ _ (
      Ensures-required (KeepsToo t) agent 128 _ (
        Ensures-mono (KeepsToo after) (KeepsToo t) _
          (λ r h.
            Keeps-trans t after r.1 (sessions_insert key fresh t.sessions, owners_same t.owners) h)
          (start_attempt-Keeps job agent at (find? key after.sessions) after)))

pub bind_found-Keeps :
    (input : BindInput) (at : ℕ) (found : Option Attempt) (t : Store)
    → Ensures (Keeps t) (bind_found input at found t)
unfolding bind_found
bind_found-Keeps input at none t = refused (Keeps t) session_conflict
bind_found-Keeps input at (some a) t =
    Ensures->> (Keeps t) (ensure (nat_eq a.generation input.expected_generation) session_conflict) _
      (Ensures->> (Keeps t)
        (ensure
          (not (is_given a.native_thread_id) || is_text a.native_thread_id input.native_thread_id)
          thread_conflict)
        _
        (Ensures->> (Keeps t)
          (ensure
            (not (is_given a.native_turn_id)
              || same_text a.native_turn_id (coalesce input.native_turn_id a.native_turn_id))
            turn_conflict)
          _
          (Ensures-required (Keeps t) input.native_thread_id 255 _ (
            Ensures->> (Keeps t)
              (ensure (any (is_active_session a input.lease.id) t.sessions) session_conflict) _
              (Ensures->>= (Keeps t)
                (claim_thread a.connection_id a.conversation_id a.agent_id
                  (some input.native_thread_id) t.owners)
                _
                (λ owners e. ensures (Keeps t) (
                  sessions_update (is_active_session a input.lease.id)
                      (bind_session input a.created_at at) (λ c v g s. refl) (λ s. omega arith)
                      t.sessions,
                  Ensures-ok (OwnersKept t.owners)
                      (claim_thread-Keeps a.connection_id a.conversation_id a.agent_id
                        (some input.native_thread_id) t.owners)
                      e,
                )))))))

put_session-Keeps :
    (connection : String) (input : SessionInput) (at : ℕ) (sessions : List BridgeSession)
    → Ensures (SessionsKept sessions) (put_session connection input at sessions)
unfolding put_session
put_session-Keeps connection input at sessions =
    elim (Bool-cases (nat_eq input.expected_generation 0)) [
      | inl first ↦ rw first (
          Ensures->> (SessionsKept sessions) _ _ (
            ensures (SessionsKept sessions)
              (sessions_append (first_session connection input at) sessions)))
      | inr later ↦ rw later (
          Ensures->> (SessionsKept sessions) _ _ (
            ensures (SessionsKept sessions)
              (sessions_update _ _ (λ c v g s. refl) (λ s. omega arith) sessions)))
    ]

same_key :
    (c v g c' v' g' : String) (x : BridgeSession)
    → is_session_of c v g x ≡ true
    → is_session_of c' v' g' x ≡ true
    → (c ≡ c') × (v ≡ v') × (g ≡ g')
same_key c v g c' v' g' x h h' = (
  sym ((eq_iff x.connection_id c).0 (ground (arith, h)))
      ∙ (eq_iff x.connection_id c').0 (ground (arith, h')),
  sym ((eq_iff x.conversation_id v).0 (ground (arith, h)))
      ∙ (eq_iff x.conversation_id v').0 (ground (arith, h')),
  sym ((eq_iff x.agent_id g).0 (ground (arith, h))) ∙ (eq_iff x.agent_id g').0 (ground (arith, h')),
)

-- A session that a reset expects has the expected generation.
expected_generation :
    (input : RejectedInput) (a : Attempt) (found : Option BridgeSession) (x : BridgeSession)
    → found ≡ some x
    → is_rejected_run input a found ≡ true
    → x.generation ≡ input.expected_generation
unfolding is_rejected_run
expected_generation input a none x e h = cc
expected_generation input a (some s) x e h =
    let same : s ≡ x = cc e in
    sym (ap (λ (y : BridgeSession). y.generation) same) ∙ ground (arith, h)

pub apply_reset-Keeps :
    (input : RejectedInput) (a : Attempt) (key payload_hash row_id : String) (at : ℕ) (t : Store)
    → Ensures (KeepsToo t) (apply_reset input a key payload_hash row_id at t)
unfolding apply_reset
apply_reset-Keeps input a key payload_hash row_id at t =
    let key_of = is_session_of a.connection_id a.conversation_id a.agent_id in
    elim (Bool-cases (is_rejected_run input a (find? key_of t.sessions))) [
      | inl expected ↦ rw expected (
          ensures (KeepsToo t) (
            (λ c v g.
                Persist-update (is_session_of c v g) key_of
                  (λ s. record s {
                    generation = input.expected_generation + 1;
                    native_thread_id = none;
                    updated_at = at;
                  })
                  SessionAdvances (λ s. omega arith) (λ s. refl) t.sessions
                  (λ x found met.
                    let (_, mine) = find?-match (is_session_of c v g) t.sessions found in
                    let (c', v', g') =
                      same_key c v g a.connection_id a.conversation_id a.agent_id x mine met in
                    let current =
                      expected_generation input a (find? key_of t.sessions) x
                        (rw (← c', ← v', ← g') found) expected in
                    omega (arith, current))),
            owners_same t.owners,
          ))
      | inr other ↦ rw other (refused (KeepsToo t) rejected_thread_conflict)
    ]

module _ (connection : String) where
  pub renew_job-Keeps :
      (input : LeaseInput) (lease_ms at : ℕ) (t : Store)
      → Ensures (Keeps t) (renew_job connection input lease_ms at t)
  unfolding renew_job
  renew_job-Keeps input lease_ms at t =
      Ensures->>= (Keeps t) (owned_job connection input at t.jobs) _
        (λ j _. Ensures->> (Keeps t) _ _ (ensures (Keeps t) (Keeps-refl t)))

  pub hold_agent_attempt-Keeps :
      (input : LeaseInput) (code : String) (at : ℕ) (t : Store)
      → Ensures (Keeps t) (hold_agent_attempt connection input code at t)
  unfolding hold_agent_attempt
  hold_agent_attempt-Keeps input code at t =
      Ensures->>= (Keeps t) (owned_job connection input at t.jobs) _ (λ j _.
        Ensures->> (Keeps t) _ _
          (Ensures-required (Keeps t) code 64 _ (ensures (Keeps t) (Keeps-refl t))))

  pub retry_job-Keeps :
      (input : LeaseInput) (terminal : Bool) (next : Option ℕ) (code : String) (at : ℕ) (t : Store)
      → Ensures (Keeps t) (retry_job connection input terminal next code at t)
  unfolding retry_job
  retry_job-Keeps input terminal next code at t =
      Ensures->>= (Keeps t) (owned_job connection input at t.jobs) _ (λ j _.
        Ensures->>= (Keeps t) (if terminal then release_attempt j.id at t else ok t) _ (λ u e.
          Ensures-required (Keeps t) code 64 _
            (ensures (Keeps t) (Ensures-ok (Keeps t) (released j.id terminal) e))))
    where
      released :
          (id : String) (b : Bool) → Ensures (Keeps t) (if b then release_attempt id at t else ok t)
      released id true = release_attempt-Keeps id at t
      released id false = ensures (Keeps t) (Keeps-refl t)

  pub finish_job_with_outbox-Keeps :
      (digest : Json → String) (fresh : ℕ → String × String) (input : LeaseInput)
      (effects : List RunEffect) (result : Json) (at : ℕ) (t : Store)
      → Ensures
          (KeepsToo t)
          (finish_job_with_outbox digest fresh connection input effects result at t)
  unfolding finish_job_with_outbox
  finish_job_with_outbox-Keeps digest fresh input effects result at t =
      Ensures->>= (KeepsToo t) (owned_job connection input at t.jobs) _ (λ j _.
        Ensures->>= (KeepsToo t) (release_attempt j.id at t) _ (λ u e.
          Ensures->>= (KeepsToo t)
            (record_chain digest fresh j at u.jobs 0 none none effects u.outbox) _
            (λ chain _.
              ensures (KeepsToo t) (Ensures-ok (Keeps t) (release_attempt-Keeps j.id at t) e))))

  pub set_session-Keeps :
      (input : SessionInput) (at : ℕ) (t : Store)
      → Ensures (KeepsToo t) (set_session connection input at t)
  unfolding set_session
  set_session-Keeps input at t = Ensures-required (KeepsToo t) input.conversation_id 255 _ (
      Ensures-required (KeepsToo t) input.agent_id 128 _ (
        Ensures->>= (KeepsToo t) (put_session connection input at t.sessions) _ (λ sessions e.
          Ensures->>= (KeepsToo t)
            (claim_thread connection input.conversation_id input.agent_id input.native_thread_id
              t.owners)
            _
            (λ owners e'. ensures (KeepsToo t) (
              Ensures-ok (SessionsKept t.sessions)
                  (put_session-Keeps connection input at t.sessions) e,
              Ensures-ok (OwnersKept t.owners)
                  (claim_thread-Keeps connection input.conversation_id input.agent_id
                    input.native_thread_id t.owners)
                  e',
            )))))

  pub reset_session-Keeps :
      (input : SessionInput) (at : ℕ) (t : Store)
      → Ensures (KeepsToo t) (reset_session connection input at t)
  unfolding reset_session
  reset_session-Keeps input at t = Ensures-required (KeepsToo t) input.conversation_id 255 _ (
      Ensures-required (KeepsToo t) input.agent_id 128 _ (
        Ensures->> (KeepsToo t) _ _ (
          ensures (KeepsToo t) (
            sessions_update _ _ (λ c v g s. refl) (λ s. omega arith) t.sessions,
            owners_same t.owners,
          ))))
