-- ===== src/Storage/Runs/Calls/Guides.antt =====
-- The operations on guidance, recoveries and resources keep generations and owners.
use agent_chat_bridge.Prelude.{
  ℕ, String, not, Option, none, some, List, ◌==◌, find?, any, ◌>>◌, ensure, Ensures, ensures,
  refused, Ensures->>=, Ensures->>, Ensures-ok, refl, sym, ap, inl, inr, arith, Bool-cases,
  recovery_conflict, steer_conflict, recovery_not_found, stale_lease, later_than, >>=-eq-ok, [],
  ◌∷◌, Option-cases, ◌∙◌, ◌&&◌, retirement_conflict, one_of, or_else, is_text,
}
use agent_chat_bridge.Json.{Json}
use agent_chat_bridge.Storage.Runs.{
  RunJob, Attempt, ThreadOwner, Steer, Recovery, Store, is_session_of, is_attempt, is_job,
}
use agent_chat_bridge.Storage.Runs.Leases.{LeaseInput, claim_thread, is_owner}
use agent_chat_bridge.Storage.Runs.Steering.{
  Target, is_steerable, steer_target, steer_busy, steer_after, is_guidance, latest, assert_lease,
}
use agent_chat_bridge.Storage.Runs.SteerResults.{
  SteerResult, settle_guidance, settled_again, settle_latest, finish_steer_on, is_guided_session,
  steer_payload,
}
use agent_chat_bridge.Storage.Runs.Attempts.{is_unresolved}
use agent_chat_bridge.Storage.Runs.Recoveries.{
  RecoveryTarget, to_guidance, to_attempt, RecoveryVerdict, adopt_turn, adopt_verified,
  apply_recovery, is_verified, abandon_session,
}
use agent_chat_bridge.Storage.Runs.RecoveryQueue.{
  apply_verdict, finish_leased, finish_found, target,
}
use agent_chat_bridge.Storage.Runs.Resources.{
  ResourceKind, input, output, retire_thread, retire_owner, seal_idle, seal_job, state_of,
  check_owner, agent_of, thread_of, is_busy, is_guided_now,
}
use agent_chat_bridge.Storage.Runs.Calls.Keeps.{
  OwnerKept, Keeps, Keeps-refl, sessions_same, owners_same, sessions_update, owners_update,
  claim_thread-Keeps, OwnersKept,
}
use agent_chat_bridge.Storage.Runs.Calls.Writes.{KeepsToo}

steer_target-Keeps :
    (job : RunJob) (agent : String) (at : ℕ) (found : Option Target) (t : Store)
    → Keeps t (steer_target job agent at found t).1
unfolding steer_target
steer_target-Keeps job agent at none t = Keeps-refl t
steer_target-Keeps job agent at (some x) t = elim (Bool-cases (not (is_steerable job agent x))) [
  | inl a ↦ rw a (Keeps-refl t)
  | inr a ↦
      elim (Bool-cases
        (any (λ s. is_guidance job.id s && s.target_run_id == x.run.id) t.steering)) [
          | inl b ↦ rw (a, b) (Keeps-refl t)
          | inr b ↦
              elim (Bool-cases
                (any (λ s. s.target_run_id == x.run.id && is_unresolved s) t.steering)) [
                  | inl c ↦ rw (a, b, c) (Keeps-refl t)
                  | inr c ↦ rw (a, b, c) (Keeps-refl t)
                ]
        ]
]

steer_busy-Keeps :
    (connection : String) (job : RunJob) (agent : String) (at : ℕ) (busy : Option String)
    (t : Store)
    → Keeps t (steer_busy connection job agent at busy t).1
steer_busy-Keeps connection job agent at none t = Keeps-refl t
steer_busy-Keeps connection job agent at (some run) t = steer_target-Keeps job agent at _ t

pub steer_after-Keeps :
    (connection : String) (job : RunJob) (agent : String) (at : ℕ) (found : Option Steer)
    (t : Store)
    → Keeps t (steer_after connection job agent at found t).1
unfolding steer_after
steer_after-Keeps connection job agent at none t = steer_busy-Keeps connection job agent at _ t
steer_after-Keeps connection job agent at (some s) t = elim (Bool-cases (is_unresolved s)) [
  | inl pending ↦ rw pending (Keeps-refl t)
  | inr over ↦ rw over (steer_busy-Keeps connection job agent at _ t)
]

settle_guidance-Keeps :
    (digest : Json → String) (connection : String) (lease : LeaseInput) (result : SteerResult)
    (at : ℕ) (s : Steer) (t : Store)
    → Keeps t (settle_guidance digest connection lease result at s t)
unfolding settle_guidance
settle_guidance-Keeps digest connection lease result at s t =
    elim (Bool-cases (result.outcome == "accepted")) [
      | inl taken ↦ rw taken (
        sessions_update (is_guided_session s) _ (λ c v g x. refl) (λ x. omega arith) t.sessions,
        owners_same t.owners,
      )
      | inr not_taken ↦ rw not_taken (Keeps-refl t)
    ]

settle_latest-Keeps :
    (digest : Json → String) (connection : String) (lease : LeaseInput) (result : SteerResult)
    (at : ℕ) (found : Option Steer) (t : Store)
    → Ensures (KeepsToo t) (settle_latest digest connection lease result at found t)
unfolding settle_latest
settle_latest-Keeps digest connection lease result at none t = refused (KeepsToo t) steer_conflict
settle_latest-Keeps digest connection lease result at (some s) t =
    Ensures->> (KeepsToo t)
      (ensure (s.status == "intent") steer_conflict
        >> ensure (any (is_attempt s.target_run_id) t.attempts) steer_conflict)
      _
      (ensures (KeepsToo t)
        {a = (result.outcome, settle_guidance digest connection lease result at s t)}
        (settle_guidance-Keeps digest connection lease result at s t))

pub finish_steer_on-Keeps :
    (digest : Json → String) (connection : String) (lease : LeaseInput) (result : SteerResult)
    (at : ℕ) (found : Option Steer) (t : Store)
    → Ensures (KeepsToo t) (finish_steer_on digest connection lease result at found t)
unfolding finish_steer_on settled_again settle_latest
finish_steer_on-Keeps digest connection lease result at (some s) t =
    elim (Bool-cases (is_text s.result_hash (digest (steer_payload result)))) [
      | inl same ↦ rw same (ensures (KeepsToo t) (Keeps-refl t))
      | inr other ↦ rw other (refused (KeepsToo t) steer_conflict)
    ]
finish_steer_on-Keeps digest connection lease result at none t =
    Ensures->>= (KeepsToo t)
      (assert_lease lease.lease_token at (find? (is_job connection lease.id) t.jobs)) _
      (λ j _.
        settle_latest-Keeps digest connection lease result at
          (latest (is_guidance lease.id) none t.steering) t)

adopt_turn-Keeps :
    (r : Recovery) (a : Attempt) (at : ℕ) (thread turn : String) (t : Store)
    → Ensures (Keeps t) (adopt_turn r a at thread turn t)
unfolding adopt_turn
adopt_turn-Keeps r a at thread turn t =
    Ensures->>= (Keeps t)
      (claim_thread a.connection_id a.conversation_id a.agent_id (some thread) t.owners) _
      (λ owners e. ensures (Keeps t) (
        sessions_update (is_session_of a.connection_id a.conversation_id a.agent_id) _
            (λ c v g s. refl) (λ s. omega arith) t.sessions,
        Ensures-ok (OwnersKept t.owners)
            (claim_thread-Keeps a.connection_id a.conversation_id a.agent_id (some thread) t.owners)
            e,
      ))

adopt_verified-Keeps :
    (r : Recovery) (a : Attempt) (at : ℕ) (v : Option (String × String)) (t : Store)
    → Ensures (Keeps t) (adopt_verified r a at v t)
unfolding adopt_verified
adopt_verified-Keeps r a at none t = refused (Keeps t) recovery_conflict
adopt_verified-Keeps r a at (some (thread, turn)) t =
    Ensures->> (Keeps t) (ensure (is_verified r a (some (thread, turn))) recovery_conflict) _
      (adopt_turn-Keeps r a at thread turn t)

apply_recovery-Keeps :
    (r : Recovery) (v : RecoveryVerdict) (at : ℕ) (found : RecoveryTarget) (t : Store)
    → Ensures (Keeps t) (apply_recovery r v at found t)
unfolding apply_recovery
apply_recovery-Keeps r v at (to_guidance s) t =
    Ensures->> (Keeps t) _ _ (ensures (Keeps t) (Keeps-refl t))
apply_recovery-Keeps r v at (to_attempt a) t = elim (Bool-cases (r.action == "adopt_turn")) [
  | inl adopt ↦ rw adopt (adopt_verified-Keeps r a at v.verified t)
  | inr abandon ↦ rw abandon (
      ensures (Keeps t) (
        sessions_update (is_session_of a.connection_id a.conversation_id a.agent_id)
            (abandon_session at) (λ c v g s. refl) (λ s. omega arith) t.sessions,
        owners_same t.owners,
      ))
]

apply_verdict-Keeps :
    (connection : String) (v : RecoveryVerdict) (at : ℕ) (r : Recovery) (t : Store)
    → Ensures (Keeps t) (apply_verdict connection v at r t)
unfolding apply_verdict
apply_verdict-Keeps connection v at r t = elim (Bool-cases (v.outcome == "applied")) [
  | inl applied ↦ rw applied (
      Ensures->>= (Keeps t) (target connection r.run_id r.expected_generation r.action t) _
        (λ found _. apply_recovery-Keeps r v at found t))
  | inr other ↦ rw other (ensures (Keeps t) (Keeps-refl t))
]

retire_owner-Kept : (at : ℕ) (o : ThreadOwner) → OwnerKept o (retire_owner at o)
retire_owner-Kept at o = elim (Option-cases o.resource_retired_at) [
  | inl current ↦ (refl, refl, inl current)
  | inr (time, retired) ↦ (refl, refl, inr (ap (λ r. some (or_else r at)) retired ∙ sym retired))
]

retire_thread-Keeps :
    (kind : ResourceKind) (connection : String) (thread : Option String) (at : ℕ)
    (owners : List ThreadOwner)
    → OwnersKept owners (retire_thread kind connection thread at owners)
unfolding retire_thread
retire_thread-Keeps output connection thread at owners = owners_same owners
retire_thread-Keeps input connection none at owners = owners_same owners
retire_thread-Keeps input connection (some thread) at owners = elim (Bool-cases (thread == "")) [
  | inl none_named ↦ rw none_named (owners_same owners)
  | inr named ↦ rw named (
      owners_update (is_owner connection thread) (retire_owner at) (λ c x o. refl)
        (retire_owner-Kept at) owners)
]

seal_idle-Keeps :
    (kind : ResourceKind) (j : RunJob) (thread : Option String) (at : ℕ) (t : Store)
    → Ensures (KeepsToo t) (seal_idle kind j thread at t)
unfolding seal_idle
seal_idle-Keeps kind j thread at t = elim (Bool-cases (state_of kind j == "sealed")) [
  | inl already ↦ rw already (ensures (KeepsToo t) (Keeps-refl t))
  | inr first ↦ rw first (
      Ensures->> (KeepsToo t) _ _ (
        ensures (KeepsToo t)
          (sessions_same t.sessions, retire_thread-Keeps kind j.connection_id thread at t.owners)))
]

pub seal_job-Keeps :
    (kind : ResourceKind) (j : RunJob) (at : ℕ) (t : Store)
    → Ensures (KeepsToo t) (seal_job kind j at t)
unfolding seal_job
seal_job-Keeps kind j at t =
    let attempt = find? (is_attempt j.id) t.attempts in
    let steer = latest (is_guidance j.id) none t.steering in
    let thread = thread_of attempt steer in
    elim (Bool-cases (state_of kind j == "complete")) [
      | inl already ↦ rw already (ensures (KeepsToo t) (Keeps-refl t))
      | inr open_yet ↦ rw open_yet (
          Ensures->> (KeepsToo t)
            (ensure (check_owner kind j (agent_of attempt steer) thread t) retirement_conflict
              >> ensure (not (is_busy j t)) retirement_conflict
              >> ensure (not (is_guided_now j t)) retirement_conflict)
            _ (seal_idle-Keeps kind j thread at t))
    ]

pub finish_found-Keeps :
    (connection token : String) (v : RecoveryVerdict) (payload_hash : String) (at : ℕ)
    (found : Option Recovery) (t : Store)
    → Ensures (KeepsToo t) (finish_found connection token v payload_hash at found t)
unfolding finish_found finish_leased
finish_found-Keeps connection token v payload_hash at none t =
    refused (KeepsToo t) recovery_not_found
finish_found-Keeps connection token v payload_hash at (some r) t =
    Ensures->> (KeepsToo t) (ensure (is_text r.lease_token token) stale_lease) _
      (elim (Bool-cases (one_of ("applied" ∷ "rejected" ∷ []) r.status)) [
        | inl over ↦ rw over (Ensures->> (KeepsToo t) _ _ (ensures (KeepsToo t) (Keeps-refl t)))
        | inr open_yet ↦ rw open_yet (
            Ensures->>= (KeepsToo t)
              (ensure (r.status == "running" && later_than r.lease_expires_at at) stale_lease
                >> apply_verdict connection v at r t)
              _
              (λ u e.
                let (_, _, done) =
                  >>=-eq-ok
                    (ensure (r.status == "running" && later_than r.lease_expires_at at) stale_lease)
                    _ e in
                ensures (KeepsToo t)
                  (Ensures-ok (Keeps t) (apply_verdict-Keeps connection v at r t) done)))
      ])
