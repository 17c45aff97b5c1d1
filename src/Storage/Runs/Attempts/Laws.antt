-- ===== src/Storage/Runs/Attempts/Laws.antt =====
-- beginAgentAttempt: of the runs of one conversation and agent, one is admitted at a time.
use agent_chat_bridge.Prelude.{
  ℕ, String, Bool, true, false, not, Option, none, some, find?, insert_once, ok, err, ensure,
  Ensures, ensures, refused, Ensures->>=, Ensures->>, Ensures-mono, >>=-eq-ok, insert_once-again,
  Ensures-ok, subst, either_branch, ◌≡◌, refl, sym, ap, ◌∙◌, eq_iff, eq_refl, find?-match,
  find?-update-mapped, mapped, edited, is_text, ◌==◌, inl, inr, session_busy, store_unavailable,
  ◌⊎◌,
}
use mathlib.Core.Bool.{false≢true}
use agent_chat_bridge.Storage.ForwardJobs.{Ensures-required}
use agent_chat_bridge.Storage.Rotation.{BridgeSession}
use agent_chat_bridge.Storage.Runs.{RunJob, Attempt, Store, is_session_of, is_attempt, is_job}
use agent_chat_bridge.Storage.Runs.Leases.{LeaseInput, owned_job}
use agent_chat_bridge.Storage.Runs.Leases.Laws.{owned_job-held, owned_job-id}
use agent_chat_bridge.Storage.Runs.Outbox.{is_given}
use agent_chat_bridge.Storage.Runs.Attempts.{
  Admission, existing_admission, start_attempt, begin_owned, begin_agent_attempt, new_session,
}

-- The session of the conversation and agent is busy with the run.
abbrev pub IsBusy : String → String → String → String → Store → Type 0
IsBusy connection conversation agent run t =
    (s : BridgeSession) × (find? (is_session_of connection conversation agent) t.sessions ≡ some s)
    × (is_text s.active_run_id run ≡ true)

start_attempt-IsBusy :
    (job : RunJob) (agent : String) (at : ℕ) (found : Option BridgeSession) (t : Store)
    → find? (is_session_of job.connection_id job.conversation_id agent) t.sessions ≡ found
    → Ensures
        (λ r. IsBusy job.connection_id job.conversation_id agent job.id r.1)
        (start_attempt job agent at found t)
unfolding start_attempt
start_attempt-IsBusy job agent at none t e = refused _ store_unavailable
start_attempt-IsBusy job agent at (some s) t e =
    let key = is_session_of job.connection_id job.conversation_id agent in
    let start = λ (x : BridgeSession). record x { active_run_id = some job.id; updated_at = at } in
    let Q =
      λ (r : Admission × Store). IsBusy job.connection_id job.conversation_id agent job.id r.1 in
    let (_, met) = find?-match key t.sessions e in
    let changed : edited key start s ≡ start s = rw met refl in
    either_branch (Ensures Q) (is_given s.active_run_id) (err session_busy) _
      (λ busy. refused Q session_busy)
      (λ free. ensures Q (
        start s,
        find?-update-mapped key key start (λ x. refl) t.sessions
            ∙ ap (mapped (edited key start)) e
            ∙ ap some changed,
        eq_refl job.id,
      ))

active_given :
    (active : Option String) (run : String)
    → is_text active run ≡ true
    → (run == "") ≡ false
    → is_given active ≡ true
active_given none run e given = cc
active_given (some s) run e given = ap (λ x. not (x == "")) ((eq_iff s run).0 e) ∙ ap not given

-- A run that is answered without a need of recovery has the session.
begin_owned-IsBusy :
    (job : RunJob) (agent : String) (at : ℕ) (found : Option Attempt) (t : Store)
    → Ensures
        (λ r.
          (r.0.recovery_required ≡ true)
          ⊎ IsBusy job.connection_id job.conversation_id agent job.id r.1)
        (begin_owned job agent at found t)
unfolding begin_owned
begin_owned-IsBusy job agent at (some a) t = ensures _ (inl refl)
begin_owned-IsBusy job agent at none t =
    let key = is_session_of job.connection_id job.conversation_id agent in
    let sessions =
      insert_once key (new_session job.connection_id job.conversation_id agent at) t.sessions in
    let after : Store = record t { sessions = sessions } in
    Ensures->> _ _ _ (
      Ensures-required _ agent 128 _ (
        Ensures-mono (λ r. IsBusy job.connection_id job.conversation_id agent job.id r.1) _ _
          (λ r h. inr h) (start_attempt-IsBusy job agent at (find? key sessions) after refl)))

-- The answer tells the attempt that the run has in the tables, and to recover; nothing changes.
abbrev pub IsResumed : String → Store → Admission × Store → Type 0
IsResumed run t r =
    ((a : Attempt) × (find? (is_attempt run) t.attempts ≡ some a) × (r.0 ≡ existing_admission a))
    × (r.1 ≡ t)

-- What a run of a busy conversation is answered.
busy_refused :
    (job : RunJob) (agent run : String) (at : ℕ) (found : Option Attempt) (t : Store)
    → find? (is_attempt job.id) t.attempts ≡ found
    → IsBusy job.connection_id job.conversation_id agent run t
    → (run == "") ≡ false
    → Ensures (IsResumed job.id t) (begin_owned job agent at found t)
unfolding begin_owned start_attempt
busy_refused job agent run at (some a) t mine busy given =
    ensures (IsResumed job.id t) ((a, mine, refl), refl)
busy_refused job agent run at none t mine (s, found, active) given =
    let key = is_session_of job.connection_id job.conversation_id agent in
    let fresh = new_session job.connection_id job.conversation_id agent at in
    let still : find? key (insert_once key fresh t.sessions) ≡ some s =
      ap (find? key) (insert_once-again key fresh t.sessions found) ∙ found in
    let holds : is_given s.active_run_id ≡ true = active_given s.active_run_id run active given in
    Ensures->> _ _ _ (Ensures-required _ agent 128 _ (rw (still, holds) (refused _ session_busy)))

some-injective : {A : Type 0} {a b : A} → some a ≡ some b → a ≡ b
some-injective e = cc

admitted : {b : Bool} {B : Type 0} → b ≡ false → (b ≡ true) ⊎ B → B
admitted new (inl e) = absurd (false≢true (sym new ∙ e))
admitted new (inr h) = h

-- Once a run is admitted for an agent, no other call for a run of the same conversation and agent is
-- admitted on the tables that it left: each is refused, or answered with the attempt that its own run
-- has already, told to recover, and changes nothing.
pub begin_agent_attempt-exclusive :
    (connection agent : String) (input other : LeaseInput) (at later : ℕ) (t t' : Store)
    (answer : Admission) (job next : RunJob)
    → find? (is_job connection input.id) t.jobs ≡ some job
    → begin_agent_attempt connection input agent at t ≡ ok (answer, t')
    → answer.recovery_required ≡ false
    → find? (is_job connection other.id) t'.jobs ≡ some next
    → next.conversation_id ≡ job.conversation_id
    → Ensures (IsResumed other.id t') (begin_agent_attempt connection other agent later t')
unfolding begin_agent_attempt
begin_agent_attempt-exclusive connection agent input other at later t t' answer job next row e new
      row' same =
    let (j, held, checked) = >>=-eq-ok (owned_job connection input at t.jobs) _ e in
    let (_, _, begun) = >>=-eq-ok (ensure (j.kind == "agent") _) _ checked in
    let (found, _) = owned_job-held connection input at t.jobs held in
    let (_, mine, given) = owned_job-id connection input at t.jobs held in
    let busy = Ensures-ok _ (begin_owned-IsBusy j agent at _ t) begun in
    let conversation : (k : RunJob)
        → find? (is_job connection other.id) t'.jobs ≡ some k
        → k.conversation_id ≡ j.conversation_id =
      λ k found'.
        ap (λ (x : RunJob). x.conversation_id) (some-injective (sym found' ∙ row'))
        ∙ same
        ∙ ap (λ (x : RunJob). x.conversation_id) (some-injective (sym row ∙ found)) in
    let at_same : (k : RunJob)
        → k.connection_id ≡ j.connection_id
        → k.conversation_id ≡ j.conversation_id
        → IsBusy k.connection_id k.conversation_id agent j.id t' =
      λ k c v. rw (c, v) (admitted new busy) in
    let P = IsResumed other.id t' in
    Ensures->>= P (owned_job connection other later t'.jobs) _ (λ k held'.
      let (found', _) = owned_job-held connection other later t'.jobs held' in
      let (named, theirs, _) = owned_job-id connection other later t'.jobs held' in
      let attempt = find? (is_attempt k.id) t'.attempts in
      Ensures->> P _ _ (
        subst (λ run. Ensures (IsResumed run t') (begin_owned k agent later attempt t')) named
          (busy_refused k agent j.id later attempt t' refl
            (at_same k (theirs ∙ sym mine) (conversation k found')) given)))
