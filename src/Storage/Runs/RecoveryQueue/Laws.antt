-- ===== src/Storage/Runs/RecoveryQueue/Laws.antt =====
-- A repeated acknowledgement of a recovery applies nothing again.
use agent_chat_bridge.Prelude.{
  ℕ, String, Bool, true, false, ◌&&◌, ◌||◌, ltb, StoreError, Option, none, some, [], ◌∷◌, find?,
  update, ok, ◌>>◌, ensure, Ensures, ensures, refused, Ensures->>=, Ensures->>, Ensures-ok, ◌≡◌,
  refl, sym, ap, ◌∙◌, inl, inr, Bool-cases, ◌==◌, eq_refl, >>=-eq-ok, find?-update-mapped, mapped,
  edited, one_of, is_text, later_than, stale_lease, recovery_conflict, recovery_not_found,
  invalid_recovery, ok-injective,
}
use agent_chat_bridge.Json.{Json}
use agent_chat_bridge.Storage.ForwardJobs.{js_length}
use agent_chat_bridge.Storage.Runs.{Attempt, Recovery, Store}
use agent_chat_bridge.Storage.Runs.Leases.{LeaseInput, claim_thread}
use agent_chat_bridge.Storage.Runs.Recoveries.{
  RecoveryTarget, to_guidance, to_attempt, RecoveryVerdict, verdict_payload, recovery_field,
  check_error, check_verified, is_verified, adopt_turn, adopt_verified, apply_recovery,
}
use agent_chat_bridge.Storage.Runs.RecoveryQueue.{
  is_recovery, close, target, apply_verdict, finish_leased, finish_found, finish_recovery,
}

abbrev SameRequests : Store → Store → Type 0
SameRequests t t' = t'.recoveries ≡ t.recoveries

adopt_verified-SameRequests :
    (r : Recovery) (a : Attempt) (at : ℕ) (v : Option (String × String)) (t : Store)
    → Ensures (SameRequests t) (adopt_verified r a at v t)
unfolding adopt_verified adopt_turn
adopt_verified-SameRequests r a at none t = refused (SameRequests t) recovery_conflict
adopt_verified-SameRequests r a at (some (thread, turn)) t =
    Ensures->> (SameRequests t) (ensure (is_verified r a (some (thread, turn))) recovery_conflict) _
      (Ensures->>= (SameRequests t)
        (claim_thread a.connection_id a.conversation_id a.agent_id (some thread) t.owners) _
        (λ owners _. ensures (SameRequests t) refl))

apply_recovery-SameRequests :
    (r : Recovery) (v : RecoveryVerdict) (at : ℕ) (found : RecoveryTarget) (t : Store)
    → Ensures (SameRequests t) (apply_recovery r v at found t)
unfolding apply_recovery
apply_recovery-SameRequests r v at (to_guidance s) t =
    Ensures->> (SameRequests t) _ _ (ensures (SameRequests t) refl)
apply_recovery-SameRequests r v at (to_attempt a) t = elim (Bool-cases (r.action == "adopt_turn")) [
  | inl adopt ↦ rw adopt (adopt_verified-SameRequests r a at v.verified t)
  | inr abandon ↦ rw abandon (ensures (SameRequests t) refl)
]

module _ (connection : String) where
  apply_verdict-SameRequests :
      (v : RecoveryVerdict) (at : ℕ) (r : Recovery) (t : Store)
      → Ensures (SameRequests t) (apply_verdict connection v at r t)
  unfolding apply_verdict
  apply_verdict-SameRequests v at r t = elim (Bool-cases (v.outcome == "applied")) [
    | inl applied ↦ rw applied (
        Ensures->>= (SameRequests t) (target connection r.run_id r.expected_generation r.action t) _
          (λ found _. apply_recovery-SameRequests r v at found t))
    | inr other ↦ rw other (ensures (SameRequests t) refl)
  ]

  -- The recovery is closed by the verdict, under the token.
  abbrev IsClosed : String → String → String → String → Store → Type 0
  IsClosed id token status hash t =
      (r : Recovery) × (find? (is_recovery connection id) t.recoveries ≡ some r)
      × (is_text r.lease_token token ≡ true)
      × (one_of ("applied" ∷ "rejected" ∷ []) r.status ≡ true)
      × (is_text r.result_hash hash ≡ true)
      × (r.status ≡ status)

  abbrev Closes : String → String → String → String × Store → Type 0
  Closes id token hash (status, t) = IsClosed id token status hash t

  finish_leased-Closes :
      (id token : String) (v : RecoveryVerdict) (hash : String) (at : ℕ) (r : Recovery) (t : Store)
      → find? (is_recovery connection id) t.recoveries ≡ some r
      → is_text r.lease_token token ≡ true
      → one_of ("applied" ∷ "rejected" ∷ []) v.outcome ≡ true
      → Ensures (Closes id token hash) (finish_leased connection v hash at r t)
  unfolding finish_leased
  finish_leased-Closes id token v hash at r t found mine valid =
      let P = Closes id token hash in
      elim (Bool-cases (one_of ("applied" ∷ "rejected" ∷ []) r.status)) [
        | inl over ↦ rw over (elim (Bool-cases (is_text r.result_hash hash)) [
          | inl same ↦ rw same (ensures P {a = (r.status, t)} (r, found, mine, over, same, refl))
          | inr other ↦ rw other (refused P recovery_conflict)
        ])
        | inr open_yet ↦ rw open_yet (
            Ensures->>= P
              (ensure (r.status == "running" && later_than r.lease_expires_at at) stale_lease
                >> apply_verdict connection v at r t)
              _
              (λ u e.
                let (_, _, applied) =
                  >>=-eq-ok
                    (ensure (r.status == "running" && later_than r.lease_expires_at at) stale_lease)
                    _ e in
                let rows : u.recoveries ≡ t.recoveries =
                  Ensures-ok (SameRequests t) (apply_verdict-SameRequests v at r t) applied in
                let p = λ (x : Recovery). x.id == r.id in
                let f = close connection v hash at in
                let changed : edited p f r ≡ f r = rw (eq_refl r.id) refl in
                ensures P {a = (v.outcome, record u { recoveries = update p f u.recoveries })} (
                  f r,
                  find?-update-mapped p (is_recovery connection id) f (λ x. refl) u.recoveries
                      ∙ ap (λ x. mapped (edited p f) (find? (is_recovery connection id) x)) rows
                      ∙ ap (mapped (edited p f)) found
                      ∙ ap some changed,
                  mine,
                  valid,
                  eq_refl hash,
                  refl,
                )))
      ]

  finish_found-Closes :
      (id token : String) (v : RecoveryVerdict) (hash : String) (at : ℕ) (found : Option Recovery)
      (t : Store)
      → find? (is_recovery connection id) t.recoveries ≡ found
      → one_of ("applied" ∷ "rejected" ∷ []) v.outcome ≡ true
      → Ensures (Closes id token hash) (finish_found connection token v hash at found t)
  unfolding finish_found
  finish_found-Closes id token v hash at none t e valid =
      refused (Closes id token hash) recovery_not_found
  finish_found-Closes id token v hash at (some r) t e valid =
      elim (Bool-cases (is_text r.lease_token token)) [
        | inl mine ↦ rw mine (finish_leased-Closes id token v hash at r t e mine valid)
        | inr other ↦ rw other (refused (Closes id token hash) stale_lease)
      ]

  closed_again :
      (id token status hash : String) (v : RecoveryVerdict) (at : ℕ) (t : Store)
      → IsClosed id token status hash t
      → finish_found connection token v hash at (find? (is_recovery connection id) t.recoveries) t
        ≡ ok (status, t)
  unfolding finish_found finish_leased
  closed_again id token status hash v at t (r, found, mine, over, same, is_status) =
      rw (found, mine, over, same) (ap (λ s. ok (s, t)) is_status)

recovery_field-value :
    (value : String) (limit : ℕ) {v : String} → recovery_field value limit ≡ ok v → v ≡ value
unfolding recovery_field
recovery_field-value value limit e =
    elim (Bool-cases (value == "" || ltb limit (js_length value))) [
      | inl bad ↦ cc (rw bad at e)
      | inr good ↦ sym (ok-injective (rw good at e))
    ]

ensured : {b : Bool} (code : StoreError) {u : Unit {0}} → ensure b code ≡ ok u → b ≡ true
ensured {b = true} code e = refl
ensured {b = false} code e = cc

-- Once finishRecovery has answered, the same call, at whatever later time and whether or not its lease
-- has expired, is answered alike and changes nothing: the verdict is applied once.
pub finish_recovery-again :
    (digest : Json → String) (connection : String) (input : LeaseInput) (v : RecoveryVerdict)
    (at later : ℕ) (t t' : Store) (status : String)
    → finish_recovery connection digest input v at t ≡ ok (status, t')
    → finish_recovery connection digest input v later t' ≡ ok (status, t')
unfolding finish_recovery
finish_recovery-again digest connection input v at later t t' status e =
    let hash = digest (verdict_payload v) in
    let (id, is_id, e₁) = >>=-eq-ok (recovery_field input.id 36) _ e in
    let (token, is_token, e₂) = >>=-eq-ok (recovery_field input.lease_token 36) _ e₁ in
    let (_, valid, e₃) =
      >>=-eq-ok (ensure (one_of ("applied" ∷ "rejected" ∷ []) v.outcome) invalid_recovery) _ e₂ in
    let (_, code, e₄) = >>=-eq-ok (check_error v.error_code) _ e₃ in
    let (_, native, e₅) = >>=-eq-ok (check_verified v.verified) _ e₄ in
    let closed =
      Ensures-ok (Closes connection id token hash)
        (finish_found-Closes connection id token v hash at _ t refl
          (ensured invalid_recovery valid))
        e₅ in
    rw (is_id, is_token, valid, code, native)
      (closed_again connection id token status hash v later t' closed)
