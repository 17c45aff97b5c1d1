-- ===== src/Storage/Runs/Settlement/Laws.antt =====
-- When a settlement counts a job as succeeded.
use agent_chat_bridge.Prelude.{
  ℕ, String, true, false, not, ◌&&◌, Option, none, some, List, In, any, update, ok, ensure, ensures,
  Ensures->>=, Ensures->>, Ensures-ok, ◌≡◌, refl, sym, ap, subst, ◌∙◌, ◌⊎◌, inl, inr, arith,
  Bool-cases, ◌==◌, eq_iff, In-update, one_of, [], ◌∷◌, invalid_outbox_status,
}
use mathlib.Core.Bool.{false≢true}
use agent_chat_bridge.Storage.Runs.{RunJob, Effect, Store}
use agent_chat_bridge.Storage.Runs.Leases.{LeaseInput, owned_effect}
use agent_chat_bridge.Storage.Runs.Outbox.{is_given}
use agent_chat_bridge.Storage.Runs.Settlement.{
  Settlement, is_effect_id, settled, is_unsent, with_status, awaits_reply, settle_job,
  settle_outbox,
}

-- The job was succeeded before, or all its effects are sent.
abbrev pub IsEarned : List RunJob → List Effect → RunJob → Type 0
IsEarned jobs outbox j =
    ((k : RunJob) × In k jobs × (k.id ≡ j.id) × ((k.status == "succeeded") ≡ true))
    ⊎ (any (is_unsent j.id) outbox ≡ false)

settle_job-IsEarned :
    (job : Option String) (status : String) (at : ℕ) (outbox : List Effect) (jobs : List RunJob)
    (j : RunJob)
    → In j (settle_job job status at outbox jobs)
    → (j.status == "succeeded") ≡ true
    → IsEarned jobs outbox j
unfolding settle_job
settle_job-IsEarned none status at outbox jobs j i done = inl (j, i, refl, done)
settle_job-IsEarned (some job) status at outbox jobs j i done =
    elim (Bool-cases (not (is_given (some job)))) [
      | inl unnamed ↦ inl (j, rw unnamed at i, refl, done)
      | inr named ↦ elim (Bool-cases (status == "sent")) [
        | inl sent ↦
            let (k, at_k, how) =
              In-update (λ x. awaits_reply job x && not (any (is_unsent job) outbox))
                (with_status "succeeded" at) j jobs (rw (named, sent) at i) in
            elim how [
              | inl (met, e) ↦
                  let name : k.id ≡ job = (eq_iff k.id job).0 (ground (arith, met)) in
                  let all_sent : any (is_unsent job) outbox ≡ false = ground (arith, met) in
                  inr (
                    subst (λ x. any (is_unsent x) outbox ≡ false)
                      (sym (ap (λ (x : RunJob). x.id) e ∙ name)) all_sent)
              | inr (missed, e) ↦ inl (
                k,
                at_k,
                sym (ap (λ (x : RunJob). x.id) e),
                sym (ap (λ (x : RunJob). x.status == "succeeded") e) ∙ done,
              )
            ]
        | inr unsent ↦ elim (Bool-cases (status == "failed")) [
          | inl failed ↦
              let (k, at_k, how) =
                In-update (awaits_reply job) (with_status "delivery_failed" at) j jobs
                  (rw (named, unsent, failed) at i) in
              elim how [
                | inl (met, e) ↦
                    absurd
                      (false≢true (sym (ap (λ (x : RunJob). x.status == "succeeded") e) ∙ done))
                | inr (missed, e) ↦ inl (
                  k,
                  at_k,
                  sym (ap (λ (x : RunJob). x.id) e),
                  sym (ap (λ (x : RunJob). x.status == "succeeded") e) ∙ done,
                )
              ]
          | inr other ↦ inl (j, rw (named, unsent, other) at i, refl, done)
        ]
      ]
    ]

-- After a settlement every job that counts as succeeded did so before, or has no effect that is not
-- sent.
pub settle_outbox-IsEarned :
    (connection : String) (input : LeaseInput) (settlement : Settlement) (at : ℕ) (t t' : Store)
    (j : RunJob)
    → settle_outbox connection input settlement at t ≡ ok t'
    → In j t'.jobs
    → (j.status == "succeeded") ≡ true
    → IsEarned t.jobs t'.outbox j
unfolding settle_outbox
settle_outbox-IsEarned connection input settlement at t t' j e i done =
    Ensures-ok (λ x. In j x.jobs → IsEarned t.jobs x.outbox j)
      (Ensures->>= (λ x. In j x.jobs → IsEarned t.jobs x.outbox j)
        (owned_effect connection input at t.outbox) _
        (λ effect _.
          Ensures->> (λ x. In j x.jobs → IsEarned t.jobs x.outbox j)
            (ensure (one_of ("sent" ∷ "unknown" ∷ "failed" ∷ "pending" ∷ []) settlement.status)
              invalid_outbox_status)
            _
            (ensures (λ x. In j x.jobs → IsEarned t.jobs x.outbox j)
              (λ k.
                settle_job-IsEarned effect.job_id settlement.status at
                  (update (is_effect_id input.id) (settled settlement at) t.outbox) t.jobs j k
                  done))))
      e i
