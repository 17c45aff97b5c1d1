-- ===== src/Prelude/Results.antt =====
-- The errors of storage/errors.mjs as values: an operation ends in a result or in a StoreError.
use mathlib.Core.Path.{◌≡◌, refl}
use mathlib.Core.Bool.{Bool, true, false}
use agent_chat_bridge.Prelude.Tests.{if◌then◌else◌}

pub data StoreError : Type 0 where
  invalid_store_input forward_lease_lost job_conflict stop_conflict store_unavailable : StoreError
  invalid_rotation rotation_conflict session_conflict session_busy : StoreError
  invalid_store_limit invalid_job_kind invalid_outbox_kind invalid_artifact_effect : StoreError
  invalid_outbox_predecessor resource_retired outbox_conflict stale_lease : StoreError
  thread_scope_conflict invalid_lease invalid_outbox_status steer_recovery_required : StoreError
  thread_conflict turn_conflict cleanup_conflict session_busy_or_conflict : StoreError
  cursor_conflict invalid_steer steer_conflict invalid_recovery recovery_conflict : StoreError
  recovery_not_found rejected_thread_conflict invalid_retirement retirement_conflict : StoreError
  invalid_inbound_source conversation_type_conflict inbound_conflict : StoreError
  native_event_conflict run_event_conflict : StoreError

pub data Result {ℓ} (Value : Type ℓ) : Type ℓ where
  err : StoreError → Result Value
  ok : Value → Result Value

-- `if (!condition) throw new StoreError(code)`
abbrev pub ensure : Bool → StoreError → Result (Unit {0})
ensure false code = err code
ensure true code = ok tt

infixl 5 ◌>>=◌
abbrev pub ◌>>=◌ {ℓ κ} :
    {Value : Type ℓ} {Next : Type κ} → Result Value → (Value → Result Next) → Result Next
err code >>= rest = err code
ok value >>= rest = rest value

-- A call that ended in a result passed each of its steps.
pub >>=-eq-ok {ℓ κ} :
    {Value : Type ℓ} {Next : Type κ} (m : Result Value) (rest : Value → Result Next) {next : Next}
    → (m >>= rest) ≡ ok next
    → (value : Value) × (m ≡ ok value) × (rest value ≡ ok next)
>>=-eq-ok (err code) rest passed = cc
>>=-eq-ok (ok value) rest passed = (value, refl, passed)

infixl 5 ◌>>◌
abbrev pub ◌>>◌ {ℓ} : {Next : Type ℓ} → Result (Unit {0}) → Result Next → Result Next
check >> rest = check >>= λ _. rest

pub ok-injective {ℓ} : {A : Type ℓ} {a b : A} → ok a ≡ ok b → a ≡ b
ok-injective h = cc

-- What a call that ends in a result ensures of it.
pub Ensures {ℓ κ} : {A : Type ℓ} → (A → Type κ) → Result A → Type κ
Ensures P (ok a) = P a
Ensures P (err e) = Unit

pub ensures {ℓ κ} : {A : Type ℓ} (P : A → Type κ) {a : A} → P a → Ensures P (ok a)
unfolding Ensures
ensures P h = h

pub refused {ℓ κ} : {A : Type ℓ} (P : A → Type κ) (e : StoreError) → Ensures P (err e)
unfolding Ensures
refused P e = tt

pub Ensures-ok {ℓ κ} :
    {A : Type ℓ} (P : A → Type κ) {m : Result A} {a : A} → Ensures P m → m ≡ ok a → P a
unfolding Ensures
Ensures-ok P h e = rw e at h

pub Ensures->>= {ℓ κ} :
    {A : Type ℓ} {B : Type ℓ} (P : B → Type κ) (m : Result A) (f : A → Result B)
    → ((a : A) → m ≡ ok a → Ensures P (f a))
    → Ensures P (m >>= f)
unfolding Ensures
Ensures->>= P (ok a) f h = h a refl
Ensures->>= P (err e) f h = tt

-- Both branches of a conditional.
pub either_branch {ℓ κ} :
    {A : Type ℓ} (P : A → Type κ) (b : Bool) (x y : A)
    → (b ≡ true → P x)
    → (b ≡ false → P y)
    → P (if b then x else y)
either_branch P true x y h k = h refl
either_branch P false x y h k = k refl

-- A check refuses, or lets through.
pub Ensures->> {ℓ κ} :
    {A : Type ℓ} (P : A → Type κ) (check : Result (Unit {0})) (m : Result A)
    → Ensures P m
    → Ensures P (check >> m)
unfolding Ensures
Ensures->> P (ok u) m h = h
Ensures->> P (err e) m h = tt

pub Ensures-mono {ℓ κ} :
    {A : Type ℓ} (P Q : A → Type κ) (m : Result A)
    → ((a : A) → P a → Q a)
    → Ensures P m
    → Ensures Q m
unfolding Ensures
Ensures-mono P Q (ok a) f h = f a h
Ensures-mono P Q (err e) f h = tt
