-- ===== src/Core/Steering/Laws.antt =====
-- A guidance is sent into a turn once.
use agent_chat_bridge.Prelude.{
  ℕ, String, Bool, true, false, none, Result, err, ok, Ensures, Ensures-ok, Ensures-mono, ensures,
  Ensures->>=, >>=-eq-ok, ◌≡◌, refl, inl, inr, Bool-cases,
}
use agent_chat_bridge.Json.{Json}
use agent_chat_bridge.Storage.Runs.{Steer, Store}
use agent_chat_bridge.Storage.Runs.Leases.{LeaseInput}
use agent_chat_bridge.Storage.Runs.Steering.{
  SteerKind, inactive, recovery_required, admitted, begin_steer_attempt,
}
use agent_chat_bridge.Storage.Runs.Steering.Laws.{
  IsWithheld, IsAnswered, IsAnswered-IsWithheld, begin_steer_attempt-once,
}
use agent_chat_bridge.Core.Steering.{
  SteerReply, get_steer_attempt, is_open, begin_steer, after_begin, steer,
}

abbrev Withholds : SteerKind × Store → Type 0
Withholds r = IsWithheld r.0

-- Nothing is sent without an admission.
after_begin-silent :
    (digest : Json → String) (connection : String) (input : LeaseInput) (text : String)
    (reply : SteerReply) (lost : Bool) (at : ℕ) (t : Store) (begun : Result (SteerKind × Store))
    → Ensures Withholds begun
    → (after_begin digest connection input text reply lost at t begun).sent ≡ none
unfolding after_begin
after_begin-silent digest connection input text reply lost at t (err e) held = refl
after_begin-silent digest connection input text reply lost at t (ok (inactive, t')) held = refl
after_begin-silent digest connection input text reply lost at t (ok (recovery_required s, t'))
      held =
    refl
after_begin-silent digest connection input text reply lost at t (ok (admitted s, t')) held =
    absurd (Ensures-ok Withholds held refl)

-- An admission of a handler, enabled or not, is one of the store.
begin_steer-admits :
    (connection : String) (enabled : Bool) (input : LeaseInput) (at : ℕ) (t t' : Store) (s : Steer)
    → begin_steer connection enabled input at t ≡ ok (admitted s, t')
    → begin_steer_attempt connection input "codex" at t ≡ ok (admitted s, t')
unfolding begin_steer
begin_steer-admits connection true input at t t' s e = e
begin_steer-admits connection false input at t t' s e =
    let (previous, _, rest) = >>=-eq-ok (get_steer_attempt connection input.id t) _ e in
    elim (Bool-cases (is_open previous)) [
      | inl left_open ↦ rw left_open at rest
      | inr closed ↦ cc (rw closed at rest)
    ]

begin_steer-Withholds :
    (connection : String) (enabled : Bool) (input : LeaseInput) (at : ℕ) (t : Store)
    → Ensures Withholds (begin_steer_attempt connection input "codex" at t)
    → Ensures Withholds (begin_steer connection enabled input at t)
unfolding begin_steer
begin_steer-Withholds connection true input at t held = held
begin_steer-Withholds connection false input at t held =
    Ensures->>= Withholds (get_steer_attempt connection input.id t) _ (λ previous _.
      elim (Bool-cases (is_open previous)) [
        | inl left_open ↦ rw left_open held
        | inr closed ↦ rw closed (ensures Withholds {a = (inactive, t)} tt)
      ])

-- Once a handler is admitted to send a guidance, no handler that runs for the same job on the tables
-- of that admission, as after an end of the process, sends a text into a turn, whether it is enabled
-- or not and whatever its lease and the times are.
pub steer-once :
    (digest : Json → String) (connection : String) (enabled enabled' : Bool)
    (input again : LeaseInput) (at at' later : ℕ) (t t' : Store) (s : Steer) (text : String)
    (reply : SteerReply) (lost : Bool)
    → begin_steer connection enabled input at t ≡ ok (admitted s, t')
    → again.id ≡ input.id
    → (steer digest connection enabled' again text reply lost at' later t').sent ≡ none
unfolding steer
steer-once digest connection enabled enabled' input again at at' later t t' s text reply lost e
      same =
    after_begin-silent digest connection again text reply lost later t' _ (
      begin_steer-Withholds connection enabled' again at' t' (
        Ensures-mono (IsAnswered again.id s t') Withholds _ (IsAnswered-IsWithheld again.id s t') (
          begin_steer_attempt-once connection input again "codex" "codex" at at' t t' s
            (begin_steer-admits connection enabled input at t t' s e) same)))
