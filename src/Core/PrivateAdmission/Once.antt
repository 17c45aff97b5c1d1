-- ===== src/Core/PrivateAdmission/Once.antt =====
-- One reply for one refusal, and one lookup in a minute.
use agent_chat_bridge.Prelude.{
  ℕ, ◌+◌, ◌<◌, String, Bool, true, false, List, [], ◌∷◌, ◌||◌, ◌==◌, any, ltb, or_else, ◌≡◌, refl,
  arith, subst, inl, inr, Bool-cases,
}
use agent_chat_bridge.Core.PrivateAdmission.{
  Decision, Settings, Entry, State, mark_replied, owes_reply, reply_for, should_lookup_union,
  union_retry_ms, lookup_limit,
}
use agent_chat_bridge.Core.PrivateAdmission.Memory.{
  find_key, remember, remember_all, remember_survives,
}

owes_reply-mark_replied :
    (decision : Decision) (at : ℕ) (k : String) (m : List (String × Entry))
    → owes_reply decision at (find_key k (mark_replied k m)) ≡ false
unfolding find_key mark_replied
owes_reply-mark_replied decision at k [] = refl
owes_reply-mark_replied decision at k ((j, e) ∷ m) = elim (Bool-cases (j == k)) [
  | inl same ↦ rw same (rw same (ground arith))
  | inr other ↦ rw other (rw other (owes_reply-mark_replied decision at k m))
]

-- In the state that an answered refusal left, no reply is given again for that sender, for whatever
-- decision and at whatever time.
pub reply_for_once :
    (settings : Settings) (at at' : ℕ) (open_id : String) (decision decision' : Decision)
    (s : State)
    → owes_reply decision at (find_key open_id s.decisions) ≡ true
    → (let s' = (reply_for settings at open_id decision s).1 in
        reply_for settings at' open_id decision' s' ≡ ("", s'))
unfolding reply_for
reply_for_once settings at at' open_id decision decision' s owed =
    rw (owed, owes_reply-mark_replied decision' at' open_id s.decisions) refl

lookup-waits :
    (at at' : ℕ) (open_id : String) (s : State)
    → at' < at + union_retry_ms
    → (let s' : State = record s {
      lookups = remember lookup_limit open_id (at + union_retry_ms) s.lookups;
    } in
        should_lookup_union at' open_id s' ≡ (false, s'))
unfolding should_lookup_union remember_all
lookup-waits at at' open_id s h =
    let there =
      remember_survives lookup_limit open_id (at + union_retry_ms) [] s.lookups (ground arith) tt in
    let waits : ltb at' (at + union_retry_ms) ≡ true = ground arith in rw there (ground arith)

second-equal : {a b : Bool} {s t : State} → ◌≡◌ {A = Bool × State} (a, s) (b, t) → s ≡ t
second-equal e = cc

-- In the state that an allowed lookup of a sender's union id left, no other is allowed for a minute.
pub should_lookup_union_once :
    (at at' : ℕ) (open_id : String) (s s' : State)
    → should_lookup_union at open_id s ≡ (true, s')
    → at' < at + union_retry_ms
    → should_lookup_union at' open_id s' ≡ (false, s')
unfolding should_lookup_union
should_lookup_union_once at at' open_id s s' e h =
    elim (Bool-cases (
      open_id == ""
      || any (λ u. u.0 == open_id) s.unions
      || ltb at (or_else (find_key open_id s.lookups) 0))) [
        | inl not_now ↦ cc (rw not_now at e)
        | inr now ↦
            subst (λ x. should_lookup_union at' open_id x ≡ (false, x)) (second-equal (rw now at e))
              (lookup-waits at at' open_id s h)
      ]
