-- ===== src/Core/PrivateAdmission/Laws.antt =====
-- Admission fails closed, and its memory is bounded.
use agent_chat_bridge.Prelude.{
  ℕ, ◌+◌, ◌≤◌, String, Bool, true, false, not, ◌||◌, Option, List, [], ◌∷◌, ◌==◌, In, All, ◌≡◌, ◌⊎◌,
  inl, inr, refl, length, arith, one_of, either_branch, Bool-cases, Option-cases, any, or_else, ltb,
}
use agent_chat_bridge.Json.{Json}
use agent_chat_bridge.Core.PrivateAdmission.Memory.{find_key, length-remember, remember-All}
use agent_chat_bridge.Core.PrivateAdmission.{
  Decision, allow, deny, Verdict, same_decision, Settings, Entry, Call, State, decision_limit,
  union_limit, message_limit, lookup_limit, transient_reasons, Reply, outcome_of, CheckInput,
  Started, learn, usable, known_union, begin_request, cached_or_request, check_known, begin_check,
  new_entry, finish_check, mark_replied, reply_for, refuse_message, should_lookup_union, is_call,
  owes_reply,
}
use agent_chat_bridge.Core.PrivateAdmission.History.{
  Event, Reach, starts, learns, begins, finishes, replies, refuses, looks_up,
}

-- A verdict that denies, for a reason that is not transient.
abbrev pub IsRefusal : Verdict → Type 0
IsRefusal v = (same_decision v.decision deny ≡ true) × (one_of transient_reasons v.reason ≡ false)

module _ (parse : String → Option Json) (settings : Settings) where
  -- An entry that admits has behind it a request for that sender whose outcome it is, from whose end
  -- the entry lasts for the time set.
  abbrev pub IsBacked : List Event → String × Entry → Type 0
  IsBacked h (k, e) =
      (same_decision e.verdict.decision allow ≡ false)
      ⊎ ((v : Event) × In v h
          × (v.call.open_id ≡ k)
          × (outcome_of parse v.call v.reply ≡ e.verdict)
          × (e.expires_at ≡ v.time + settings.allow_cache_ms))

  pub record IsBounded (s : State) (h : List Event) : Type 0 where
    pub few_decisions : length s.decisions ≤ decision_limit
    pub few_unions : length s.unions ≤ union_limit
    pub few_messages : length s.messages ≤ message_limit
    pub few_lookups : length s.lookups ≤ lookup_limit
    pub refusals : All (λ m. IsRefusal m.1) s.messages
    pub backed : All (IsBacked h) s.decisions

  pub learn-IsBounded :
      (open_id union_id : String) (s : State) (h : List Event)
      → IsBounded s h
      → IsBounded (learn open_id union_id s) h
  unfolding learn
  learn-IsBounded open_id union_id s h i =
      either_branch (λ s'. IsBounded s' h) (open_id == "" || union_id == "") _ _ (λ _. i)
        (λ _. record {
          few_decisions = i.few_decisions;
          few_unions = length-remember union_limit open_id union_id s.unions;
          few_messages = i.few_messages;
          few_lookups = i.few_lookups;
          refusals = i.refusals;
          backed = i.backed;
        })

  in_flight-IsBounded :
      (calls : List Call) (s : State) (h : List Event)
      → IsBounded s h
      → IsBounded (record s { in_flight = calls }) h
  in_flight-IsBounded calls s h i = record {
    few_decisions = i.few_decisions;
    few_unions = i.few_unions;
    few_messages = i.few_messages;
    few_lookups = i.few_lookups;
    refusals = i.refusals;
    backed = i.backed;
  }

  begin_request-IsBounded :
      (at : ℕ) (input : CheckInput) (union : String) (s : State) (h : List Event)
      → IsBounded s h
      → IsBounded (begin_request settings at input union s).1 h
  unfolding begin_request
  begin_request-IsBounded at input union s h i =
      either_branch (λ (p : Started × State). IsBounded p.1 h)
        (any (is_call input.open_id union) s.in_flight) _ _ (λ _. i)
        (λ _. in_flight-IsBounded _ s h i)

  check_known-IsBounded :
      (at : ℕ) (input : CheckInput) (s : State) (h : List Event)
      → IsBounded s h
      → IsBounded (check_known settings at input s).1 h
  unfolding check_known cached_or_request
  check_known-IsBounded at input s h i =
      elim (Option-cases (usable at (known_union input s) (find_key input.open_id s.decisions))) [
        | inl nothing ↦ rw nothing (begin_request-IsBounded at input (known_union input s) s h i)
        | inr (v, found) ↦ rw found i
      ]

  begin_check-IsBounded :
      (at : ℕ) (input : CheckInput) (s : State) (h : List Event)
      → IsBounded s h
      → IsBounded (begin_check settings at input s).1 h
  unfolding begin_check
  begin_check-IsBounded at input s h i =
      either_branch (λ (p : Started × State). IsBounded p.1 h) (input.open_id == "") _ _ (λ _. i)
        (λ _.
          check_known-IsBounded at input (learn input.open_id input.union_id s) h
            (learn-IsBounded input.open_id input.union_id s h i))

  IsBacked-later :
      (v : Event) (h : List Event) (m : List (String × Entry))
      → All (IsBacked h) m
      → All (IsBacked (v ∷ h)) m
  IsBacked-later v h [] b = tt
  IsBacked-later v h (e ∷ m) (inl other, b) = (inl other, IsBacked-later v h m b)
  IsBacked-later v h (e ∷ m) (inr (w, at, same, how, until), b) =
      (inr (w, inr at, same, how, until), IsBacked-later v h m b)

  new_entry-IsBacked :
      (at : ℕ) (call : Call) (reply : Reply) (h : List Event)
      → IsBacked
          (record { call = call; reply = reply; time = at } ∷ h)
          (call.open_id, new_entry settings at call.union_id (outcome_of parse call reply))
  new_entry-IsBacked at call reply h =
      elim (Bool-cases (same_decision (outcome_of parse call reply).decision allow)) [
        | inl admits ↦
            inr (
              record { call = call; reply = reply; time = at },
              inl refl,
              refl,
              refl,
              rw admits refl,
            )
        | inr other ↦ inl other
      ]

  finish_check-IsBounded :
      (at : ℕ) (call : Call) (reply : Reply) (s : State) (h : List Event)
      → IsBounded s h
      → IsBounded
          (finish_check settings at call (outcome_of parse call reply) s)
          (record { call = call; reply = reply; time = at } ∷ h)
  unfolding finish_check
  finish_check-IsBounded at call reply s h i =
      let v : Event = record { call = call; reply = reply; time = at } in
      let outcome = outcome_of parse call reply in
      let later = IsBacked-later v h s.decisions i.backed in
      either_branch (λ s'. IsBounded s' (v ∷ h)) (outcome.reason == "deadline") _ _
        (λ _. record {
          few_decisions = i.few_decisions;
          few_unions = i.few_unions;
          few_messages = i.few_messages;
          few_lookups = i.few_lookups;
          refusals = i.refusals;
          backed = later;
        })
        (λ _. record {
          few_decisions =
              length-remember decision_limit call.open_id
                (new_entry settings at call.union_id outcome) s.decisions;
          few_unions = i.few_unions;
          few_messages = i.few_messages;
          few_lookups = i.few_lookups;
          refusals = i.refusals;
          backed =
              remember-All (IsBacked (v ∷ h)) decision_limit call.open_id
                (new_entry settings at call.union_id outcome) s.decisions later
                (new_entry-IsBacked at call reply h);
        })

  mark_replied-All :
      (h : List Event) (k : String) (m : List (String × Entry))
      → All (IsBacked h) m
      → All (IsBacked h) (mark_replied k m) × (length (mark_replied k m) ≡ length m)
  unfolding mark_replied
  mark_replied-All h k [] b = (tt, refl)
  mark_replied-All h k ((j, e) ∷ m) b = elim (Bool-cases (j == k)) [
    | inl same ↦ rw same ((b.0, b.1), refl)
    | inr other ↦
        let (rest, size) = mark_replied-All h k m b.1 in
        rw other ((b.0, rest), ground (arith, size))
  ]

  reply_for-IsBounded :
      (at : ℕ) (open_id : String) (decision : Decision) (s : State) (h : List Event)
      → IsBounded s h
      → IsBounded (reply_for settings at open_id decision s).1 h
  unfolding reply_for
  reply_for-IsBounded at open_id decision s h i =
      let (marked, size) = mark_replied-All h open_id s.decisions i.backed in
      either_branch (λ (p : String × State). IsBounded p.1 h)
        (owes_reply decision at (find_key open_id s.decisions)) _ _
        (λ _. record {
          few_decisions = rw size i.few_decisions;
          few_unions = i.few_unions;
          few_messages = i.few_messages;
          few_lookups = i.few_lookups;
          refusals = i.refusals;
          backed = marked;
        })
        (λ _. i)

  refuse_message-IsBounded :
      (message_id : String) (verdict : Verdict) (s : State) (h : List Event)
      → IsBounded s h
      → IsBounded (refuse_message message_id verdict s) h
  unfolding refuse_message
  refuse_message-IsBounded message_id verdict s h i =
      either_branch (λ s'. IsBounded s' h)
        (not (same_decision verdict.decision deny)
          || one_of transient_reasons verdict.reason
          || message_id == "")
        _ _ (λ _. i)
        (λ clear. record {
          few_decisions = i.few_decisions;
          few_unions = i.few_unions;
          few_messages = length-remember message_limit message_id verdict s.messages;
          few_lookups = i.few_lookups;
          refusals =
              remember-All (λ m. IsRefusal m.1) message_limit message_id verdict s.messages
                i.refusals (ground arith, ground arith);
          backed = i.backed;
        })

  should_lookup_union-IsBounded :
      (at : ℕ) (open_id : String) (s : State) (h : List Event)
      → IsBounded s h
      → IsBounded (should_lookup_union at open_id s).1 h
  unfolding should_lookup_union
  should_lookup_union-IsBounded at open_id s h i =
      either_branch (λ (p : Bool × State). IsBounded p.1 h)
        (open_id == ""
          || any (λ u. u.0 == open_id) s.unions
          || ltb at (or_else (find_key open_id s.lookups) 0))
        _ _ (λ _. i)
        (λ _. record {
          few_decisions = i.few_decisions;
          few_unions = i.few_unions;
          few_messages = i.few_messages;
          few_lookups = length-remember lookup_limit open_id _ s.lookups;
          refusals = i.refusals;
          backed = i.backed;
        })

  -- Whatever checks, replies and refusals a process goes through, in any order, each of its four
  -- maps stays within its limit, the verdict kept for a refused message denies for a reason that is
  -- not transient, and each cached admission is the outcome of a request for that sender, from whose
  -- end it lasts for the time set.
  pub Reach-IsBounded : (s : State) (h : List Event) → Reach parse settings s h → IsBounded s h
  Reach-IsBounded s h starts = record {
    few_decisions = ground arith;
    few_unions = ground arith;
    few_messages = ground arith;
    few_lookups = ground arith;
    refusals = tt;
    backed = tt;
  }
  Reach-IsBounded s h (learns {s = t} open_id union_id r) =
      learn-IsBounded open_id union_id t h (Reach-IsBounded t h r)
  Reach-IsBounded s h (begins {s = t} at input r) =
      begin_check-IsBounded at input t h (Reach-IsBounded t h r)
  Reach-IsBounded s h (finishes {s = t} {h = g} at call reply _ r) =
      finish_check-IsBounded at call reply t g (Reach-IsBounded t g r)
  Reach-IsBounded s h (replies {s = t} at open_id decision r) =
      reply_for-IsBounded at open_id decision t h (Reach-IsBounded t h r)
  Reach-IsBounded s h (refuses {s = t} message_id verdict r) =
      refuse_message-IsBounded message_id verdict t h (Reach-IsBounded t h r)
  Reach-IsBounded s h (looks_up {s = t} at open_id r) =
      should_lookup_union-IsBounded at open_id t h (Reach-IsBounded t h r)
