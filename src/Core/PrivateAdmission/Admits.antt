-- ===== src/Core/PrivateAdmission/Admits.antt =====
-- A check that lets a sender pass has an answer of the endpoint behind it.
use agent_chat_bridge.Prelude.{
  ℕ, ◌+◌, ◌≤◌, ◌<◌, String, Bool, true, false, not, ◌&&◌, Option, none, some, List, ◌==◌, In, ◌≡◌,
  ◌⊎◌, inl, inr, refl, ap, ◌∙◌, arith, Bool-cases, if◌then◌else◌, Option-cases, any, ltb, nat_eq,
  leb,
}
use agent_chat_bridge.Json.{Json, Fields, null, bool, num, str, arr, obj, get}
use agent_chat_bridge.Storage.ForwardJobs.{js_length}
use agent_chat_bridge.Core.PrivateAdmission.Memory.{find_key, find_key-All}
use agent_chat_bridge.Core.PrivateAdmission.{
  allow, Verdict, Settings, Entry, State, Reply, responded, failed, classify, outcome_of,
  CheckInput, Started, answered, learn, usable, known_union, begin_request, cached_or_request,
  check_known, begin_check, judge, judge_allowed, is_call,
}
use agent_chat_bridge.Core.PrivateAdmission.History.{Event, Reach}
use agent_chat_bridge.Core.PrivateAdmission.Laws.{
  IsBacked, IsBounded, learn-IsBounded, Reach-IsBounded,
}

either_start :
    (b : Bool) (x y : Started × State) (a : Started)
    → (if b then x else y).0 ≡ a
    → (x.0 ≡ a) ⊎ (y.0 ≡ a)
either_start true x y a e = inl e
either_start false x y a e = inr e

module _ (parse : String → Option Json) (settings : Settings) where
  usable-cases :
      (at : ℕ) (union : String) (found : Option Entry) {v : Verdict}
      → usable at union found ≡ some v
      → (e : Entry) × (found ≡ some e) × (e.verdict ≡ v) × (at < e.expires_at)
  usable-cases at union none h = cc
  usable-cases at union (some e) h =
      let fresh : ltb at e.expires_at && not (e.union_id == "" && not (union == "")) ≡ true =
        ground arith in
      (e, refl, ground arith, ground arith)

  judge_allowed-allow :
      (a r : Option Json) → (judge_allowed a r).decision ≡ allow → a ≡ some (bool true)
  judge_allowed-allow none r h = cc
  judge_allowed-allow (some null) r h = cc
  judge_allowed-allow (some (bool true)) r h = refl
  judge_allowed-allow (some (bool false)) r h = cc
  judge_allowed-allow (some (num n)) r h = cc
  judge_allowed-allow (some (str t)) r h = cc
  judge_allowed-allow (some (arr xs)) r h = cc
  judge_allowed-allow (some (obj m)) r h = cc

  judge-allow :
      (o : Option Json)
      → (judge o).decision ≡ allow
      → (m : Fields) × (o ≡ some (obj m)) × (get "allowed" m ≡ some (bool true))
  judge-allow none h = cc
  judge-allow (some null) h = cc
  judge-allow (some (bool b)) h = cc
  judge-allow (some (num n)) h = cc
  judge-allow (some (str t)) h = cc
  judge-allow (some (arr xs)) h = cc
  judge-allow (some (obj m)) h = (m, refl, judge_allowed-allow (get "allowed" m) (get "reason" m) h)

  -- A reply that admits is an answer with status 200 and a text of at most 4096 code units that is
  -- a JSON object whose member `allowed` is true.
  pub classify_allow :
      (reply : Reply)
      → (classify parse reply).decision ≡ allow
      → (text : String) × (reply ≡ responded 200 text)
        × (js_length text ≤ 4096)
        × ((m : Fields) × (parse text ≡ some (obj m)) × (get "allowed" m ≡ some (bool true)))
  unfolding classify
  classify_allow (failed name) h = cc
  classify_allow (responded status text) h = elim (Bool-cases (nat_eq status 200)) [
    | inl good ↦ elim (Bool-cases (leb (js_length text) 4096)) [
      | inl short ↦
          let (m, parsed, allowed) = judge-allow (parse text) (rw (good, short) at h) in
          (text, ap (λ n. responded n text) (ground arith), ground arith, (m, parsed, allowed))
      | inr long ↦ cc (rw (good, long) at h)
    ]
    | inr bad ↦ cc (rw bad at h)
  ]

  begin_request-waits :
      (at : ℕ) (input : CheckInput) (union : String) (s : State) (v : Verdict) (cached : Bool)
      → ¬ ((begin_request settings at input union s).0 ≡ answered v cached)
  unfolding begin_request
  begin_request-waits at input union s v cached e =
      elim (Bool-cases (any (is_call input.open_id union) s.in_flight)) [
        | inl pending ↦ cc (rw pending at e)
        | inr none_pending ↦ cc (rw none_pending at e)
      ]

  -- What stands behind an entry that admits.
  backed_allow :
      (at : ℕ) (h : List Event) (k : String) (e : Entry)
      → IsBacked parse settings h (k, e)
      → e.verdict.decision ≡ allow
      → at < e.expires_at
      → (v : Event) × In v h
        × (v.call.open_id ≡ k)
        × (at < v.time + settings.allow_cache_ms)
        × (0 < v.call.timeout_ms)
        × ((text : String) × (v.reply ≡ responded 200 text)
            × ((m : Fields) × (parse text ≡ some (obj m)) × (get "allowed" m ≡ some (bool true))))
  unfolding outcome_of
  backed_allow at h k e (inl other) admits fresh = cc (rw admits at other)
  backed_allow at h k e (inr (v, listed, same, outcome, until)) admits fresh =
      let allowed = ap (λ (o : Verdict). o.decision) outcome ∙ admits in
      elim (Bool-cases (ltb v.call.timeout_ms 1)) [
        | inl late ↦ cc (rw late at allowed)
        | inr timely ↦
            let (text, answer, _, parsed) = classify_allow v.reply (rw timely at allowed) in
            (v, listed, same, rw until at fresh, ground arith, (text, answer, parsed))
      ]

  check_known-admits :
      (at : ℕ) (input : CheckInput) (s : State) (h : List Event) (v : Verdict) (cached : Bool)
      → IsBounded parse settings s h
      → (check_known settings at input s).0 ≡ answered v cached
      → v.decision ≡ allow
      → (e : Event) × In e h
        × (e.call.open_id ≡ input.open_id)
        × (at < e.time + settings.allow_cache_ms)
        × (0 < e.call.timeout_ms)
        × ((text : String) × (e.reply ≡ responded 200 text)
            × ((m : Fields) × (parse text ≡ some (obj m)) × (get "allowed" m ≡ some (bool true))))
  unfolding check_known cached_or_request
  check_known-admits at input s h v cached i e admits =
      elim (Option-cases (usable at (known_union input s) (find_key input.open_id s.decisions))) [
        | inl nothing ↦
            absurd (begin_request-waits at input (known_union input s) s v cached (rw nothing at e))
        | inr (w, found) ↦
            let (entry, there, same, fresh) = usable-cases at (known_union input s) _ found in
            let one : w ≡ v = cc (rw found at e) in
            backed_allow at h input.open_id entry
              (find_key-All (IsBacked parse settings h) input.open_id s.decisions there i.backed)
              (ap (λ (o : Verdict). o.decision) (same ∙ one) ∙ admits) fresh
      ]

  -- In every state that a process reaches, a check answers from its cache that a sender may pass only while an admission lasts: a request
  -- for that sender was made in time, the endpoint answered it with status 200 and a JSON object
  -- whose member `allowed` is true, and less time than an admission is kept has passed since.
  pub check_admits :
      (at : ℕ) (input : CheckInput) (s : State) (h : List Event) (v : Verdict) (cached : Bool)
      → Reach parse settings s h
      → (begin_check settings at input s).0 ≡ answered v cached
      → v.decision ≡ allow
      → (e : Event) × In e h
        × (e.call.open_id ≡ input.open_id)
        × (at < e.time + settings.allow_cache_ms)
        × (0 < e.call.timeout_ms)
        × ((text : String) × (e.reply ≡ responded 200 text)
            × ((m : Fields) × (parse text ≡ some (obj m)) × (get "allowed" m ≡ some (bool true))))
  unfolding begin_check
  check_admits at input s h v cached r e admits =
      elim (either_start (input.open_id == "") _ _ (answered v cached) e) [
        | inl missing ↦ cc
        | inr known ↦
            check_known-admits at input (learn input.open_id input.union_id s) h v cached
              (learn-IsBounded parse settings input.open_id input.union_id s h
                (Reach-IsBounded parse settings s h r))
              known admits
      ]
