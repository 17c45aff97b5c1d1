-- ===== src/Storage/Runs/Claims/Laws.antt =====
-- Which effects a claim hands out.
use agent_chat_bridge.Prelude.{
  ℕ, ◌+◌, String, Bool, true, false, not, ◌&&◌, Option, none, some, List, [], ◌∷◌, ◌++◌, map, In,
  find?, any, update, ok, ◌≡◌, refl, sym, ap, subst, ◌∙◌, ◌⊎◌, inl, inr, arith, Bool-cases, ◌==◌,
  eq_iff, In-update, In-filter, In-take, In-sort_by, find?-match, one_of, if◌then◌else◌, >>=-eq-ok,
  ok-injective, any-match, none, some, Option,
}
use mathlib.Core.Bool.{false≢true}
use agent_chat_bridge.Storage.Runs.{Effect, is_effect}
use agent_chat_bridge.Storage.Runs.Claims.{
  predecessor_sent, sent_before, is_due_effect, is_uncertain_effect, is_recent, RunClaim,
  check_claim, pick, pick_row, is_listed, lease_effect, branch, effect_candidates, expire_leases,
  claim_outbox,
}

-- The effect has no predecessor, or its predecessor is sent.
abbrev pub IsUnblocked : List Effect → Effect → Type 0
IsUnblocked outbox e =
    (e.predecessor_id ≡ none)
    ⊎ ((p : Effect) × In p outbox × (e.predecessor_id ≡ some p.id) × (p.status ≡ "sent"))

-- An effect that may be sent now: its predecessor is sent, and it is a new one, or one of a kind that
-- may be sent again and was tried first a short time ago.
abbrev pub IsSendable : ℕ → List Effect → Effect → Type 0
IsSendable at outbox e =
    IsUnblocked outbox e
    × ((e.status ≡ "pending")
        ⊎ ((e.status ≡ "unknown")
            × (is_recent e.first_attempt_at at ≡ true)
            × (one_of ("create" ∷ "reply" ∷ "artifact_send" ∷ []) e.kind ≡ true)))

sent_before-cases :
    (connection : String) (outbox : List Effect) (id : Option String)
    → sent_before connection outbox id ≡ true
    → (id ≡ none) ⊎ ((p : Effect) × In p outbox × (id ≡ some p.id) × (p.status ≡ "sent"))
sent_before-cases connection outbox none h = inl refl
sent_before-cases connection outbox (some id) h =
    let (p, i, met) = any-match (λ x. is_effect connection id x && x.status == "sent") outbox h in
    inr (
      p,
      i,
      ap some (sym ((eq_iff p.id id).0 (ground (arith, met)))),
      (eq_iff p.status "sent").0 (ground (arith, met)),
    )

predecessor_sent-IsUnblocked :
    (outbox : List Effect) (e : Effect) → predecessor_sent outbox e ≡ true → IsUnblocked outbox e
unfolding predecessor_sent
predecessor_sent-IsUnblocked outbox e h =
    sent_before-cases e.connection_id outbox e.predecessor_id h

In-++ : {A : Type 0} (x : A) (xs ys : List A) → In x (xs ++ ys) → In x xs ⊎ In x ys
In-++ x [] ys i = inr i
In-++ x (y ∷ xs) ys (inl e) = inl (inl e)
In-++ x (y ∷ xs) ys (inr i) = elim (In-++ x xs ys i) [ inl j ↦ inl (inr j) | inr j ↦ inr j ]

In-pick_row :
    (r : Effect) (o : Option Effect) (rest : List Effect)
    → In r (pick_row o rest)
    → ((row : Effect) × (o ≡ some row) × (r ≡ row)) ⊎ In r rest
In-pick_row r none rest i = inr i
In-pick_row r (some row) rest (inl e) = inl (row, refl, e)
In-pick_row r (some row) rest (inr i) = inr i

any-later :
    (id : String) (ids : List String) (x : String)
    → any (λ i. i == x) ids ≡ true
    → any (λ i. i == x) (id ∷ ids) ≡ true
any-later id ids x h = elim (Bool-cases (id == x)) [ inl e ↦ rw e refl | inr e ↦ rw e h ]

any-first :
    (id : String) (ids : List String) (x : String) → x ≡ id → any (λ i. i == x) (id ∷ ids) ≡ true
any-first id ids x e = rw ((eq_iff id x).1 (sym e)) refl

module _ (connection : String) (before : String → String → Bool) (locked : String → Bool) where
  In-branch :
      (p : Effect → Bool) (limit : ℕ) (outbox : List Effect) (e : Effect)
      → In e (branch connection before locked p limit outbox)
      → In e outbox × (p e ≡ true) × (locked e.id ≡ false)
  In-branch p limit outbox e i =
      let (at, met) =
        In-filter (λ x. p x && not (locked x.id)) e outbox
          (In-sort_by _ e _ (In-take limit e _ i)) in
      (at, ground (arith, met), ground (arith, met))

  candidates-IsSendable :
      (at limit : ℕ) (outbox : List Effect) (e : Effect)
      → In e (effect_candidates connection before locked at limit outbox)
      → In e outbox × (locked e.id ≡ false) × IsSendable at outbox e
  unfolding effect_candidates
  candidates-IsSendable at limit outbox e i =
      elim (In-++ e _ _ (In-sort_by _ e _ (In-take limit e _ i))) [
        | inl due ↦
            let (row, met, free) =
              In-branch (is_due_effect connection at outbox) limit outbox e due in
            (
              row,
              free,
              (
                predecessor_sent-IsUnblocked outbox e (ground (arith, met)),
                inl ((eq_iff e.status "pending").0 (ground (arith, met))),
              ),
            )
        | inr again ↦
            let (row, met, free) =
              In-branch (is_uncertain_effect connection at outbox) limit outbox e again in
            (
              row,
              free,
              (
                predecessor_sent-IsUnblocked outbox e (ground (arith, met)),
                inr (
                  (eq_iff e.status "unknown").0 (ground (arith, met)),
                  ground (arith, met),
                  ground (arith, met),
                ),
              ),
            )
      ]

  In-pick :
      (ids : List String) (rows : List Effect) (r : Effect)
      → In r (pick (is_effect connection) ids rows)
      → In r rows × (any (λ i. i == r.id) ids ≡ true) × ((r.connection_id == connection) ≡ true)
  In-pick [] rows r i = elim i [ ]
  In-pick (id ∷ ids) rows r i = elim (In-pick_row r (find? (is_effect connection id) rows) _ i) [
    | inl (row, found, e) ↦
        let (at, met) = find?-match (is_effect connection id) rows found in
        let same : r.id ≡ id =
          ap (λ (x : Effect). x.id) e ∙ (eq_iff row.id id).0 (ground (arith, met)) in
        let mine : (row.connection_id == connection) ≡ true = ground (arith, met) in
        (
          subst (λ x. In x rows) (sym e) at,
          any-first id ids r.id same,
          ap (λ (x : Effect). x.connection_id == connection) e ∙ mine,
        )
    | inr later ↦
        let (at, named, mine) = In-pick ids rows r later in (at, any-later id ids r.id named, mine)
  ]

  -- A row that was handed out was one of the candidates before it was leased.
  claimed_row :
      (input : RunClaim) (token : String) (at : ℕ) (outbox : List Effect) (ids : List String)
      (r : Effect)
      → In r (
          pick (is_effect connection) ids (
            update
              (λ e. e.connection_id == connection && is_listed ids e.id)
              (lease_effect input.owner token (at + input.lease_ms) at)
              outbox))
      → (any (λ i. i == r.id) ids ≡ true)
        × (r.status ≡ "running")
        × (r.lease_token ≡ some token)
        × (r.lease_expires_at ≡ some (at + input.lease_ms))
  claimed_row input token at outbox ids r i =
      let chosen = λ (e : Effect). e.connection_id == connection && is_listed ids e.id in
      let lease = lease_effect input.owner token (at + input.lease_ms) at in
      let (row, named, mine) = In-pick ids (update chosen lease outbox) r i in
      let (x, at_x, how) = In-update chosen lease r outbox row in
      elim how [
        | inl (met, e) ↦ (
          named,
          ap (λ (y : Effect). y.status) e,
          ap (λ (y : Effect). y.lease_token) e,
          ap (λ (y : Effect). y.lease_expires_at) e,
        )
        | inr (missed, e) ↦
            let hit : chosen r ≡ true = rw (mine, named) refl in
            absurd (false≢true (sym missed ∙ sym (ap chosen e) ∙ hit))
      ]

any-id :
    (id : String) (rows : List Effect)
    → any (λ i. i == id) (map (λ (e : Effect). e.id) rows) ≡ true
    → (e : Effect) × In e rows × (e.id ≡ id)
any-id id [] h = cc
any-id id (e ∷ rows) h = elim (Bool-cases (e.id == id)) [
  | inl same ↦ (e, inl refl, (eq_iff e.id id).0 same)
  | inr other ↦ let (x, i, p) = any-id id rows (rw other at h) in (x, inr i, p)
]

-- The table that a claim selects from: expired leases are reclassified first where it is time to.
abbrev pub current_outbox :
    String → (String → String → Bool) → (String → Bool) → Bool → ℕ → List Effect → List Effect
current_outbox connection before locked expiring at outbox =
    if expiring then expire_leases connection before locked at outbox else outbox

abbrev pub IsHandedOut : String → ℕ → ℕ → (String → Bool) → List Effect → Effect → Type 0
IsHandedOut token until at locked outbox r =
    (e : Effect) × In e outbox
    × (e.id ≡ r.id)
    × (locked e.id ≡ false)
    × IsSendable at outbox e
    × (r.status ≡ "running")
    × (r.lease_token ≡ some token)
    × (r.lease_expires_at ≡ some until)

-- Every effect that claimOutbox hands out is leased to the caller and is one that may be sent now: its
-- predecessor is sent, and it is pending, or its sending is uncertain, was first tried less than 55
-- minutes ago and is of a kind that is sent again. No other transaction holds it.
pub claim_outbox-IsHandedOut :
    (connection : String) (before : String → String → Bool) (locked : String → Bool)
    (input : RunClaim) (expiring : Bool) (token : String) (at : ℕ)
    (outbox outbox' rows : List Effect) (r : Effect)
    → claim_outbox connection before locked input expiring token at outbox ≡ ok (rows, outbox')
    → In r rows
    → IsHandedOut token
        (at + input.lease_ms)
        at
        locked
        (current_outbox connection before locked expiring at outbox)
        r
unfolding claim_outbox
claim_outbox-IsHandedOut connection before locked input expiring token at outbox outbox' rows r e
      i =
    let now = current_outbox connection before locked expiring at outbox in
    let chosen = effect_candidates connection before locked at input.limit now in
    let ids = map (λ (x : Effect). x.id) chosen in
    let (_, _, done) = >>=-eq-ok (check_claim input) _ e in
    let (named, running, mine, until) =
      claimed_row connection before locked input token at now ids r
        (subst (λ (x : List Effect × List Effect). In r x.0) (sym (ok-injective done)) i) in
    let (x, at_x, same) = any-id r.id chosen named in
    let (row, free, ready) =
      candidates-IsSendable connection before locked at input.limit now x at_x in
    (x, row, same, free, ready, running, mine, until)
