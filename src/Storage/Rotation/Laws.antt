-- ===== src/Storage/Rotation/Laws.antt =====
-- A repeated rotation retires nothing more.
use agent_chat_bridge.Prelude.{
  ℕ, ◌+◌, String, Bool, true, false, not, ◌&&◌, Option, none, some, List, [], ◌∷◌, ◌++◌, ◌==◌, ◌≡◌,
  ◌⊎◌, inl, inr, refl, sym, ap, ◌∙◌, arith, In, any, find?, find?-match, Result, ok, err, one_of,
  ltb, Bool-cases, invalid_rotation, session_conflict, session_busy, ensure, >>=-eq-ok,
}
use mathlib.Core.Bool.{false≢true}
use agent_chat_bridge.Json.{Json}
use agent_chat_bridge.Storage.Rotation.{
  BridgeSession, Rotation, RotationTables, RotateInput, rotation_field, safe_activity, is_same_key,
  is_session, rotation_payload, rotation_row, insert_rotation, is_expected, has_run, retire,
  rotated, rotate_idle_session, max_safe,
}

rotation_field-cases :
    (value : String) (limit : ℕ)
    → (rotation_field value limit ≡ ok value) ⊎ (rotation_field value limit ≡ err invalid_rotation)
unfolding rotation_field
rotation_field-cases value limit = ground arith

absent :
    (p : Rotation → Bool) (rows : List Rotation) (x : Rotation)
    → any p rows ≡ false
    → In x rows
    → p x ≡ false
absent p [] x h i = elim i [ ]
absent p (y ∷ rows) x h (inl e) = ap p e ∙ ground arith
absent p (y ∷ rows) x h (inr i) = absent p rows x (ground arith) i

last_found :
    (p : Rotation → Bool) (r : Rotation) (rows : List Rotation) {found : Rotation}
    → any p rows ≡ false
    → find? p (rows ++ r ∷ []) ≡ some found
    → found ≡ r
unfolding find?
last_found p r [] h e = elim (Bool-cases (p r)) [
  | inl met ↦ cc (rw met at e)
  | inr missed ↦ cc (rw missed at e)
]
last_found p r (y ∷ rows) {found = found} h e = elim (Bool-cases (p y)) [
  | inl met ↦ cc (rw met at h)
  | inr missed ↦ last_found p r rows {found = found} (rw missed at h) (rw missed at e)
]

-- A row that no row before it has the id of is the one just inserted.
inserted :
    (input : RotateInput) (r : Rotation) (rows : List Rotation) {found : Rotation}
    → any (λ q. q.id == r.id) rows ≡ false
    → find? (is_same_key input) (insert_rotation input r rows) ≡ some found
    → (found.id == r.id) ≡ true
    → found ≡ r
unfolding insert_rotation
inserted input r rows fresh e same = elim (Bool-cases (any (is_same_key input) rows)) [
  | inl known ↦
      let (listed, _) = find?-match (is_same_key input) rows (rw known at e) in
      absurd (false≢true (sym (absent (λ q. q.id == r.id) rows _ fresh listed) ∙ same))
  | inr new ↦ last_found (is_same_key input) r rows new (rw new at e)
]

second-equal :
    {a b : ℕ × String} {x y : RotationTables}
    → ◌≡◌ {A = Result ((ℕ × String) × RotationTables)} (ok (a, x)) (ok (b, y))
    → x ≡ y
second-equal p = cc

first-equal :
    {a b : ℕ × String} {x y : RotationTables}
    → ◌≡◌ {A = Result ((ℕ × String) × RotationTables)} (ok (a, x)) (ok (b, y))
    → a ≡ b
first-equal p = cc

retire-rotations :
    (input : RotateInput) (at : ℕ) (s : Option BridgeSession) (t t' : RotationTables)
    {answer : ℕ × String}
    → retire input at s t ≡ ok (answer, t')
    → (t'.rotations ≡ t.rotations)
      × (answer ≡ (input.expected_generation + 1, input.expected_thread_id))
unfolding retire
retire-rotations input at none t t' e = cc
retire-rotations input at (some s) t t' e =
    let (_, _, unbusy) = >>=-eq-ok (ensure (is_expected input s) session_conflict) _ e in
    let (_, _, done) = >>=-eq-ok (ensure (not (has_run s.active_run_id)) session_busy) _ unbusy in
    (ap (λ (x : RotationTables). x.rotations) (sym (second-equal done)), sym (first-equal done))

module _ (digest : Json → String) where
  rotate-passes :
      (input : RotateInput) (row_id : String) (at : ℕ) (t : RotationTables)
      {r : (ℕ × String) × RotationTables}
      → rotate_idle_session digest input row_id at t ≡ ok r
      → (rotation_field input.connection_id 128 ≡ ok input.connection_id)
        × (rotation_field input.conversation_id 255 ≡ ok input.conversation_id)
        × (rotation_field input.agent_id 128 ≡ ok input.agent_id)
        × (rotation_field input.idempotency_key 255 ≡ ok input.idempotency_key)
        × (rotation_field input.expected_thread_id 255 ≡ ok input.expected_thread_id)
        × ((ltb 0 input.expected_generation
              && ltb input.expected_generation max_safe
              && one_of ("session_idle" ∷ "rules_updated" ∷ "thread_archived" ∷ []) input.reason)
            ≡ true)
        × (safe_activity input.expected_activity ≡ true)
  unfolding rotate_idle_session
  rotate-passes input row_id at t e = ground (
    arith,
    rotation_field-cases input.connection_id 128,
    rotation_field-cases input.conversation_id 255,
    rotation_field-cases input.agent_id 128,
    rotation_field-cases input.idempotency_key 255,
    rotation_field-cases input.expected_thread_id 255,
  )

  -- An accepted input keeps its limits whatever the tables are.
  rotate-on :
      (input : RotateInput) (row_id : String) (at : ℕ) (t : RotationTables)
      {r : (ℕ × String) × RotationTables}
      → rotate_idle_session digest input row_id at t ≡ ok r
      → (row_id' : String) (at' : ℕ) (t' : RotationTables)
      → rotate_idle_session digest input row_id' at' t' ≡ (
          let h = digest (rotation_payload input) in
          let rows = insert_rotation input (rotation_row input h row_id' at') t'.rotations in
          rotated input h row_id' at'
            (find? (is_same_key input) rows)
            (record t' { rotations = rows }))
  unfolding rotate_idle_session
  rotate-on input row_id at t e row_id' at' t' =
      let (connection, conversation, agent, key, thread, limits, activity) =
        rotate-passes input row_id at t e in
      rw (connection, conversation, agent, key, thread, limits, activity) refl

-- What an accepted request shows: the audit row of its key, which it answers with.
rotated-row :
    (input : RotateInput) (h row_id : String) (at : ℕ) (rows : List Rotation)
    (found : Option Rotation) (t t' : RotationTables) {answer : ℕ × String}
    → ((r : Rotation)
        → found ≡ some r
        → (r.id == row_id) ≡ true
        → r ≡ rotation_row input h row_id at)
    → rotated input h row_id at found t ≡ ok (answer, t')
    → (r : Rotation) × (found ≡ some r)
      × ((r.payload_hash == h) ≡ true)
      × (t'.rotations ≡ t.rotations)
      × (answer ≡ (r.generation, r.retired_thread_id))
unfolding rotated
rotated-row input h row_id at rows none t t' new e = cc
rotated-row input h row_id at rows (some r) t t' new e = elim (Bool-cases (r.payload_hash == h)) [
  | inl same ↦ elim (Bool-cases (r.id == row_id)) [
    | inl mine ↦
        let (kept, answer) =
          retire-rotations input at (find? (is_session input) t.sessions) t t'
            (rw (same, mine) at e) in
        let row = new r refl mine in
        (
          r,
          refl,
          same,
          kept,
          answer ∙ sym (ap (λ (q : Rotation). (q.generation, q.retired_thread_id)) row),
        )
    | inr earlier ↦
        let done = rw (same, earlier) at e in
        (
          r,
          refl,
          same,
          ap (λ (x : RotationTables). x.rotations) (sym (second-equal done)),
          sym (first-equal done),
        )
  ]
  | inr other ↦ cc (rw other at e)
]

replayed :
    (input : RotateInput) (h row_id : String) (at : ℕ) (r : Rotation) (t : RotationTables)
    → (r.payload_hash == h) ≡ true
    → (r.id == row_id) ≡ false
    → rotated input h row_id at (some r) t ≡ ok ((r.generation, r.retired_thread_id), t)
unfolding rotated
replayed input h row_id at r t same other = rw (same, other) refl

found_any :
    (p : Rotation → Bool) (rows : List Rotation) {found : Rotation}
    → find? p rows ≡ some found
    → any p rows ≡ true
unfolding find?
found_any p [] e = cc
found_any p (y ∷ rows) e = elim (Bool-cases (p y)) [
  | inl met ↦ rw met refl
  | inr missed ↦ rw missed (found_any p rows (rw missed at e))
]

inserted_again :
    (input : RotateInput) (r : Rotation) (rows : List Rotation) {found : Rotation}
    → find? (is_same_key input) rows ≡ some found
    → insert_rotation input r rows ≡ rows
unfolding insert_rotation
inserted_again input r rows e = rw (found_any (is_same_key input) rows e) refl

-- On the tables that an accepted rotation left, the same request with a fresh id for its audit row
-- returns the same generation and retired thread and writes nothing, if the first audit id was fresh.
pub rotate_again :
    (digest : Json → String) (input : RotateInput) (row_id row_id' : String) (at at' : ℕ)
    (t t' : RotationTables) (answer : ℕ × String)
    → any (λ q. q.id == row_id) t.rotations ≡ false
    → rotate_idle_session digest input row_id at t ≡ ok (answer, t')
    → any (λ q. q.id == row_id') t'.rotations ≡ false
    → rotate_idle_session digest input row_id' at' t' ≡ ok (answer, t')
rotate_again digest input row_id row_id' at at' t t' answer fresh e fresh' =
    let h = digest (rotation_payload input) in
    let row = rotation_row input h row_id at in
    let rows = insert_rotation input row t.rotations in
    let (r, found, same, kept, is_answer) =
      rotated-row input h row_id at rows (find? (is_same_key input) rows)
        (record t { rotations = rows }) t' (λ q listed. inserted input row t.rotations fresh listed)
        (sym (rotate-on digest input row_id at t e row_id at t) ∙ e) in
    let found' : find? (is_same_key input) t'.rotations ≡ some r =
      ap (find? (is_same_key input)) kept ∙ found in
    let unchanged = inserted_again input (rotation_row input h row_id' at') t'.rotations found' in
    let (listed, _) = find?-match (is_same_key input) t'.rotations found' in
    rotate-on digest input row_id at t e row_id' at' t'
    ∙ ap
        (λ rs.
          rotated input h row_id' at' (find? (is_same_key input) rs) (record t' { rotations = rs }))
        unchanged
    ∙ ap (λ f. rotated input h row_id' at' f t') found'
    ∙ replayed input h row_id' at' r t' same
        (absent (λ q. q.id == row_id') t'.rotations r fresh' listed)
    ∙ ap (λ a. ok (a, t')) (sym is_answer)
