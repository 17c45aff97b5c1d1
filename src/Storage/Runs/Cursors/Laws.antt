-- ===== src/Storage/Runs/Cursors/Laws.antt =====
-- setCursor and getCursor against a store of compare-and-set registers.
use agent_chat_bridge.Prelude.{
  ℕ, ◌+◌, String, none, List, [], ◌∷◌, ◌++◌, nat_eq, find?, any, update, ok, err, cursor_conflict,
  ◌≡◌, refl, sym, ap, ap₂, ◌⊎◌, ◌∙◌, inl, inr, Bool-cases,
}
use agent_chat_bridge.Storage.ForwardJobs.{required-cases}
use agent_chat_bridge.Storage.Runs.Cursors.{
  Cursor, CursorInput, is_cursor, is_expected_cursor, new_cursor, next_cursor, put_cursor,
  set_cursor, get_cursor,
}
use agent_chat_bridge.Storage.Runs.Cursors.Registers.{
  Register, assign, compare_and_set, CursorCall, read, write, shown, perform_cursor, run_calls,
  replay_step, replay,
}
use agent_chat_bridge.Storage.Runs.Cursors.Tables.{
  IsTable, Represents, expected-any, new-any, appended-IsTable, appended-Represents,
  updated-IsTable, updated-Represents,
}

module _ (connection : String) where
  -- A call on the rows answers as the compare-and-set does and keeps the tables in step.
  put_cursor-refines :
      (input : CursorInput) (at : ℕ) (rows : List Cursor) (f : Register)
      → IsTable connection rows
      → Represents connection f rows
      → ((rows' : List Cursor) × (put_cursor connection input at rows ≡ ok rows')
          × (compare_and_set input f
              ≡ ok (assign f input.key (input.expected_version + 1, input.value)))
          × IsTable connection rows'
          × Represents connection
              (assign f input.key (input.expected_version + 1, input.value))
              rows')
        ⊎ ((put_cursor connection input at rows ≡ err cursor_conflict)
            × (compare_and_set input f ≡ err cursor_conflict))
  unfolding put_cursor compare_and_set
  put_cursor-refines input at rows f t r = elim (Bool-cases (nat_eq input.expected_version 0)) [
    | inl first ↦ elim (Bool-cases (any (is_cursor connection input.key) rows)) [
      | inl known ↦
          inr (
            rw (first, known) refl,
            rw (sym (new-any connection input rows f t r first), known) refl,
          )
      | inr new ↦ inl (
        rows ++ new_cursor connection input at ∷ [],
        rw (first, new) refl,
        rw (sym (new-any connection input rows f t r first), new) refl,
        appended-IsTable connection input at rows t new,
        appended-Represents connection input at rows f r new first,
      )
    ]
    | inr later ↦ elim (Bool-cases (any (is_expected_cursor connection input) rows)) [
      | inl hit ↦ inl (
        update (is_expected_cursor connection input) (next_cursor connection input at) rows,
        rw (later, hit) refl,
        rw (sym (expected-any connection input rows f t r later), hit) refl,
        updated-IsTable connection input at rows t,
        updated-Represents connection input at rows f r
            (sym (expected-any connection input rows f t r later) ∙ hit) later,
      )
      | inr miss ↦ inr (
        rw (later, miss) refl,
        rw (sym (expected-any connection input rows f t r later), miss) refl,
      )
    ]
  ]

module _ (connection : String) where
  step-refines :
      (c : CursorCall) (rows : List Cursor) (f : Register)
      → IsTable connection rows
      → Represents connection f rows
      → ((perform_cursor connection c rows).0 ≡ (replay_step connection c f).0)
        × IsTable connection (perform_cursor connection c rows).1
        × Represents connection (replay_step connection c f).1 (perform_cursor connection c rows).1
  unfolding get_cursor set_cursor
  step-refines (read key) rows f t r = elim (required-cases connection 128) [
    | inr bad ↦ (rw bad refl, t, r)
    | inl scope ↦ elim (required-cases key 255) [
      | inr bad ↦ (rw (scope, bad) refl, t, r)
      | inl good ↦ (rw (scope, good) (ap shown (sym (r key))), t, r)
    ]
  ]
  step-refines (write input at) rows f t r = elim (required-cases connection 128) [
    | inr bad ↦ rw bad (refl, t, r)
    | inl scope ↦ elim (required-cases input.key 255) [
      | inr bad ↦ rw (scope, bad) (refl, t, r)
      | inl good ↦ elim (put_cursor-refines connection input at rows f t r) [
        | inl (rows', put, set, t', r') ↦ rw (scope, good, put, set) (refl, t', r')
        | inr (put, set) ↦ rw (scope, good, put, set) (refl, t, r)
      ]
    ]
  ]

  steps-refine :
      (calls : List CursorCall) (rows : List Cursor) (f : Register)
      → IsTable connection rows
      → Represents connection f rows
      → run_calls connection calls rows ≡ replay connection calls f
  unfolding run_calls replay
  steps-refine [] rows f t r = refl
  steps-refine (c ∷ calls) rows f t r =
      let (same, t', r') = step-refines c rows f t r in
      ap₂ ◌∷◌ same (
        steps-refine calls (perform_cursor connection c rows).1 (replay_step connection c f).1 t'
          r')

  empty-IsTable : IsTable connection []
  empty-IsTable = record { keyed = λ key c i. elim i [ ]; positive = λ c i. elim i [ ] }

-- Whatever reads and writes of cursors come one after another, from an empty table on, each is
-- answered as a store of compare-and-set registers answers it, the refused ones included.
pub run_calls-refines :
    (connection : String) (calls : List CursorCall)
    → run_calls connection calls [] ≡ replay connection calls (λ key. none)
unfolding find?
run_calls-refines connection calls =
    steps-refine connection calls [] (λ key. none) (empty-IsTable connection) (λ key. refl)
