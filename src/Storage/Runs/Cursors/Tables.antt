-- ===== src/Storage/Runs/Cursors/Tables.antt =====
-- One write of a cursor, on the table and on the registers that it represents.
use agent_chat_bridge.Prelude.{
  ℕ, ◌+◌, ◌<◌, String, true, false, not, some, List, [], ◌∷◌, ◌++◌, ◌==◌, nat_eq, find?, any,
  update, In, ◌≡◌, refl, sym, ap, subst, ◌∙◌, inl, inr, arith, eq_iff, eq_refl, Bool-cases,
  Option-cases, find?-match, find?-update-mapped, find?-append, find?-append-missed,
  find?-append-met, find?-none, any-In, any-match, In-append, In-update, mapped, edited,
}
use mathlib.Core.Bool.{false≢true}
use agent_chat_bridge.Storage.Runs.Cursors.{
  Cursor, CursorInput, is_cursor, is_expected_cursor, new_cursor, next_cursor,
}
use agent_chat_bridge.Storage.Runs.Cursors.Registers.{Register, seen, admits, assign}

module _ (connection : String) where
  -- The unique key (connection_id, cursor_key), and versions that start at 1.
  pub record IsTable (rows : List Cursor) : Type 0 where
    pub keyed :
        (key : String) (c : Cursor)
        → In c rows
        → is_cursor connection key c ≡ true
        → find? (is_cursor connection key) rows ≡ some c
    pub positive : (c : Cursor) → In c rows → 0 < c.version

  abbrev pub Represents : Register → List Cursor → Type 0
  Represents f rows = (key : String) → f key ≡ seen (find? (is_cursor connection key) rows)

  pub expected-any :
      (input : CursorInput) (rows : List Cursor) (f : Register)
      → IsTable rows
      → Represents f rows
      → nat_eq input.expected_version 0 ≡ false
      → any (is_expected_cursor connection input) rows ≡ admits input.expected_version (f input.key)
  expected-any input rows f t r later =
      elim (Bool-cases (any (is_expected_cursor connection input) rows)) [
        | inl e ↦
            let (c, i, q) = any-match (is_expected_cursor connection input) rows e in
            let found = t.keyed input.key c i (ground arith) in
            e
            ∙ sym (ap (admits input.expected_version) (r input.key ∙ ap seen found) ∙ ground arith)
        | inr e ↦ elim (Option-cases (find? (is_cursor connection input.key) rows)) [
          | inl absent ↦
              e ∙ sym (ap (admits input.expected_version) (r input.key ∙ ap seen absent) ∙ later)
          | inr (c, found) ↦
              let (i, met) = find?-match (is_cursor connection input.key) rows found in
              let other : nat_eq c.version input.expected_version ≡ false =
                elim (Bool-cases (nat_eq c.version input.expected_version)) [
                  | inl same ↦ absurd (
                      false≢true (
                        sym e
                        ∙ any-In (is_expected_cursor connection input) rows c i
                            (rw (met, same) refl)))
                  | inr apart ↦ apart
                ] in
              e ∙ sym (ap (admits input.expected_version) (r input.key ∙ ap seen found) ∙ other)
        ]
      ]

  pub new-any :
      (input : CursorInput) (rows : List Cursor) (f : Register)
      → IsTable rows
      → Represents f rows
      → nat_eq input.expected_version 0 ≡ true
      → not (any (is_cursor connection input.key) rows)
        ≡ admits input.expected_version (f input.key)
  new-any input rows f t r first =
      elim (Option-cases (find? (is_cursor connection input.key) rows)) [
        | inl absent ↦
            rw (find?-none (is_cursor connection input.key) rows absent)
              (sym (ap (admits input.expected_version) (r input.key ∙ ap seen absent) ∙ first))
        | inr (c, found) ↦
            let (i, met) = find?-match (is_cursor connection input.key) rows found in
            rw (any-In (is_cursor connection input.key) rows c i met) (
              sym (
                ap (admits input.expected_version) (r input.key ∙ ap seen found)
                ∙ ground (arith, t.positive c i)))
      ]

  pub appended-IsTable :
      (input : CursorInput) (at : ℕ) (rows : List Cursor)
      → IsTable rows
      → any (is_cursor connection input.key) rows ≡ false
      → IsTable (rows ++ new_cursor connection input at ∷ [])
  appended-IsTable input at rows t new = record {
    keyed = λ key c i met. elim (In-append c (new_cursor connection input at) rows i) [
      | inl j ↦
          find?-append-met (is_cursor connection key) (new_cursor connection input at) rows
            (t.keyed key c j met)
      | inr e ↦
          let mine = sym (ap (is_cursor connection key) e) ∙ met in
          let same = (eq_iff input.key key).0 (ground (arith, mine)) in
          find?-append (is_cursor connection key) (new_cursor connection input at) rows mine
            (subst (λ k. any (is_cursor connection k) rows ≡ false) same new)
          ∙ ap some (sym e)
    ];
    positive = λ c i. elim (In-append c (new_cursor connection input at) rows i) [
      | inl j ↦ t.positive c j
      | inr e ↦ rw e (omega arith)
    ];
  }

  pub appended-Represents :
      (input : CursorInput) (at : ℕ) (rows : List Cursor) (f : Register)
      → Represents f rows
      → any (is_cursor connection input.key) rows ≡ false
      → nat_eq input.expected_version 0 ≡ true
      → Represents
          (assign f input.key (input.expected_version + 1, input.value))
          (rows ++ new_cursor connection input at ∷ [])
  appended-Represents input at rows f r new first key = elim (Bool-cases (input.key == key)) [
    | inl same ↦
        let name = (eq_iff input.key key).0 same in
        let start : input.expected_version ≡ 0 = ground (arith, first) in
        rw same (
          ap (λ n. some (n + 1, input.value)) start
          ∙ sym (
              ap seen (
                find?-append (is_cursor connection key) (new_cursor connection input at) rows
                  (rw (eq_refl connection, same) refl)
                  (subst (λ k. any (is_cursor connection k) rows ≡ false) name new))))
    | inr apart ↦ rw apart (
        r key
        ∙ sym (
            ap seen (
              find?-append-missed (is_cursor connection key) (new_cursor connection input at) rows
                (ground (arith, apart)))))
  ]

  pub updated-IsTable :
      (input : CursorInput) (at : ℕ) (rows : List Cursor)
      → IsTable rows
      → IsTable
          (update (is_expected_cursor connection input) (next_cursor connection input at) rows)
  updated-IsTable input at rows t =
      let p = is_expected_cursor connection input in
      let f = next_cursor connection input at in
      record {
        keyed = λ key c i met.
            let (x, j, how) = In-update p f c rows i in
            let found = find?-update-mapped p (is_cursor connection key) f (λ y. refl) rows in
            elim how [
              | inl (q, e) ↦
                  let before = t.keyed key x j (sym (ap (is_cursor connection key) e) ∙ met) in
                  found ∙ ap (mapped (edited p f)) before ∙ ap some (rw q (sym e))
              | inr (q, e) ↦
                  let before = t.keyed key x j (sym (ap (is_cursor connection key) e) ∙ met) in
                  found ∙ ap (mapped (edited p f)) before ∙ ap some (rw q (sym e))
            ];
        positive = λ c i.
            let (x, j, how) = In-update p f c rows i in
            elim how [ inl (q, e) ↦ rw e (omega arith) | inr (q, e) ↦ rw e (t.positive x j) ];
      }

  other_key :
      (input : CursorInput) (c : Cursor) (key : String)
      → c.cursor_key ≡ key
      → (input.key == key) ≡ false
      → is_expected_cursor connection input c ≡ false
  other_key input c key name apart = elim (Bool-cases (c.cursor_key == input.key)) [
    | inl same ↦
        let mine = sym ((eq_iff c.cursor_key input.key).0 same) ∙ name in
        absurd (false≢true (sym apart ∙ (eq_iff input.key key).1 mine))
    | inr other ↦ ground (arith, other)
  ]

  -- A call for another key leaves what is found.
  untouched :
      (input : CursorInput) (at : ℕ) (rows : List Cursor) (key : String)
      → (input.key == key) ≡ false
      → mapped
          (edited (is_expected_cursor connection input) (next_cursor connection input at))
          (find? (is_cursor connection key) rows)
        ≡ find? (is_cursor connection key) rows
  untouched input at rows key apart = elim (Option-cases (find? (is_cursor connection key) rows)) [
    | inl absent ↦ rw absent refl
    | inr (c, found) ↦
        let (i, met) = find?-match (is_cursor connection key) rows found in
        let name : c.cursor_key ≡ key = (eq_iff c.cursor_key key).0 (ground (arith, met)) in
        let missed : is_expected_cursor connection input c ≡ false =
          other_key input c key name apart in
        rw found (ap some (rw missed refl))
  ]

  pub updated-Represents :
      (input : CursorInput) (at : ℕ) (rows : List Cursor) (f : Register)
      → Represents f rows
      → admits input.expected_version (f input.key) ≡ true
      → nat_eq input.expected_version 0 ≡ false
      → Represents
          (assign f input.key (input.expected_version + 1, input.value))
          (update (is_expected_cursor connection input) (next_cursor connection input at) rows)
  updated-Represents input at rows f r ok? later key = elim (Bool-cases (input.key == key)) [
    | inl same ↦
        let name = (eq_iff input.key key).0 same in
        elim (Option-cases (find? (is_cursor connection input.key) rows)) [
          | inl absent ↦ absurd (
              false≢true (
                sym later
                ∙ sym (ap (admits input.expected_version) (r input.key ∙ ap seen absent))
                ∙ ok?))
          | inr (c, found) ↦
              let (i, met) = find?-match (is_cursor connection input.key) rows found in
              let current : nat_eq c.version input.expected_version ≡ true =
                sym (ap (admits input.expected_version) (r input.key ∙ ap seen found)) ∙ ok? in
              let version : c.version ≡ input.expected_version = ground (arith, current) in
              let p = is_expected_cursor connection input in
              let next = next_cursor connection input at in
              let changed : edited p next c ≡ next c = rw (met, current) refl in
              let now : find? (is_cursor connection input.key) (update p next rows)
                  ≡ some (next c) =
                find?-update-mapped p (is_cursor connection input.key) next (λ y. refl) rows
                ∙ ap (mapped (edited p next)) found
                ∙ ap some changed in
              rw same (
                ap (λ n. some (n + 1, input.value)) (sym version)
                ∙ ap seen (
                    sym (
                      subst
                        (λ k. find? (is_cursor connection k) (update p next rows) ≡ some (next c))
                        name now)))
        ]
    | inr apart ↦
        let found =
          find?-update-mapped (is_expected_cursor connection input) (is_cursor connection key)
            (next_cursor connection input at) (λ y. refl) rows in
        rw apart (r key ∙ sym (ap seen (found ∙ untouched input at rows key apart)))
  ]
