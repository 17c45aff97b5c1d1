-- ===== src/Storage/Runs/Cursors/Registers.antt =====
-- A store of registers, in which a key holds a version and a value: what setCursor and getCursor are
-- to a caller.
use agent_chat_bridge.Prelude.{
  ℕ, ◌+◌, String, Bool, Option, none, some, List, [], ◌∷◌, ◌==◌, nat_eq, if◌then◌else◌, Result, ok,
  err, ◌>>=◌, cursor_conflict, StoreError,
}
use agent_chat_bridge.Json.{Json}
use agent_chat_bridge.Storage.ForwardJobs.{required}
use agent_chat_bridge.Storage.Runs.Cursors.{Cursor, CursorInput, set_cursor, get_cursor}

-- What a caller sees of a cursor: its version and its value.
abbrev pub Register : Type 0
Register = String → Option (ℕ × Json)

abbrev pub seen : Option Cursor → Option (ℕ × Json)
seen none = none
seen (some c) = some (c.version, c.value)

-- The version 0 is that of a key without a value.
abbrev pub admits : ℕ → Option (ℕ × Json) → Bool
admits expected none = nat_eq expected 0
admits expected (some (version, value)) = nat_eq version expected

abbrev pub assign : Register → String → ℕ × Json → Register
assign f key v = λ k. if key == k then some v else f k

-- The compare-and-set of a register.
unfoldable pub compare_and_set : CursorInput → Register → Result Register
compare_and_set input f =
    if admits input.expected_version (f input.key)
    then ok (assign f input.key (input.expected_version + 1, input.value))
    else err cursor_conflict

-- A caller's calls, each with what it is answered.
pub data CursorCall : Type 0 where
  read : String → CursorCall
  write : CursorInput → ℕ → CursorCall

pub data Answer : Type 0 where
  shown : Option (ℕ × Json) → Answer
  stored : ℕ → Answer
  failed : StoreError → Answer

abbrev pub read_answer : Result (Option Cursor) → Answer
read_answer (ok found) = shown (seen found)
read_answer (err e) = failed e

-- A call that fails leaves the rows as they were.
abbrev pub write_answer : List Cursor → Result (ℕ × List Cursor) → Answer × List Cursor
write_answer rows (ok (version, rows')) = (stored version, rows')
write_answer rows (err e) = (failed e, rows)

abbrev pub perform_cursor : String → CursorCall → List Cursor → Answer × List Cursor
perform_cursor connection (read key) rows = (read_answer (get_cursor connection key rows), rows)
perform_cursor connection (write input at) rows =
    write_answer rows (set_cursor connection input at rows)

unfoldable pub run_calls : String → List CursorCall → List Cursor → List Answer
run_calls connection [] rows = []
run_calls connection (c ∷ cs) rows =
    let now = perform_cursor connection c rows in now.0 ∷ run_calls connection cs now.1

-- The same calls on registers: the limits of a key, then the register itself.
abbrev pub checked_key : String → String → Result String
checked_key connection key = required connection 128 >>= λ scope. required key 255

abbrev pub replay_read : Result String → Option (ℕ × Json) → Answer
replay_read (ok key) v = shown v
replay_read (err e) v = failed e

abbrev pub replay_write : ℕ → Register → Result Register → Answer × Register
replay_write version f (ok f') = (stored version, f')
replay_write version f (err e) = (failed e, f)

abbrev pub replay_step : String → CursorCall → Register → Answer × Register
replay_step connection (read key) f = (replay_read (checked_key connection key) (f key), f)
replay_step connection (write input at) f =
    replay_write (input.expected_version + 1) f
      (checked_key connection input.key >>= λ key. compare_and_set input f)

unfoldable pub replay : String → List CursorCall → Register → List Answer
replay connection [] f = []
replay connection (c ∷ cs) f =
    let now = replay_step connection c f in now.0 ∷ replay connection cs now.1
