-- ===== src/Storage/Runs/Cursors.antt =====
-- storage/store.mjs: getCursor and setCursor, a compare-and-set on the version of a cursor.
pub mod Registers
mod Tables
pub mod Laws
use agent_chat_bridge.Prelude.{
  ℕ, ◌+◌, String, Bool, not, ◌&&◌, Option, none, some, List, [], ◌∷◌, ◌++◌, ◌==◌, nat_eq,
  if◌then◌else◌, find?, any, update, Result, ok, err, ◌>>=◌, ◌>>◌, ensure, cursor_conflict,
}
use agent_chat_bridge.Json.{Json}
use agent_chat_bridge.Storage.ForwardJobs.{required}

-- bridge_cursors
pub record Cursor : Type 0 where
  pub connection_id : String
  pub cursor_key : String
  pub version : ℕ
  pub value : Json
  pub updated_at : ℕ

pub record CursorInput : Type 0 where
  pub key : String
  pub expected_version : ℕ
  pub value : Json

module _ (connection : String) where
  abbrev pub is_cursor : String → Cursor → Bool
  is_cursor key c = c.connection_id == connection && c.cursor_key == key

  abbrev pub is_expected_cursor : CursorInput → Cursor → Bool
  is_expected_cursor input c = is_cursor input.key c && nat_eq c.version input.expected_version

  abbrev pub new_cursor : CursorInput → ℕ → Cursor
  new_cursor input at = record {
    connection_id = connection;
    cursor_key = input.key;
    version = 1;
    value = input.value;
    updated_at = at;
  }

  abbrev pub next_cursor : CursorInput → ℕ → Cursor → Cursor
  next_cursor input at c = record c {
    version = c.version + 1;
    value = input.value;
    updated_at = at;
  }

  -- The INSERT of a first version, else the UPDATE of the expected one.
  unfoldable pub put_cursor : CursorInput → ℕ → List Cursor → Result (List Cursor)
  put_cursor input at rows =
      if nat_eq input.expected_version 0
      then ensure (not (any (is_cursor input.key) rows)) cursor_conflict
        >> ok (rows ++ new_cursor input at ∷ [])
      else ensure (any (is_expected_cursor input) rows) cursor_conflict
        >> ok (update (is_expected_cursor input) (next_cursor input at) rows)

  -- setCursor: the version afterwards
  unfoldable pub set_cursor : CursorInput → ℕ → List Cursor → Result (ℕ × List Cursor)
  unfolding put_cursor
  set_cursor input at rows = do
    scope ← required connection 128
    key ← required input.key 255
    rows' ← put_cursor input at rows
    ok (input.expected_version + 1, rows')

  -- getCursor
  unfoldable pub get_cursor : String → List Cursor → Result (Option Cursor)
  get_cursor key rows = do
    scope ← required connection 128
    checked ← required key 255
    ok (find? (is_cursor key) rows)
