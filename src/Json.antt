-- ===== src/Json.antt =====
-- JSON documents and the MySQL functions that storage/forward-jobs.mjs applies to `result_json`.
-- A number is a natural number: the documents hold times and counters.
pub mod Laws
use Prim.Native.Char.{code}
use agent_chat_bridge.Prelude.{
  ℕ, String, Bool, true, false, Option, none, some, List, [], ◌∷◌, ◌||◌, ◌==◌, if◌then◌else◌,
  is_text, text_or, not, nat_eq, ◌&&◌,
}

mutual
  pub data Json : Type 0 where
    null : Json
    bool : Bool → Json
    num : ℕ → Json
    str : String → Json
    arr : Items → Json
    obj : Fields → Json

  pub data Items : Type 0 where
    nil : Items
    cons : Json → Items → Items

  pub data Fields : Type 0 where
    end : Fields
    field : String → Json → Fields → Fields

-- The member of an object; `none` where there is none (SQL NULL, `undefined`).
unfoldable pub get : String → Fields → Option Json
get k end = none
get k (field j v m) = if j == k then some v else get k m

-- JSON_SET(doc, '$.k', v), and `doc.k = v`.
unfoldable pub set : String → Json → Fields → Fields
set k v end = field k v end
set k v (field j w m) = if j == k then field k v m else field j w (set k v m)

-- JSON_REMOVE(doc, '$.k').
unfoldable pub remove : String → Fields → Fields
remove k end = end
remove k (field j w m) = if j == k then remove k m else field j w (remove k m)

unfoldable pub remove_all : List String → Fields → Fields
remove_all [] m = m
remove_all (k ∷ ks) m = remove_all ks (remove k m)

abbrev pub members : Option Json → Fields
members (some (obj m)) = m
members _ = end

-- The text that JSON_UNQUOTE gives of a scalar. The text of a number, an array or an object is
-- left out: no word that the queries compare with is one.
abbrev pub unquote : Option Json → Option String
unquote (some null) = some "null"
unquote (some (bool true)) = some "true"
unquote (some (bool false)) = some "false"
unquote (some (str s)) = some s
unquote _ = none

-- The value of a member that JavaScript compares with a text by `===`.
abbrev pub text_of : Option Json → Option String
text_of (some (str s)) = some s
text_of _ = none

-- `left || right` for a member and a text; `none` is a value that no text is equal to.
abbrev pub or_text : Option Json → String → Option String
or_text none d = some d
or_text (some null) d = some d
or_text (some (bool false)) d = some d
or_text (some (num n)) d = if nat_eq n 0 then some d else none
or_text (some (str s)) d = some (text_or s d)
or_text _ d = none

-- Whether a member counts as true in a condition.
abbrev pub truthy : Option Json → Bool
truthy none = false
truthy (some null) = false
truthy (some (bool b)) = b
truthy (some (num n)) = not (nat_eq n 0)
truthy (some (str s)) = not (s == "")
truthy _ = true

abbrev pub items : Option Json → Items
items (some (arr xs)) = xs
items _ = nil

-- `text LIKE word`, where `_` (95) stands for any one character; no word of the source has a `%` or
-- a backslash.
unfoldable pub is_like : String → String → Bool
is_like String.[] String.[] = true
is_like String.[] (String.◌∷◌ c text) = false
is_like (String.◌∷◌ w word) String.[] = false
is_like (String.◌∷◌ w word) (String.◌∷◌ c text) =
    (nat_eq (code w) 95 || nat_eq (code w) (code c)) && is_like word text

abbrev pub is_text_like : String → Option String → Bool
is_text_like word none = false
is_text_like word (some text) = is_like word text

-- JSON_SEARCH(xs, 'one', word, NULL, '$[*].k') IS NOT NULL.
unfoldable pub has_item : String → String → Items → Bool
unfolding is_like
has_item k word nil = false
has_item k word (cons x xs) =
    is_text_like word (text_of (get k (members (some x)))) || has_item k word xs

-- `JSON_EXTRACT(…) IS NULL`: the member is not there. A JSON null is there.
abbrev pub is_absent : Option Json → Bool
is_absent none = true
is_absent (some v) = false

-- RFC 7396: a null member of the patch removes the member, any other is merged into it.
unfoldable pub patch_member : String → Json → Json → Fields → Fields
patch_member k null merged doc = remove k doc
patch_member k _ merged doc = set k merged doc

-- JSON_MERGE_PATCH(doc, patch).
unfoldable mutual
  pub merge_value : Json → Option Json → Json
  merge_value (obj p) old = obj (merge_patch p (members old))
  merge_value v old = v

  pub merge_patch : Fields → Fields → Fields
  merge_patch end doc = doc
  merge_patch (field k v p) doc = merge_patch p (patch_member k v (merge_value v (get k doc)) doc)
