-- ===== src/Json/Laws.antt =====
-- Laws of members: what a write leaves alone.
use agent_chat_bridge.Prelude.{
  String, true, false, none, some, List, [], ◌∷◌, ◌==◌, ◌≡◌, refl, arith, eq_iff, if◌then◌else◌,
  one_of,
}
use agent_chat_bridge.Json.{
  Json, Fields, end, field, null, get, set, remove, remove_all, patch_member, merge_value,
  merge_patch,
}

pub get-set :
    (k j : String) (v : Json) (m : Fields)
    → get j (set k v m) ≡ (if k == j then some v else get j m)
unfolding get set
get-set k j v end = refl
get-set k j v (field i w m) = ground (arith, eq_iff k j, eq_iff i k, eq_iff i j, get-set k j v m)

pub get-remove :
    (k j : String) (m : Fields) → get j (remove k m) ≡ (if k == j then none else get j m)
unfolding get remove
get-remove k j end = ground arith
get-remove k j (field i w m) = ground (arith, eq_iff k j, eq_iff i k, eq_iff i j, get-remove k j m)

pub get-remove_all :
    (ks : List String) (j : String) (m : Fields)
    → get j (remove_all ks m) ≡ (if one_of ks j then none else get j m)
unfolding remove_all one_of
get-remove_all [] j m = refl
get-remove_all (k ∷ ks) j m =
    ground (arith, eq_iff k j, eq_iff j k, get-remove_all ks j (remove k m), get-remove k j m)

get-patch_member :
    (k j : String) (v w : Json) (m : Fields)
    → (k == j) ≡ false
    → get j (patch_member k v w m) ≡ get j m
unfolding patch_member
get-patch_member k j null w m h = ground (arith, get-remove k j m)
get-patch_member k j _ w m h = ground (arith, get-set k j w m)

-- A merge leaves every member alone that its patch does not name.
pub get-merge_patch :
    (j : String) (p m : Fields) → get j p ≡ none → get j (merge_patch p m) ≡ get j m
unfolding get merge_patch
get-merge_patch j end m h = refl
get-merge_patch j (field k v p) m h = ground (
  arith,
  get-merge_patch j p (patch_member k v (merge_value v (get k m)) m),
  get-patch_member k j v (merge_value v (get k m)) m,
)

-- What a merge cannot touch: the members that were removed from its patch.
pub get-merge_patch-remove_all :
    (ks : List String) (j : String) (p m : Fields)
    → one_of ks j ≡ true
    → get j (merge_patch (remove_all ks p) m) ≡ get j m
get-merge_patch-remove_all ks j p m h =
    get-merge_patch j (remove_all ks p) m (ground (arith, get-remove_all ks j p))
