-- ===== src/Core/PrivateAdmission/Memory.antt =====
-- The bounded maps of core/private-admission.mjs: `remember` and the Map operations that it uses, a
-- Map as its entries in insertion order.
use agent_chat_bridge.Prelude.{
  ℕ, ◌+◌, ◌≤◌, ◌<◌, String, true, false, Option, none, some, List, [], ◌∷◌, ◌++◌, ◌==◌, ◌≡◌,
  if◌then◌else◌, ltb, length, All, arith, refl, eq_iff, Bool-cases, either_branch, subst, ap₂, inl,
  inr,
}

module _ {V : Type 0} where
  -- `map.get(k)`
  unfoldable pub find_key : String → List (String × V) → Option V
  find_key k [] = none
  find_key k ((j, v) ∷ m) = if j == k then some v else find_key k m

  -- `map.delete(k)`
  unfoldable pub delete_key : String → List (String × V) → List (String × V)
  delete_key k [] = []
  delete_key k ((j, v) ∷ m) = if j == k then delete_key k m else (j, v) ∷ delete_key k m

  -- `while (map.size > limit) map.delete(map.keys().next().value)`
  unfoldable pub drop_oldest : ℕ → List (String × V) → List (String × V)
  drop_oldest limit [] = []
  drop_oldest limit (e ∷ m) = if ltb limit (length (e ∷ m)) then drop_oldest limit m else e ∷ m

  -- remember
  unfoldable pub remember : ℕ → String → V → List (String × V) → List (String × V)
  unfolding delete_key drop_oldest
  remember limit k v m = drop_oldest limit (delete_key k m ++ (k, v) ∷ [])

  -- A sequence of such writes, the first one first.
  unfoldable pub remember_all : ℕ → List (String × V) → List (String × V) → List (String × V)
  unfolding remember
  remember_all limit [] m = m
  remember_all limit ((k, v) ∷ writes) m = remember_all limit writes (remember limit k v m)

  -- The entries written after that of a key.
  unfoldable age : String → List (String × V) → ℕ
  age k [] = 0
  age k ((j, v) ∷ m) = if j == k then length m else age k m

  -- The key is there, and at most `n` entries are younger.
  record IsRecent (k : String) (v : V) (n : ℕ) (m : List (String × V)) : Type 0 where
    there : find_key k m ≡ some v
    young : age k m ≤ n

  length-drop_oldest : (limit : ℕ) (m : List (String × V)) → length (drop_oldest limit m) ≤ limit
  unfolding drop_oldest
  length-drop_oldest limit [] = ground arith
  length-drop_oldest limit (e ∷ m) = ground (arith, length-drop_oldest limit m)

  -- No write makes a map larger than its limit.
  pub length-remember :
      (limit : ℕ) (k : String) (v : V) (m : List (String × V))
      → length (remember limit k v m) ≤ limit
  unfolding remember
  length-remember limit k v m = length-drop_oldest limit _

  age-lt-length :
      (k : String) (m : List (String × V)) {v : V} → find_key k m ≡ some v → age k m < length m
  unfolding find_key age
  age-lt-length k [] e = cc
  age-lt-length k ((j, w) ∷ m) {v = v} e = elim (Bool-cases (j == k)) [
    | inl same ↦ rw same (ground arith)
    | inr other ↦ rw other (let shorter = age-lt-length k m {v = v} (rw other at e) in ground arith)
  ]

  drop_oldest-IsRecent :
      (limit : ℕ) (k : String) (v : V) (n : ℕ) (m : List (String × V))
      → n < limit
      → IsRecent k v n m
      → IsRecent k v n (drop_oldest limit m)
  unfolding drop_oldest find_key age
  drop_oldest-IsRecent limit k v n [] h r = r
  drop_oldest-IsRecent limit k v n ((j, w) ∷ m) h r =
      elim (Bool-cases (ltb limit (length ((j, w) ∷ m)))) [
        | inl over ↦ elim (Bool-cases (j == k)) [
          | inl same ↦ let young = rw same at r.young in absurd (ground arith)
          | inr other ↦ rw over (
              drop_oldest-IsRecent limit k v n m h
                (record { there = rw other at r.there; young = rw other at r.young }))
        ]
        | inr fits ↦ rw fits r
      ]

  length-delete_key : (k : String) (m : List (String × V)) → length (delete_key k m) ≤ length m
  unfolding delete_key
  length-delete_key k [] = ground arith
  length-delete_key k ((j, v) ∷ m) = ground (arith, length-delete_key k m)

  delete_key-IsRecent :
      (k j : String) (v : V) (n : ℕ) (m : List (String × V))
      → (j == k) ≡ false
      → IsRecent k v n m
      → IsRecent k v n (delete_key j m)
  unfolding delete_key find_key age
  delete_key-IsRecent k j v n [] h r = r
  delete_key-IsRecent k j v n ((i, w) ∷ m) h r = elim (Bool-cases (i == k)) [
    | inl same ↦
        let kept : (i == j) ≡ false = ground (arith, eq_iff i k, eq_iff i j, eq_iff j k) in
        rw kept (record {
          there = rw same (rw same at r.there);
          young = rw same (
              let before = rw same at r.young in
              let shorter = length-delete_key j m in ground arith);
        })
    | inr other ↦
        let rest =
          delete_key-IsRecent k j v n m h
            (record { there = rw other at r.there; young = rw other at r.young }) in
        elim (Bool-cases (i == j)) [
          | inl gone ↦ rw gone rest
          | inr kept ↦ rw kept (record { there = rw other rest.there; young = rw other rest.young })
        ]
  ]

  length-append : (m : List (String × V)) (e : String × V) → length (m ++ e ∷ []) ≡ length m + 1
  length-append [] e = refl
  length-append (x ∷ m) e = ground (arith, length-append m e)

  append-IsRecent :
      (k j : String) (v w : V) (n : ℕ) (m : List (String × V))
      → IsRecent k v n m
      → IsRecent k v (n + 1) (m ++ (j, w) ∷ [])
  unfolding find_key age
  append-IsRecent k j v w n [] r = cc r.there
  append-IsRecent k j v w n ((i, u) ∷ m) r = elim (Bool-cases (i == k)) [
    | inl same ↦ record {
      there = rw same (rw same at r.there);
      young =
          rw same (
            let before = rw same at r.young in let longer = length-append m (j, w) in ground arith);
    }
    | inr other ↦
        let rest =
          append-IsRecent k j v w n m
            (record { there = rw other at r.there; young = rw other at r.young }) in
        record { there = rw other rest.there; young = rw other rest.young }
  ]

  appended-IsRecent :
      (k : String) (v : V) (n : List (String × V)) → IsRecent k v 0 (delete_key k n ++ (k, v) ∷ [])
  unfolding delete_key find_key age
  appended-IsRecent k v [] =
      let same : (k == k) ≡ true = ground (arith, eq_iff k k) in
      record { there = rw same refl; young = rw same (ground arith) }
  appended-IsRecent k v ((i, w) ∷ n) = elim (Bool-cases (i == k)) [
    | inl gone ↦ rw gone (appended-IsRecent k v n)
    | inr kept ↦
        let rest = appended-IsRecent k v n in
        rw kept (record { there = rw kept rest.there; young = rw kept rest.young })
  ]

  -- The entry just written is the youngest.
  written-IsRecent :
      (limit : ℕ) (k : String) (v : V) (m : List (String × V))
      → 0 < limit
      → IsRecent k v 0 (remember limit k v m)
  unfolding remember
  written-IsRecent limit k v m h = drop_oldest-IsRecent limit k v 0 _ h (appended-IsRecent k v m)

  writes-IsRecent :
      (limit n : ℕ) (k : String) (v : V) (writes m : List (String × V))
      → n + length writes < limit
      → All (λ w. (w.0 == k) ≡ false) writes
      → IsRecent k v n m
      → find_key k (remember_all limit writes m) ≡ some v
  unfolding remember_all remember
  writes-IsRecent limit n k v [] m h apart r = r.there
  writes-IsRecent limit n k v ((j, w) ∷ writes) m h apart r =
      writes-IsRecent limit (n + 1) k v writes (remember limit j w m) (ground arith) apart.1 (
        drop_oldest-IsRecent limit k v (n + 1) _ (ground arith)
          (append-IsRecent k j v w n _ (delete_key-IsRecent k j v n m apart.0 r)))

  -- What is remembered under a key is found there until as many other keys as the limit are
  -- remembered after it.
  pub remember_survives :
      (limit : ℕ) (k : String) (v : V) (writes m : List (String × V))
      → length writes < limit
      → All (λ w. (w.0 == k) ≡ false) writes
      → find_key k (remember_all limit writes (remember limit k v m)) ≡ some v
  remember_survives limit k v writes m h apart =
      writes-IsRecent limit 0 k v writes (remember limit k v m) (ground arith) apart
        (written-IsRecent limit k v m (ground arith))

  drop_oldest-All :
      (P : String × V → Type 0) (limit : ℕ) (m : List (String × V))
      → All P m
      → All P (drop_oldest limit m)
  unfolding drop_oldest
  drop_oldest-All P limit [] h = tt
  drop_oldest-All P limit (e ∷ m) h =
      either_branch (All P) (ltb limit (length (e ∷ m))) _ _ (λ _. drop_oldest-All P limit m h.1)
        (λ _. h)

  written-All :
      (P : String × V → Type 0) (k : String) (v : V) (m : List (String × V))
      → All P m
      → P (k, v)
      → All P (delete_key k m ++ (k, v) ∷ [])
  unfolding delete_key
  written-All P k v [] h p = (p, tt)
  written-All P k v ((j, w) ∷ m) h p =
      let rest = written-All P k v m h.1 p in
      elim (Bool-cases (j == k)) [ inl gone ↦ rw gone rest | inr kept ↦ rw kept (h.0, rest) ]

  -- What holds of the entries of a map and of a new entry holds after the entry is remembered.
  pub remember-All :
      (P : String × V → Type 0) (limit : ℕ) (k : String) (v : V) (m : List (String × V))
      → All P m
      → P (k, v)
      → All P (remember limit k v m)
  unfolding remember
  remember-All P limit k v m h p = drop_oldest-All P limit _ (written-All P k v m h p)

  pub find_key-All :
      (P : String × V → Type 0) (k : String) (m : List (String × V)) {v : V}
      → find_key k m ≡ some v
      → All P m
      → P (k, v)
  unfolding find_key
  find_key-All P k [] e h = cc
  find_key-All P k ((j, w) ∷ m) {v = v} e h = elim (Bool-cases (j == k)) [
    | inl same ↦
        let at : j ≡ k = ground (arith, eq_iff j k) in
        let value : w ≡ v = cc (rw same at e) in subst P (ap₂ (λ a b. (a, b)) at value) h.0
    | inr other ↦ find_key-All P k m {v = v} (rw other at e) h.1
  ]
