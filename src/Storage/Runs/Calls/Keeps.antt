-- ===== src/Storage/Runs/Calls/Keeps.antt =====
-- What every operation keeps of the sessions and of the owners of threads.
use agent_chat_bridge.Prelude.{
  ℕ, ◌≤◌, String, Bool, Option, none, some, List, [], ◌∷◌, ◌++◌, ltb, affected, find?, update,
  insert_once, Ensures, ensures, refused, Ensures->>, ◌≡◌, refl, sym, ◌∙◌, ◌⊎◌, inl, inr, arith,
  Bool-cases, Persist, Persist-refl, Persist-trans, Persist-update, Persist-append,
  Persist-insert_once, session_conflict,
}
use agent_chat_bridge.Storage.ForwardJobs.{Ensures-required}
use agent_chat_bridge.Storage.Rotation.{BridgeSession}
use agent_chat_bridge.Storage.Runs.{Attempt, ThreadOwner, Store, is_session_of, is_attempt}
use agent_chat_bridge.Storage.Runs.Leases.{
  claim_thread, new_owner, is_owner, release_on, release_attempt, is_active_session,
}

abbrev pub SessionAdvances : BridgeSession → BridgeSession → Type 0
SessionAdvances s s' = s.generation ≤ s'.generation

-- The same owner; a time of retirement stays.
abbrev pub OwnerKept : ThreadOwner → ThreadOwner → Type 0
OwnerKept o o' =
    (o'.conversation_id ≡ o.conversation_id)
    × (o'.agent_id ≡ o.agent_id)
    × ((o.resource_retired_at ≡ none) ⊎ (o'.resource_retired_at ≡ o.resource_retired_at))

abbrev pub SessionsKept : List BridgeSession → List BridgeSession → Type 0
SessionsKept xs ys =
    (connection conversation agent : String)
    → Persist (is_session_of connection conversation agent) SessionAdvances xs ys

abbrev pub OwnersKept : List ThreadOwner → List ThreadOwner → Type 0
OwnersKept xs ys =
    (connection thread : String) → Persist (is_owner connection thread) OwnerKept xs ys

-- A session that is found keeps its row and its generation does not fall; a thread that has an owner
-- keeps it, and once its resources are retired they stay so.
abbrev pub Keeps : Store → Store → Type 0
Keeps t t' = SessionsKept t.sessions t'.sessions × OwnersKept t.owners t'.owners

session_same : (s : BridgeSession) → SessionAdvances s s
session_same s = omega arith

owner_same : (o : ThreadOwner) → OwnerKept o o
owner_same o = (refl, refl, inr refl)

pub sessions_same : (xs : List BridgeSession) → SessionsKept xs xs
sessions_same xs c v a = Persist-refl _ SessionAdvances session_same xs

pub owners_same : (xs : List ThreadOwner) → OwnersKept xs xs
owners_same xs c thread = Persist-refl _ OwnerKept owner_same xs

pub Keeps-refl : (t : Store) → Keeps t t
Keeps-refl t = (sessions_same t.sessions, owners_same t.owners)

pub sessions_then :
    (xs ys zs : List BridgeSession) → SessionsKept xs ys → SessionsKept ys zs → SessionsKept xs zs
sessions_then xs ys zs h k c v a =
    Persist-trans _ SessionAdvances (λ x y z r r'. omega (arith, r, r')) xs ys zs (h c v a)
      (k c v a)

owner_then : (x y z : ThreadOwner) → OwnerKept x y → OwnerKept y z → OwnerKept x z
owner_then x y z (c, a, inl r) (c', a', how) = (c' ∙ c, a' ∙ a, inl r)
owner_then x y z (c, a, inr r) (c', a', inl r') = (c' ∙ c, a' ∙ a, inl (sym r ∙ r'))
owner_then x y z (c, a, inr r) (c', a', inr r') = (c' ∙ c, a' ∙ a, inr (r' ∙ r))

pub owners_then :
    (xs ys zs : List ThreadOwner) → OwnersKept xs ys → OwnersKept ys zs → OwnersKept xs zs
owners_then xs ys zs h k c thread =
    Persist-trans _ OwnerKept owner_then xs ys zs (h c thread) (k c thread)

pub Keeps-trans : (t u v : Store) → Keeps t u → Keeps u v → Keeps t v
Keeps-trans t u v (s, o) (s', o') = (
  sessions_then t.sessions u.sessions v.sessions s s',
  owners_then t.owners u.owners v.owners o o',
)

-- The columns of a session's key.
abbrev pub KeepsKey : (BridgeSession → BridgeSession) → Type 0
KeepsKey f =
    (c v a : String) (s : BridgeSession) → is_session_of c v a (f s) ≡ is_session_of c v a s

pub sessions_update :
    (q : BridgeSession → Bool) (f : BridgeSession → BridgeSession)
    → KeepsKey f
    → ((s : BridgeSession) → s.generation ≤ (f s).generation)
    → (xs : List BridgeSession) → SessionsKept xs (update q f xs)
sessions_update q f key up xs c v a =
    Persist-update _ q f SessionAdvances session_same (key c v a) xs (λ x _ _. up x)

pub sessions_append :
    (row : BridgeSession) (xs : List BridgeSession) → SessionsKept xs (xs ++ row ∷ [])
sessions_append row xs c v a = Persist-append _ SessionAdvances session_same row xs

pub sessions_insert :
    (q : BridgeSession → Bool) (row : BridgeSession) (xs : List BridgeSession)
    → SessionsKept xs (insert_once q row xs)
sessions_insert q row xs c v a = Persist-insert_once _ q SessionAdvances session_same row xs

pub owners_update :
    (q : ThreadOwner → Bool) (f : ThreadOwner → ThreadOwner)
    → ((c thread : String) (o : ThreadOwner) → is_owner c thread (f o) ≡ is_owner c thread o)
    → ((o : ThreadOwner) → OwnerKept o (f o))
    → (xs : List ThreadOwner) → OwnersKept xs (update q f xs)
owners_update q f key up xs c thread =
    Persist-update _ q f OwnerKept owner_same (key c thread) xs (λ x _ _. up x)

-- claimThread adds an owner where there is none.
pub claim_thread-Keeps :
    (connection conversation agent : String) (thread : Option String) (owners : List ThreadOwner)
    → Ensures (OwnersKept owners) (claim_thread connection conversation agent thread owners)
unfolding claim_thread
claim_thread-Keeps connection conversation agent none owners =
    ensures (OwnersKept owners) (owners_same owners)
claim_thread-Keeps connection conversation agent (some id) owners =
    Ensures-required (OwnersKept owners) id 255 _ (
      Ensures->> (OwnersKept owners) _ _ (
        ensures (OwnersKept owners) (λ c thread.
          Persist-insert_once _ (is_owner connection id) OwnerKept owner_same
            (new_owner connection conversation agent id) owners)))

release_on-Keeps :
    (a : Option Attempt) (job : String) (at : ℕ) (t : Store)
    → Ensures (Keeps t) (release_on a job at t)
unfolding release_on
release_on-Keeps none job at t = ensures (Keeps t) (Keeps-refl t)
release_on-Keeps (some a) job at t =
    elim (Bool-cases (ltb 0 (affected (is_active_session a job) t.sessions))) [
      | inl free ↦ rw free (
          ensures (Keeps t) (
            sessions_update (is_active_session a job) _ (λ c v g s. refl) (λ s. omega arith)
                t.sessions,
            owners_same t.owners,
          ))
      | inr other ↦ rw other (refused (Keeps t) session_conflict)
    ]

-- releaseAttempt frees a session and leaves its generation.
pub release_attempt-Keeps :
    (job : String) (at : ℕ) (t : Store) → Ensures (Keeps t) (release_attempt job at t)
unfolding release_attempt
release_attempt-Keeps job at t = release_on-Keeps (find? (is_attempt job) t.attempts) job at t
