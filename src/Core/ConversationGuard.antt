-- ===== src/Core/ConversationGuard.antt =====
-- core/conversation-guard.mjs: createConversationGuard, for one conversation id; the entries of other
-- ids are independent. A call is cut at its awaits: a native call enters, waits for a cleanup if one
-- runs, runs its operation and leaves; a cleanup enters, runs and leaves.
pub mod Laws
mod Witnesses
use agent_chat_bridge.Prelude.{
  ℕ, ◌+◌, ◌-◌, Bool, true, false, not, ◌&&◌, ◌||◌, Option, none, some, List, [], ◌∷◌, nat_eq, ltb,
  if◌then◌else◌,
}

-- The object of an id in `entries`.
pub record GuardEntry : Type 0 where
  pub native : ℕ
  pub cleanup : Bool

-- `entries.get(id)`, and the calls by where they stand: native calls that await the promise of a
-- cleanup, native calls whose promise is resolved, native operations that run, cleanups that run.
pub record Guard : Type 0 where
  pub entry : Option GuardEntry
  pub waiting : ℕ
  pub released : ℕ
  pub running : ℕ
  pub cleaning : ℕ

abbrev pub no_calls : Guard
no_calls = record { entry = none; waiting = 0; released = 0; running = 0; cleaning = 0 }

-- entry
abbrev pub entry_of : Option GuardEntry → GuardEntry
entry_of none = record { native = 0; cleanup = false }
entry_of (some e) = e

-- prune
unfoldable pub prune : GuardEntry → Option GuardEntry
prune e = if nat_eq e.native 0 && not e.cleanup then none else some e

-- The first turn of native: reserve, then wait or run.
unfoldable pub enter_native : Guard → Guard
enter_native g =
    let e = entry_of g.entry in
    let reserved : GuardEntry = record e { native = e.native + 1 } in
    if e.cleanup
    then record g { entry = some reserved; waiting = g.waiting + 1 }
    else record g { entry = some reserved; running = g.running + 1 }

-- The first turn of cleanup: `false`, or the operation runs.
unfoldable pub enter_cleanup : Guard → Guard
enter_cleanup g =
    let e = entry_of g.entry in
    if not (nat_eq e.native 0) || e.cleanup
    then record g { entry = some e }
    else record g { entry = some (record e { cleanup = true }); cleaning = g.cleaning + 1 }

pub data Turn : Type 0 where
  native cleanup resume native_done cleanup_done : Turn

-- One turn of a call; a turn that no call can take changes nothing.
unfoldable pub turn : Turn → Guard → Guard
unfolding prune enter_native enter_cleanup
turn native g = enter_native g
turn cleanup g = enter_cleanup g
turn resume g =
    if nat_eq g.released 0
    then g
    else record g { released = g.released - 1; running = g.running + 1 }
turn native_done g =
    if nat_eq g.running 0
    then g
    else let e = entry_of g.entry in
      record g { entry = prune (record e { native = e.native - 1 }); running = g.running - 1 }
turn cleanup_done g =
    if nat_eq g.cleaning 0
    then g
    else let e = entry_of g.entry in
      record g {
        entry = prune (record e { cleanup = false });
        cleaning = g.cleaning - 1;
        released = g.released + g.waiting;
        waiting = 0;
      }

unfoldable pub turns : List Turn → Guard → Guard
unfolding turn
turns [] g = g
turns (t ∷ ts) g = turns ts (turn t g)
