-- ===== src/Agents/Idle.antt =====
-- agents/codex/idle-lifecycle.mjs: IdleLifecycle, which closes the agent's process once nothing has
-- used it for a while. `held` lists the release functions that were handed out and not yet called,
-- each by a number, and `idle_notices` counts the calls of `onIdle`; the call of `close` is a parameter
-- that ends at some later step.
pub mod Laws
pub mod Once
mod Witnesses
use agent_chat_bridge.Prelude.{
  ℕ, ◌+◌, ◌-◌, Bool, true, false, not, ◌&&◌, ◌||◌, Option, none, some, List, [], ◌∷◌, nat_eq, ltb,
  if◌then◌else◌, any, ◌≡◌,
}

pub record Lifecycle : Type 0 where
  pub active : ℕ
  pub timer : Bool
  pub closing : Bool
  pub stopped : Bool
  pub held : List ℕ
  pub next : ℕ
  pub idle_notices : ℕ

-- constructor
abbrev pub new_lifecycle : Lifecycle
new_lifecycle = record {
  active = 0;
  timer = false;
  closing = false;
  stopped = false;
  held = [];
  next = 0;
  idle_notices = 0;
}

-- stop
unfoldable pub stop : Lifecycle → Lifecycle
stop s = record s { stopped = true; timer = false }

-- hold, and the number of the release function that it returns
unfoldable pub hold : Lifecycle → ℕ × Lifecycle
hold s = (
  s.next,
  record s { timer = false; active = s.active + 1; held = s.next ∷ s.held; next = s.next + 1 },
)

abbrev pub is_held : ℕ → List ℕ → Bool
is_held t held = any (nat_eq t) held

unfoldable pub drop_release : ℕ → List ℕ → List ℕ
drop_release t [] = []
drop_release t (u ∷ us) = if nat_eq t u then us else u ∷ drop_release t us

-- The function that hold returns: its first call releases, a later one does nothing.
unfoldable pub release : ℕ → ℕ → Lifecycle → Lifecycle
unfolding drop_release
release idle_ms t s =
    if is_held t s.held
    then record s {
      active = s.active - 1;
      held = drop_release t s.held;
      timer = if nat_eq (s.active - 1) 0 && not s.stopped && ltb 0 idle_ms then true else s.timer;
      idle_notices =
          if nat_eq (s.active - 1) 0 && not s.stopped then s.idle_notices + 1 else s.idle_notices;
    }
    else s

-- closeIfIdle up to the call of close
unfoldable pub close_if_idle : Lifecycle → Lifecycle
close_if_idle s =
    if ltb 0 s.active || s.closing then s else record s { timer = false; closing = true }

-- The part of run before its operation, once it does not wait for a close.
unfoldable pub run : Lifecycle → Option (ℕ × Lifecycle)
unfolding hold
run s = if s.stopped || s.closing then none else some (hold s)

-- One step of a lifecycle. The timer fires once, and close ends.
pub data Step (idle_ms : ℕ) (s : Lifecycle) : Lifecycle → Type 0 where
  stops : Step idle_ms s (stop s)
  holds : Step idle_ms s (hold s).1
  runs : (t : ℕ) (s' : Lifecycle) → run s ≡ some (t, s') → Step idle_ms s s'
  releases : (t : ℕ) → Step idle_ms s (release idle_ms t s)
  fires : s.timer ≡ true → Step idle_ms s (close_if_idle (record s { timer = false }))
  closes : Step idle_ms s (record s { closing = false })

pub data Reach (idle_ms : ℕ) : Lifecycle → Type 0 where
  starts : Reach idle_ms new_lifecycle
  next_step : {s s' : Lifecycle} → Reach idle_ms s → Step idle_ms s s' → Reach idle_ms s'
