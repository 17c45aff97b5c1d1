-- ===== src/Agents/Idle/Witnesses.antt =====
-- The theorems on the idle lifecycle after one use.
use agent_chat_bridge.Prelude.{true, [], ◌∷◌, ◌≡◌}
use agent_chat_bridge.Agents.Idle.{
  Lifecycle, new_lifecycle, hold, drop_release, release, Reach, starts, next_step, holds, releases,
}
use agent_chat_bridge.Agents.Idle.Laws.{IsCounted, Reach-IsCounted}
use agent_chat_bridge.Agents.Idle.Once.{release_again}

abbrev used_once : Lifecycle
used_once = record new_lifecycle { timer = true; next = 1; idle_notices = 1 }

in_use_example : Reach 60000 (record new_lifecycle { active = 1; held = 0 ∷ []; next = 1 })
unfolding hold
in_use_example = next_step starts holds

Reach-IsCounted_example : IsCounted used_once
unfolding release drop_release
Reach-IsCounted_example = Reach-IsCounted 60000 used_once (next_step in_use_example (releases 0))

release_again_example :
    release 60000 0 (release 60000 0 (record new_lifecycle { active = 1; held = 0 ∷ []; next = 1 }))
    ≡ used_once
unfolding release drop_release
release_again_example =
    release_again 60000 0 (record new_lifecycle { active = 1; held = 0 ∷ []; next = 1 })
      in_use_example
