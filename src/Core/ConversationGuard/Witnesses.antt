-- ===== src/Core/ConversationGuard/Witnesses.antt =====
-- A cleanup that native calls wait for.
use agent_chat_bridge.Prelude.{List, [], ◌∷◌, ◌≡◌, ◌⊎◌, arith}
use agent_chat_bridge.Core.ConversationGuard.{
  Guard, no_calls, enter_native, enter_cleanup, Turn, native, cleanup, cleanup_done, turn, turns,
}
use agent_chat_bridge.Core.ConversationGuard.Laws.{resumes, turns-exclusive, turns-released}

abbrev turns_example : List Turn
turns_example = cleanup ∷ native ∷ cleanup ∷ native ∷ []

abbrev guard_example : Guard
guard_example = turns turns_example no_calls

turns-exclusive_example :
    (guard_example.cleaning ≡ 0) ⊎ ((guard_example.cleaning ≡ 1) × (guard_example.running ≡ 0))
turns-exclusive_example = turns-exclusive turns_example

turns-released_example :
    (guard_example.cleaning ≡ 1)
    × ((turn cleanup_done guard_example).waiting ≡ 0)
    × ((turn cleanup_done guard_example).released ≡ guard_example.waiting)
    × ((turns (cleanup_done ∷ resumes guard_example.waiting) guard_example).running
        ≡ guard_example.waiting)
unfolding turns turn enter_native enter_cleanup
turns-released_example = turns-released turns_example (ground arith)
