-- ===== src/Core/Steering/Witnesses.antt =====
-- A guidance of a running turn, after an end of the process and again.
use agent_chat_bridge.Prelude.{true, false, none, some, ◌≡◌, refl, find?, one_of}
use agent_chat_bridge.Storage.ForwardJobs.{js_length}
use agent_chat_bridge.Storage.Runs.Steering.{begin_steer_attempt, steer_field, latest}
use agent_chat_bridge.Storage.Runs.Witnesses.{hash_of, lease_b, busy_turn, guided_turn, guidance}
use agent_chat_bridge.Core.Steering.{SteerRun, replied, refused_with, begin_steer, steer}
use agent_chat_bridge.Core.Steering.Laws.{steer-once}

steer-once_example :
    (steer hash_of "feishu" false lease_b "more" (replied (some "tu")) false 8 9 guided_turn).sent
    ≡ none
unfolding begin_steer begin_steer_attempt steer_field js_length find? latest one_of
steer-once_example =
    steer-once hash_of "feishu" true false lease_b lease_b 7 8 9 busy_turn guided_turn guidance
      "more" (replied (some "tu")) false refl refl

abbrev rejected_run : SteerRun
rejected_run =
    steer hash_of "feishu" true lease_b "more" (refused_with "rejected") false 7 8 busy_turn
