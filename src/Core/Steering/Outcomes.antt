-- ===== src/Core/Steering/Outcomes.antt =====
-- Which guidance a handler ends as rejected, so that its text may be sent again.
use agent_chat_bridge.Prelude.{String, Bool, true, false, ◌==◌, some, ok, ◌≡◌}
use agent_chat_bridge.Json.{Json}
use agent_chat_bridge.Storage.Runs.{Steer, Store}
use agent_chat_bridge.Storage.Runs.Leases.{LeaseInput}
use agent_chat_bridge.Core.Steering.{
  SteerReply, replied, refused_with, SteerEnd, not_steered, steered, unconfirmed, failed,
  get_steer_attempt,
}

abbrev pub is_rejected : SteerEnd → Bool
is_rejected not_steered = false
is_rejected (steered outcome) = outcome == "rejected"
is_rejected unconfirmed = false
is_rejected (failed e) = false

abbrev pub is_refusal : SteerReply → Bool
is_refusal (replied turn) = false
is_refusal (refused_with outcome) = outcome == "rejected"

-- The newest guidance of the job is there with the status `rejected`.
abbrev pub IsRecorded : String → LeaseInput → Store → Type 0
IsRecorded connection input t =
    (s : Steer) × (get_steer_attempt connection input.id t ≡ ok (some s))
    × ((s.status == "rejected") ≡ true)
