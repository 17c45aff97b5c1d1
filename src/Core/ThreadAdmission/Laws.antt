-- ===== src/Core/ThreadAdmission/Laws.antt =====
-- A new thread takes the place of an archived one at most once.
use agent_chat_bridge.Prelude.{false, any, ◌≡◌}
use agent_chat_bridge.Json.{Json}
use agent_chat_bridge.Storage.Runs.{Store}
use agent_chat_bridge.Core.ThreadAdmission.{is_start, ThreadAdmission}

abbrev StaysAt : Store → ThreadAdmission → Type 0
StaysAt t admission = (any is_start admission.calls ≡ false) × (admission.tables ≡ t)
