-- ===== src/Agents.antt =====
-- The parts of agents/codex/ that keep state of their own.
pub mod Idle
