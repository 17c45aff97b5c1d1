-- ===== src/Core.antt =====
-- The parts of core/ that decide without the store.
pub mod PrivateAdmission
pub mod ConversationGuard
pub mod ThreadAdmission
pub mod Steering
