-- ===== src/Storage.antt =====
-- storage/
pub mod ForwardJobs
pub mod Rotation
pub mod Runs
