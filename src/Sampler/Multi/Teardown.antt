-- ===== src/Sampler/Multi/Teardown.antt =====
-- The end of `run_multi`: once the stop flag is set, and however the threads go on.
pub mod Joins
pub mod Steps
pub mod Laws
