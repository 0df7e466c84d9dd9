-- ===== src/Sampler.antt =====
-- src/sampler.rs: taking samples.
pub mod Leaf
pub mod Pace
pub mod Run
pub mod Worker
pub mod Start
pub mod Multi
pub mod Top
pub mod Signal
