-- ===== src/Tests.antt =====
-- Runs of the model at concrete inputs.
mod Memory
mod Capture
mod Outputs
mod Profile
mod Tables
mod Processes
mod Threads
mod Runs
mod Services
mod Programs
mod Screens
