-- ===== src/Output.antt =====
-- src/output: where samples go.
pub mod Writer
pub mod Stacks
pub mod Folded
pub mod Pprof
pub mod PprofSink
pub mod Config
pub mod Sink
pub mod Pyroscope
pub mod Build
