-- ===== src/Bench.antt =====
-- bench/: the parts of the benchmarks that keep a state of their own.
pub mod Barrier
pub mod Measure
pub mod Config
pub mod Placement
pub mod Memory
