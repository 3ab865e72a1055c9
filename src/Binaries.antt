-- ===== src/Binaries.antt =====
-- src/bin: the command line client, the benchmark and the server's entry point.
pub mod Text
pub mod Cli
pub mod Benchmark
pub mod Environment
