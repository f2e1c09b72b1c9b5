-- ===== src/Tests.antt =====
-- The definitions at concrete inputs, and the theorems at inputs that meet their hypotheses.
mod Syntax
mod Input
mod Commands
mod Caps
mod Console
mod Query
mod Async
mod Correlate
mod Report
mod Session
