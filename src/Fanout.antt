-- ===== src/Fanout.antt =====
-- tools/serverless/fanout.py: one aggregate fanned out over workers, and their answers merged.
pub mod Split
pub mod Merge
pub mod Order
pub mod Plan
pub mod Run
pub mod Commas
