-- ===== src/Bench.antt =====
-- bench/: which repetitions a host disturbed, and the score of a lane.
pub mod Names
pub mod Stalls
pub mod Export
pub mod Score
pub mod Lane
pub mod Quick
pub mod Requests
