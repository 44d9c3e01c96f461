-- ===== src/Ctrlq.antt =====
-- internal/ctrlq: the work queue that hands out visits at the rate that each host bears.
pub mod Job
pub mod Hosts
pub mod Limiter
pub mod Controlled
pub mod Optimizer
pub mod Memory
pub mod Promoter
pub mod Wakeups
pub mod History
pub mod Arrival
