-- ===== src/Jobs.antt =====
-- Worker Jobs and their queue: services/github-action-service/app/ci_database.py.
pub mod Queue
pub mod Create
pub mod Lease
pub mod Finish
pub mod Recover
pub mod Apart
pub mod Steps
pub mod Fencing
pub mod Leasing
pub mod Recovered
pub mod Workers
