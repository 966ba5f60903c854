-- ===== src/Tests.antt =====
-- Concrete runs of the stores, and the theorems applied to them.
mod Runs
mod Witnesses
mod Convergences
mod LogRuns
mod Replies
