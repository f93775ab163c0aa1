-- ===== src/Migrations.antt =====
-- The migrations that run before every start: selfprivacy_api/migrations/__init__.py, and
-- `CheckForSystemRebuildJobs` and `WriteTokenToRedis` beside it.
pub mod Run
pub mod InitialToken
