-- ===== src/Jobs.antt =====
-- The jobs controller (selfprivacy_api/jobs/__init__.py) and the jobs that use it.
pub mod Model
pub mod Store
pub mod Lifecycle
pub mod Updated
pub mod Reach
mod Tests
