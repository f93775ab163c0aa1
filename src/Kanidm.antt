-- ===== src/Kanidm.antt =====
-- Users and groups that the identity server Kanidm keeps
-- (selfprivacy_api/repositories/users/kanidm_user_repository.py).
pub mod Server
pub mod Token
pub mod Query
pub mod Person
pub mod Repo
pub mod Retry
pub mod Reach
pub mod Visible
mod Tests
