-- ===== src/Actions.antt =====
-- The actions on users (selfprivacy_api/actions/users.py): checks of names, the users of the
-- active provider, and what is kept beside it in userdata.json and in Redis.
pub mod Names
pub mod Provider
pub mod Accounts
pub mod Users
pub mod Groups
pub mod Creation
pub mod Deletion
mod Tests
