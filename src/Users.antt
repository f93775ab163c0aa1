-- ===== src/Users.antt =====
-- Users in userdata.json and their SSH keys.
pub mod Data
pub mod Repo
pub mod Ssh
pub mod Keys
pub mod Accounts
mod Tests
