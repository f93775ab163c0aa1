-- ===== src/Tokens.antt =====
-- Access tokens, recovery keys and new device keys: models, the Redis repository and the actions.
pub mod Models
pub mod Names
pub mod Repo
pub mod Reading
pub mod Actions
pub mod Invariant
pub mod Recovery
pub mod Flow
pub mod Devices
mod Tests
