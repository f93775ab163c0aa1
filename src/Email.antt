-- ===== src/Email.antt =====
-- The email passwords of the users: the store in Redis, the actions on it, and the check of a
-- password (selfprivacy_api/repositories/email_password/, selfprivacy_api/actions/email_passwords.py
-- and selfprivacy_api/utils/self_service_portal_utils.py).
pub mod Store
pub mod Keys
pub mod Checking
pub mod Passwords
mod Tests
