-- ===== src/Panel.antt =====
-- The sessions of the user panel (selfprivacy_api/userpanel/auth/session.py).
pub mod Session
pub mod Lifetime
mod Tests
