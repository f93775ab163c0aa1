-- ===== src/System.antt =====
-- The rebuild of the system by a systemd unit (selfprivacy_api/jobs/upgrade_system.py), and its
-- settings (selfprivacy_api/actions/system.py).
pub mod Rebuild
pub mod Preferences
