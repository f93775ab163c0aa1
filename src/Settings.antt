-- ===== src/Settings.antt =====
-- The settings of a service: selfprivacy_api/services/config_item.py, and the subdomain test of
-- selfprivacy_api/utils/__init__.py.
mod Tests
pub mod Items
pub mod Stored
pub mod Subdomains
