-- ===== src/Registry.antt =====
-- The registry of services: selfprivacy_api/services/__init__.py.
pub mod Templates
pub mod Services
pub mod Fresh
pub mod Lookup
pub mod ById
mod Tests
pub mod Stash
