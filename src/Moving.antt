-- ===== src/Moving.antt =====
-- Moving the data of a service to another volume (selfprivacy_api/services/moving.py,
-- selfprivacy_api/services/owned_path.py and the methods of `Service` that use them).
pub mod Volume
pub mod Bind
pub mod Move
pub mod Keeps
pub mod Location
pub mod Drive
pub mod Service
mod Tests
