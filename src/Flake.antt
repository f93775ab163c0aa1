-- ===== src/Flake.antt =====
-- The inputs of the local NixOS flake (selfprivacy_api/services/flake_service_manager.py).
pub mod Inputs
pub mod RoundTrip
mod Tests
