-- ===== src/Tests.antt =====
-- Runs at concrete inputs, and the theorems at inputs that meet their hypotheses.
mod Generation
mod Serving
mod Signing
mod Requests
mod Living
mod Lifecycle
mod Interleaving
mod Booting
mod Jobs
mod Settings
mod Helpers
mod Engine
mod Starting
mod Working
