-- ===== src/Devices.antt =====
-- Trust in a merchant's paired devices: src/services/device-policy.ts.
pub mod Policy
pub mod Store
pub mod Overrides
mod Tests
