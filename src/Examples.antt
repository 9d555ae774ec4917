-- ===== src/Examples.antt =====
-- The theorems at concrete inputs.
pub mod Data
pub mod Keys
pub mod Start
pub mod Settings
pub mod Cli
pub mod TenantKeys
pub mod Tenants
pub mod Auth
pub mod Gates
pub mod Content
pub mod Usage
pub mod Dictionary
pub mod Handlers
