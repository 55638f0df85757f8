-- ===== src/Tests.antt =====
-- Concrete instances of what the theorems assume, and the theorems at concrete inputs.
pub mod Numbered
pub mod World
pub mod Database
pub mod Prefixes
pub mod Ranges
pub mod Web
pub mod Suites
pub mod Stores
pub mod Configs
pub mod Daemons
pub mod Theorems
