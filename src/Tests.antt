-- ===== src/Tests.antt =====
-- A concrete SDK, and the theorems at concrete inputs.
pub mod Store
mod Testnet
pub mod Sample
pub mod Data
mod Codecs
mod Blocks
pub mod Messages
mod Module
pub mod Chain
mod Application
mod Accounts
mod Gateway
mod Liveness
