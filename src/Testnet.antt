-- ===== src/Testnet.antt =====
-- integration_tests: the network of test validators that the suites start.
pub mod Files
pub mod Tools
pub mod Validator
pub mod Chain
pub mod Transactions
pub mod Genesis
