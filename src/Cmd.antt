-- ===== src/Cmd.antt =====
-- The node's command: cmd/burntd.
pub mod GenAccounts
pub mod Main
pub mod Root
