-- ===== src/Schedule.antt =====
-- The module x/schedule: calls of contracts that are to be made at a block height.
pub mod Keys
pub mod World
pub mod Keeper
pub mod Consume
pub mod EndBlock
pub mod MsgServer
pub mod Handler
pub mod Genesis
pub mod Query
pub mod GasLimit
pub mod Command
pub mod Module
