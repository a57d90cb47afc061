-- ===== src/Messages.antt =====
-- The messages of x/schedule/types/*.pb.go: their fields, and `Size`, `Marshal` and `Unmarshal`.
pub mod ScheduledCall
pub mod MsgRemoveSchedule
pub mod MsgAddSchedule
pub mod QueryScheduledCall
pub mod NoFields
pub mod Params
pub mod Event
pub mod Settling
