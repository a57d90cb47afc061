-- ===== src/Messages/Event.antt =====
-- The events of x/schedule/types/event.pb.go. A coin is a pointer, which may be nil.
pub mod Added
pub mod Executed
pub mod Removed
use burnt.Base.{ℕ, Bytes, Option}
use burnt.Messages.Params.{Coin}

pub record AddScheduledCallEvent : Type 0 where
  pub block_height : ℕ
  pub scheduled_height : ℕ
  pub signer : Bytes
  pub contract : Bytes
  pub balance : Option Coin
  pub call_body : Bytes

pub record ExecuteScheduledCallEvent : Type 0 where
  pub block_height : ℕ
  pub gas : Option Coin
  pub signer : Bytes
  pub contract : Bytes
  pub balance_before : Option Coin
  pub call_body : Bytes

pub record RemoveScheduledCallEvent : Type 0 where
  pub block_height : ℕ
  pub signer : Bytes
  pub contract : Bytes
  pub balance : Option Coin
  pub call_body : Bytes

-- What the keeper hands to `EmitTypedEvent`.
pub data Event : Type 0 where
  added : AddScheduledCallEvent → Event
  executed : ExecuteScheduledCallEvent → Event
  removed : RemoveScheduledCallEvent → Event
