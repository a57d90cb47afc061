-- ===== src/Messages/Settling.antt =====
-- `Unmarshal` of the messages of x/schedule/types/*.pb.go with fields of bytes, text and numbers, on
-- inputs of any form.
use burnt.Base.{◌≢◌, Result, panic, stuck}
use burnt.Messages.ScheduledCall
use burnt.Messages.MsgAddSchedule
use burnt.Messages.MsgRemoveSchedule
use burnt.Messages.QueryScheduledCall

-- A call that returns a value or an error.
abbrev pub Settles : {A : Type 0} → Result A → Type 0
Settles r = (r ≢ panic) × (r ≢ stuck)
