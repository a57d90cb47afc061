-- ===== src/Schedule/Handler.antt =====
-- The routing of messages: x/schedule/handler.go.
use burnt.Base.{err, unknown_request, []}
use burnt.Base.Call.{Call}
use burnt.Sdk.{Sdk}
use burnt.Messages.MsgAddSchedule.{MsgAddSchedule}
use burnt.Messages.MsgRemoveSchedule.{MsgRemoveSchedule}
use burnt.Schedule.World.{World}
use burnt.Schedule.MsgServer.{add_schedule}

-- The messages of the module's Msg service.
pub data Msg : Type 0 where
  add : MsgAddSchedule → Msg
  remove : MsgRemoveSchedule → Msg

module _ (sdk : Sdk) where
  -- `ctx.WithEventManager(sdk.NewEventManager())`: the handler starts with no events. Its switch has
  -- a case for one of the two messages.
  unfoldable pub handler : Msg → Call (World sdk) (Unit {0})
  handler (add msg) w = add_schedule sdk msg (record w { events = [] })
  handler (remove msg) w = (err unknown_request, record w { events = [] })
