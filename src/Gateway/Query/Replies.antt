-- ===== src/Gateway/Query/Replies.antt =====
-- What the routes of the Query service answer: x/schedule/types/query.pb.gw.go, in front of the
-- module's own query server.
use burnt.Base.{some}
use burnt.Sdk.{Sdk}
use burnt.Schedule.World.{World}
use burnt.Schedule.Query.{query_params, query_scheduled_calls}
use burnt.Gateway.Runtime.{Runtime}
use burnt.Gateway.Msg.Replies.{unwrapped}
use burnt.Gateway.Query.{QueryServer}

-- The keeper as the server of the queries: they read the world, and the request is there.
unfoldable pub query_server : (sdk : Sdk) (rt : Runtime (World sdk)) → QueryServer rt
query_server sdk rt = record {
  params = λ ctx request. unwrapped rt ctx (λ w. (query_params sdk (some request) w, w));
  scheduled_calls =
      λ ctx request. unwrapped rt ctx (λ w. (query_scheduled_calls sdk (some request) w, w));
}
