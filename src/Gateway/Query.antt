-- ===== src/Gateway/Query.antt =====
-- The gateway of the Query service: x/schedule/types/query.pb.gw.go.
pub mod Replies
use burnt.Base.{Option, none, some, String, List, [], ◌∷◌, ◌++◌, Result, ok, err, panic, stuck}
use burnt.Base.Call.{Call}
use burnt.Messages.Params.{Params}
use burnt.Messages.QueryScheduledCall.{QueryScheduledCall}
use burnt.Gateway.Runtime.{
  Runtime, Pattern, Reply, ClientCall, ServerCall, serve_locally, serve_remotely, Route, Mux,
  Closing, at_once, when_done,
}

-- The calls of the service, by their method. Their requests are messages without fields.
pub record QueryClient {S : Type 0} (rt : Runtime S) : Type 0 where
  pub params : ClientCall rt (Unit {0}) Params
  pub scheduled_calls : ClientCall rt (Unit {0}) (List QueryScheduledCall)

pub record QueryServer {S : Type 0} (rt : Runtime S) : Type 0 where
  pub params : ServerCall rt (Unit {0}) Params
  pub scheduled_calls : ServerCall rt (Unit {0}) (List QueryScheduledCall)

-- `pattern_Query_Params_0` and `pattern_Query_ScheduledCalls_0`
unfoldable pub pattern_query_params : Pattern
pattern_query_params = record {
  version = 1;
  ops = 2 ∷ 0 ∷ 2 ∷ 1 ∷ 2 ∷ 2 ∷ 2 ∷ 3 ∷ [];
  pool = "BurntFinance" ∷ "burnt" ∷ "schedule" ∷ "params" ∷ [];
  verb = "";
}

unfoldable pub pattern_query_scheduled_calls : Pattern
pattern_query_scheduled_calls = record {
  version = 1;
  ops = 2 ∷ 0 ∷ 2 ∷ 1 ∷ 2 ∷ 2 ∷ 2 ∷ 3 ∷ [];
  pool = "BurntFinance" ∷ "burnt" ∷ "schedule" ∷ "scheduled_calls" ∷ [];
  verb = "";
}

module _ {S : Type 0} (rt : Runtime S) where
  unfoldable pub request_query_params :
      QueryClient rt → rt.Context → rt.Request → S → (rt.Metadata × Result Params) × S
  request_query_params client ctx req s = client.params ctx tt s

  unfoldable pub local_request_query_params :
      QueryServer rt → rt.Context → rt.Request → S → (rt.Metadata × Result Params) × S
  local_request_query_params server ctx req s =
      let (r, s') = server.params ctx tt s in ((rt.no_metadata, r), s')

  unfoldable pub serve_params_locally : QueryServer rt → rt.Request → Call S (Reply rt Params)
  serve_params_locally server = serve_locally rt (local_request_query_params server)

  unfoldable pub serve_params_remotely : QueryClient rt → rt.Request → Call S (Reply rt Params)
  serve_params_remotely client = serve_remotely rt (request_query_params client)

  unfoldable pub request_query_scheduled_calls :
      QueryClient rt
      → rt.Context
      → rt.Request
      → S
      → (rt.Metadata × Result (List QueryScheduledCall)) × S
  request_query_scheduled_calls client ctx req s = client.scheduled_calls ctx tt s

  unfoldable pub local_request_query_scheduled_calls :
      QueryServer rt
      → rt.Context
      → rt.Request
      → S
      → (rt.Metadata × Result (List QueryScheduledCall)) × S
  local_request_query_scheduled_calls server ctx req s =
      let (r, s') = server.scheduled_calls ctx tt s in ((rt.no_metadata, r), s')

  unfoldable pub serve_scheduled_calls_locally :
      QueryServer rt → rt.Request → Call S (Reply rt (List QueryScheduledCall))
  serve_scheduled_calls_locally server =
      serve_locally rt (local_request_query_scheduled_calls server)

  unfoldable pub serve_scheduled_calls_remotely :
      QueryClient rt → rt.Request → Call S (Reply rt (List QueryScheduledCall))
  serve_scheduled_calls_remotely client = serve_remotely rt (request_query_scheduled_calls client)

  unfoldable pub register_query_handler_server : Mux rt → QueryServer rt → Result (Mux rt)
  register_query_handler_server mux server = ok (
      mux
      ++ record {
        method = "GET";
        pattern = pattern_query_params;
        Response = Params;
        handler = serve_params_locally server;
      }
        ∷ record {
          method = "GET";
          pattern = pattern_query_scheduled_calls;
          Response = List QueryScheduledCall;
          handler = serve_scheduled_calls_locally server;
        }
        ∷ [])

  unfoldable pub register_query_handler_client : Mux rt → QueryClient rt → Result (Mux rt)
  register_query_handler_client mux client = ok (
      mux
      ++ record {
        method = "GET";
        pattern = pattern_query_params;
        Response = Params;
        handler = serve_params_remotely client;
      }
        ∷ record {
          method = "GET";
          pattern = pattern_query_scheduled_calls;
          Response = List QueryScheduledCall;
          handler = serve_scheduled_calls_remotely client;
        }
        ∷ [])

  module _ {Conn : Type 0} (dial : String → Result Conn)
      (new_query_client : Conn → QueryClient rt) where
    unfoldable pub register_query_handler : Mux rt → Conn → Result (Mux rt)
    register_query_handler mux conn = register_query_handler_client mux (new_query_client conn)

    -- The routes, and when the connection that was dialled is closed.
    unfoldable pub register_query_handler_from_endpoint :
        Mux rt → String → Result (Mux rt) × Option Closing
    register_query_handler_from_endpoint mux endpoint = elim (dial endpoint) [
      | ok conn ↦ elim (register_query_handler mux conn) [
        | ok mux' ↦ (ok mux', some when_done)
        | err e ↦ (err e, some at_once)
        | panic ↦ (panic, some when_done)
        | stuck ↦ (stuck, none)
      ]
      | err e ↦ (err e, none)
      | panic ↦ (panic, none)
      | stuck ↦ (stuck, none)
    ]
