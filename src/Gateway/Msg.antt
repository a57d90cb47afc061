-- ===== src/Gateway/Msg.antt =====
-- The gateway of the Msg service: x/schedule/types/tx.pb.gw.go.
pub mod Replies
use burnt.Base.{
  Option, none, some, String, List, [], ◌∷◌, ◌++◌, Result, ok, err, panic, stuck, ◌>>=◌, Option,
  some, none,
}
use burnt.Base.Call.{Call}
use burnt.Messages.MsgAddSchedule.{MsgAddSchedule}
use burnt.Messages.MsgRemoveSchedule.{MsgRemoveSchedule}
use burnt.Messages.NoFields.{NoFields}
use burnt.Gateway.Runtime.{
  Runtime, Populate, Pattern, Reply, ClientCall, ServerCall, as_invalid_argument, serve_locally,
  serve_remotely, Route, Mux, Closing, at_once, when_done,
}

-- The calls of the service, by their method.
pub record MsgClient {S : Type 0} (rt : Runtime S) : Type 0 where
  pub add_schedule : ClientCall rt MsgAddSchedule NoFields
  pub remove_schedule : ClientCall rt MsgRemoveSchedule NoFields

pub record MsgServer {S : Type 0} (rt : Runtime S) : Type 0 where
  pub add_schedule : ServerCall rt MsgAddSchedule NoFields
  pub remove_schedule : ServerCall rt MsgRemoveSchedule NoFields

-- `pattern_Msg_AddSchedule_0` and `pattern_Msg_RemoveSchedule_0`
unfoldable pub pattern_msg_add_schedule : Pattern
pattern_msg_add_schedule = record {
  version = 1;
  ops = 2 ∷ 0 ∷ 2 ∷ 1 ∷ 2 ∷ 2 ∷ 2 ∷ 3 ∷ [];
  pool = "BurntFinance" ∷ "burnt" ∷ "schedule" ∷ "add_schedule" ∷ [];
  verb = "";
}

unfoldable pub pattern_msg_remove_schedule : Pattern
pattern_msg_remove_schedule = record {
  version = 1;
  ops = 2 ∷ 0 ∷ 2 ∷ 1 ∷ 2 ∷ 2 ∷ 2 ∷ 3 ∷ [];
  pool = "BurntFinance" ∷ "burnt" ∷ "schedule" ∷ "remove_schedule" ∷ [];
  verb = "";
}

module _ {S : Type 0} (rt : Runtime S) where
  module _ {M : Type 0} (p : Populate rt M) where
    -- The message of a request: its form, and the message that the form populates.
    unfoldable pub parsed : rt.Request → Result M
    parsed req = do
      form ← as_invalid_argument (rt.parse_form req)
      as_invalid_argument (p.populate form)

  module _ (p : Populate rt MsgAddSchedule) where
    unfoldable pub request_msg_add_schedule :
        MsgClient rt → rt.Context → rt.Request → S → (rt.Metadata × Result NoFields) × S
    request_msg_add_schedule client ctx req s = elim (parsed p req) [
      | ok proto_req ↦ client.add_schedule ctx proto_req s
      | err e ↦ ((rt.no_metadata, err e), s)
      | panic ↦ ((rt.no_metadata, panic), s)
      | stuck ↦ ((rt.no_metadata, stuck), s)
    ]

    unfoldable pub local_request_msg_add_schedule :
        MsgServer rt → rt.Context → rt.Request → S → (rt.Metadata × Result NoFields) × S
    local_request_msg_add_schedule server ctx req s = elim (parsed p req) [
      | ok proto_req ↦
          let (r, s') = server.add_schedule ctx proto_req s in ((rt.no_metadata, r), s')
      | err e ↦ ((rt.no_metadata, err e), s)
      | panic ↦ ((rt.no_metadata, panic), s)
      | stuck ↦ ((rt.no_metadata, stuck), s)
    ]

    unfoldable pub serve_add_schedule_locally :
        MsgServer rt → rt.Request → Call S (Reply rt NoFields)
    serve_add_schedule_locally server = serve_locally rt (local_request_msg_add_schedule server)

    unfoldable pub serve_add_schedule_remotely :
        MsgClient rt → rt.Request → Call S (Reply rt NoFields)
    serve_add_schedule_remotely client = serve_remotely rt (request_msg_add_schedule client)

  module _ (p : Populate rt MsgRemoveSchedule) where
    unfoldable pub request_msg_remove_schedule :
        MsgClient rt → rt.Context → rt.Request → S → (rt.Metadata × Result NoFields) × S
    request_msg_remove_schedule client ctx req s = elim (parsed p req) [
      | ok proto_req ↦ client.remove_schedule ctx proto_req s
      | err e ↦ ((rt.no_metadata, err e), s)
      | panic ↦ ((rt.no_metadata, panic), s)
      | stuck ↦ ((rt.no_metadata, stuck), s)
    ]

    unfoldable pub local_request_msg_remove_schedule :
        MsgServer rt → rt.Context → rt.Request → S → (rt.Metadata × Result NoFields) × S
    local_request_msg_remove_schedule server ctx req s = elim (parsed p req) [
      | ok proto_req ↦
          let (r, s') = server.remove_schedule ctx proto_req s in ((rt.no_metadata, r), s')
      | err e ↦ ((rt.no_metadata, err e), s)
      | panic ↦ ((rt.no_metadata, panic), s)
      | stuck ↦ ((rt.no_metadata, stuck), s)
    ]

    unfoldable pub serve_remove_schedule_locally :
        MsgServer rt → rt.Request → Call S (Reply rt NoFields)
    serve_remove_schedule_locally server =
        serve_locally rt (local_request_msg_remove_schedule server)

    unfoldable pub serve_remove_schedule_remotely :
        MsgClient rt → rt.Request → Call S (Reply rt NoFields)
    serve_remove_schedule_remotely client = serve_remotely rt (request_msg_remove_schedule client)

  module _ (add : Populate rt MsgAddSchedule) (remove : Populate rt MsgRemoveSchedule) where
    unfoldable pub register_msg_handler_server : Mux rt → MsgServer rt → Result (Mux rt)
    register_msg_handler_server mux server = ok (
        mux
        ++ record {
          method = "POST";
          pattern = pattern_msg_add_schedule;
          Response = NoFields;
          handler = serve_add_schedule_locally add server;
        }
          ∷ record {
            method = "POST";
            pattern = pattern_msg_remove_schedule;
            Response = NoFields;
            handler = serve_remove_schedule_locally remove server;
          }
          ∷ [])

    unfoldable pub register_msg_handler_client : Mux rt → MsgClient rt → Result (Mux rt)
    register_msg_handler_client mux client = ok (
        mux
        ++ record {
          method = "POST";
          pattern = pattern_msg_add_schedule;
          Response = NoFields;
          handler = serve_add_schedule_remotely add client;
        }
          ∷ record {
            method = "POST";
            pattern = pattern_msg_remove_schedule;
            Response = NoFields;
            handler = serve_remove_schedule_remotely remove client;
          }
          ∷ [])

    module _ {Conn : Type 0} (dial : String → Result Conn)
        (new_msg_client : Conn → MsgClient rt) where
      unfoldable pub register_msg_handler : Mux rt → Conn → Result (Mux rt)
      register_msg_handler mux conn = register_msg_handler_client mux (new_msg_client conn)

      -- The routes, and when the connection that was dialled is closed.
      unfoldable pub register_msg_handler_from_endpoint :
          Mux rt → String → Result (Mux rt) × Option Closing
      register_msg_handler_from_endpoint mux endpoint = elim (dial endpoint) [
        | ok conn ↦ elim (register_msg_handler mux conn) [
          | ok mux' ↦ (ok mux', some when_done)
          | err e ↦ (err e, some at_once)
          | panic ↦ (panic, some when_done)
          | stuck ↦ (stuck, none)
        ]
        | err e ↦ (err e, none)
        | panic ↦ (panic, none)
        | stuck ↦ (stuck, none)
      ]
