-- ===== src/Gateway/Runtime.antt =====
-- What the handlers of the gateway call: net/http, gRPC and the runtime of grpc-gateway, and the
-- steps that all generated handlers of x/schedule/types/tx.pb.gw.go and query.pb.gw.go take.
use burnt.Base.{ℕ, Bool, List, String, Error, Result, ok, err, panic, stuck, invalid_argument}
use burnt.Base.Call.{Call}

-- `runtime.NewPattern`: pairs of an operation and its operand, and the words they stand for.
pub record Pattern : Type 0 where
  pub version : ℕ
  pub ops : List ℕ
  pub pool : List String
  pub verb : String

-- `S` is the state that the service reads and changes.
pub record Runtime (S : Type 0) : Type 1 where
  pub Request : Type 0
  pub Context : Type 0
  pub Form : Type 0
  pub Metadata : Type 0
  pub no_metadata : Metadata
  pub join : Metadata → Metadata → Metadata
  -- The context of a request; with a stream of the server's that the metadata are put on.
  pub request_context : Request → Context
  pub with_stream : Context → Context
  pub stream : S → Metadata
  pub annotate_context : Context → Request → Result Context
  pub annotate_incoming_context : Context → Request → Result Context
  pub with_metadata : Context → Metadata → Context
  pub parse_form : Request → Result Form
  -- Whether a context carries the SDK's, which `UnwrapSDKContext` takes out: without it, that call
  -- is a fault.
  pub has_sdk_context : Context → Bool

-- `PopulateQueryParameters` into an empty message of type `M`.
pub record Populate {S : Type 0} (rt : Runtime S) (M : Type 0) : Type 0 where
  pub populate : rt.Form → Result M

-- What a handler writes to its client.
pub data Reply {S : Type 0} (rt : Runtime S) (A : Type 0) : Type 0 where
  http_error : rt.Context → Error → Reply rt A
  forward_response_message : rt.Context → A → Reply rt A

-- A call of the service over gRPC, or of the service itself.
abbrev pub ClientCall : {S : Type 0} → Runtime S → Type 0 → Type 0 → Type 0
ClientCall {S} rt M A = rt.Context → M → S → (rt.Metadata × Result A) × S

abbrev pub ServerCall : {S : Type 0} → Runtime S → Type 0 → Type 0 → Type 0
ServerCall {S} rt M A = rt.Context → M → Call S A

-- `status.Errorf(codes.InvalidArgument, "%v", err)`
abbrev pub as_invalid_argument : {A : Type 0} → Result A → Result A
as_invalid_argument (err e) = err (invalid_argument e)
as_invalid_argument (ok a) = ok a
as_invalid_argument panic = panic
as_invalid_argument stuck = stuck

module _ {S A : Type 0} (rt : Runtime S) where
  -- The end of a handler.
  abbrev pub reply : rt.Context → Result A → Result (Reply rt A)
  reply ctx (ok a) = ok (forward_response_message ctx a)
  reply ctx (err e) = ok (http_error ctx e)
  reply ctx panic = panic
  reply ctx stuck = stuck

  -- A handler that `Register…HandlerServer` registers, around its `local_request_…`.
  unfoldable pub serve_locally :
      (rt.Context → rt.Request → S → (rt.Metadata × Result A) × S)
      → rt.Request
      → Call S (Reply rt A)
  serve_locally local_request req s =
      let ctx = rt.with_stream (rt.request_context req) in
      elim (rt.annotate_incoming_context ctx req) [
        | ok rctx ↦
            let ((md, r), s') = local_request rctx req s in
            (reply (rt.with_metadata ctx (rt.join md (rt.stream s'))) r, s')
        | err e ↦ (ok (http_error ctx e), s)
        | panic ↦ (panic, s)
        | stuck ↦ (stuck, s)
      ]

  -- A handler that `Register…HandlerClient` registers, around its `request_…`.
  unfoldable pub serve_remotely :
      (rt.Context → rt.Request → S → (rt.Metadata × Result A) × S)
      → rt.Request
      → Call S (Reply rt A)
  serve_remotely request req s =
      let ctx = rt.request_context req in
      elim (rt.annotate_context ctx req) [
        | ok rctx ↦
            let ((md, r), s') = request rctx req s in (reply (rt.with_metadata ctx md) r, s')
        | err e ↦ (ok (http_error ctx e), s)
        | panic ↦ (panic, s)
        | stuck ↦ (stuck, s)
      ]

-- The mux: a route with its method, its pattern and its handler.
pub record Route {S : Type 0} (rt : Runtime S) : Type 1 where
  pub method : String
  pub pattern : Pattern
  pub Response : Type 0
  pub handler : rt.Request → Call S (Reply rt Response)

abbrev pub Mux : {S : Type 0} → Runtime S → Type 1
Mux rt = List (Route rt)

-- When a connection that was dialled is closed: at once, or when the context is done.
pub data Closing : Type 0 where
  at_once when_done : Closing
