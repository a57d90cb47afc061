-- ===== src/Gateway/Msg/Replies.antt =====
-- What the routes of the Msg service answer: x/schedule/types/tx.pb.gw.go, in front of the module's
-- own message server.
use burnt.Base.{
  ◌≡◌, ◌≢◌, true, false, refl, ◌⊎◌, inl, inr, Error, Result, ok, err, panic, stuck,
  invalid_argument, arith,
}
use burnt.Base.Call.{Call}
use burnt.Sdk.{Sdk}
use burnt.Messages.MsgAddSchedule.{MsgAddSchedule}
use burnt.Messages.MsgRemoveSchedule.{MsgRemoveSchedule}
use burnt.Messages.NoFields.{NoFields, no_fields}
use burnt.Schedule.World.{World}
use burnt.Schedule.MsgServer.{add_schedule, remove_schedule}
use burnt.Gateway.Runtime.{
  Runtime, Populate, Reply, http_error, forward_response_message, reply, serve_locally,
  serve_remotely,
}
use burnt.Gateway.Msg.{
  MsgClient, MsgServer, parsed, request_msg_add_schedule, local_request_msg_add_schedule,
  serve_add_schedule_locally, serve_add_schedule_remotely, serve_remove_schedule_locally,
  local_request_msg_remove_schedule,
}

-- The response of the keeper's methods has no fields.
abbrev pub respond : {S : Type 0} → Call S (Unit {0}) → Call S NoFields
respond m s =
    let (r, s') = m s in
    (elim r [ ok _ ↦ ok no_fields | err e ↦ err e | panic ↦ panic | stuck ↦ stuck ], s')

-- `ctx := sdk.UnwrapSDKContext(goCtx)`, and what follows it. The world is that of the context.
unfoldable pub unwrapped : {S A : Type 0} (rt : Runtime S) → rt.Context → Call S A → Call S A
unwrapped rt ctx m s = elim (rt.has_sdk_context ctx) [ true ↦ m s | false ↦ (panic, s) ]

-- `NewMsgServerImpl`
unfoldable pub msg_server : (sdk : Sdk) (rt : Runtime (World sdk)) → MsgServer rt
msg_server sdk rt = record {
  add_schedule = λ ctx msg. unwrapped rt ctx (respond (add_schedule sdk msg));
  remove_schedule = λ ctx msg. unwrapped rt ctx (respond (remove_schedule sdk msg));
}

-- A form that does not parse, or does not populate the message.
abbrev pub IsMalformed :
    {S M : Type 0} (rt : Runtime S) → Populate rt M → rt.Request → Error → Type 0
IsMalformed rt p req e =
    (rt.parse_form req ≡ err e)
    ⊎ ((form : rt.Form) × (rt.parse_form req ≡ ok form) × (p.populate form ≡ err e))

parsed-IsMalformed :
    {S M : Type 0} (rt : Runtime S) (p : Populate rt M) (req : rt.Request) (e : Error)
    → IsMalformed rt p req e
    → parsed rt p req ≡ err (invalid_argument e)
unfolding parsed
parsed-IsMalformed rt p req e (inl x) = rw x refl
parsed-IsMalformed rt p req e (inr (form, x, y)) = rw (x, y) refl

-- The reply to a malformed request, and the state it was made in.
abbrev pub refused :
    {S A : Type 0} (rt : Runtime S) → rt.Context → rt.Metadata → Error → S → Result (Reply rt A) × S
refused rt ctx md e s = (ok (http_error (rt.with_metadata ctx md) (invalid_argument e)), s)

module _ {S : Type 0} (rt : Runtime S) (p : Populate rt MsgAddSchedule) (req : rt.Request)
    (s : S) where
  -- For a request whose contexts are annotated, and whose form does not parse or does not populate
  -- the message: both routes of AddSchedule, over the service and over a connection, reply with the
  -- error as an invalid argument, and leave the state as it was.
  pub serve_add_schedule_refuses :
      (server : MsgServer rt) (client : MsgClient rt) (local_ctx remote_ctx : rt.Context)
      (e : Error)
      → rt.annotate_incoming_context (rt.with_stream (rt.request_context req)) req ≡ ok local_ctx
      → rt.annotate_context (rt.request_context req) req ≡ ok remote_ctx
      → IsMalformed rt p req e
      → (serve_add_schedule_locally rt p server req s
          ≡ refused rt
              (rt.with_stream (rt.request_context req))
              (rt.join rt.no_metadata (rt.stream s))
              e
              s)
        × (serve_add_schedule_remotely rt p client req s
            ≡ refused rt (rt.request_context req) rt.no_metadata e s)
  unfolding serve_add_schedule_locally serve_add_schedule_remotely serve_locally serve_remotely
      request_msg_add_schedule local_request_msg_add_schedule
  serve_add_schedule_refuses server client local_ctx remote_ctx e annotated remote_annotated bad = (
    rw
        (
          serve_add_schedule_locally,
          serve_locally,
          annotated,
          local_request_msg_add_schedule,
          parsed-IsMalformed rt p req e bad,
        )
        refl,
    rw
        (
          serve_add_schedule_remotely,
          serve_remotely,
          remote_annotated,
          request_msg_add_schedule,
          parsed-IsMalformed rt p req e bad,
        )
        refl,
  )

-- A reply that forwards no response, and the state it was made in.
abbrev pub IsUnanswered : {S A : Type 0} (rt : Runtime S) → Result (Reply rt A) × S → S → Type 0
IsUnanswered {A = A} rt r s =
    ((ctx : rt.Context) (a : A) → r.0 ≢ ok (forward_response_message ctx a)) × (r.1 ≡ s)

module _ {S A : Type 0} (rt : Runtime S) (req : rt.Request) (s : S)
    (bare : (ctx : rt.Context)
      → rt.annotate_incoming_context (rt.with_stream (rt.request_context req)) req ≡ ok ctx
      → rt.has_sdk_context ctx ≡ false) where
  -- Where a method needs a context of the SDK, so does its route.
  serve_locally-IsUnanswered :
      (local_request : rt.Context → rt.Request → S → (rt.Metadata × Result A) × S)
      → ((ctx : rt.Context)
          → rt.has_sdk_context ctx ≡ false
          → ((a : A) → (local_request ctx req s).0.1 ≢ ok a) × ((local_request ctx req s).1 ≡ s))
      → IsUnanswered rt (serve_locally rt local_request req s) s
  unfolding serve_locally
  serve_locally-IsUnanswered local_request needs =
      go (rt.annotate_incoming_context (rt.with_stream (rt.request_context req)) req) refl
    where
      go :
          (x : Result rt.Context)
          → rt.annotate_incoming_context (rt.with_stream (rt.request_context req)) req ≡ x
          → IsUnanswered rt (serve_locally rt local_request req s) s
      go (ok ctx) e =
          let (none_given, same) = needs ctx (bare ctx e) in
          rw (serve_locally, e) ((λ c a r. none_given a (reply_gives _ _ c a r)), same)
        where
          reply_gives :
              (at : rt.Context) (r : Result A) (c : rt.Context) (a : A)
              → reply rt at r ≡ ok (forward_response_message c a)
              → r ≡ ok a
          reply_gives at (ok b) c a h = cc
          reply_gives at (err x) c a h = absurd (cc)
          reply_gives at panic c a h = absurd (cc)
          reply_gives at stuck c a h = absurd (cc)
      go (err x) e = rw (serve_locally, e) ((λ c a r. cc), refl)
      go panic e = rw (serve_locally, e) ((λ c a r. cc), refl)
      go stuck e = rw (serve_locally, e) ((λ c a r. cc), refl)

module _ (sdk : Sdk) (rt : Runtime (World sdk)) (req : rt.Request) (w : World sdk) where
  add_needs :
      (p : Populate rt MsgAddSchedule) (ctx : rt.Context)
      → rt.has_sdk_context ctx ≡ false
      → let r = local_request_msg_add_schedule rt p (msg_server sdk rt) ctx req w in
        ((a : NoFields) → r.0.1 ≢ ok a) × (r.1 ≡ w)
  unfolding local_request_msg_add_schedule msg_server unwrapped
  add_needs p ctx bare = (λ a e. ground arith, ground arith)

  remove_needs :
      (p : Populate rt MsgRemoveSchedule) (ctx : rt.Context)
      → rt.has_sdk_context ctx ≡ false
      → let r = local_request_msg_remove_schedule rt p (msg_server sdk rt) ctx req w in
        ((a : NoFields) → r.0.1 ≢ ok a) × (r.1 ≡ w)
  unfolding local_request_msg_remove_schedule msg_server unwrapped
  remove_needs p ctx bare = (λ a e. ground arith, ground arith)

  -- For a request of which no annotated context carries one of the SDK: the routes of both methods
  -- that RegisterMsgHandlerServer registers, in front of the keeper's message server, forward no
  -- response, whatever the request's form, and leave the state as it was.
  pub serve_msg-IsUnanswered :
      (add : Populate rt MsgAddSchedule) (remove : Populate rt MsgRemoveSchedule)
      → ((ctx : rt.Context)
          → rt.annotate_incoming_context (rt.with_stream (rt.request_context req)) req ≡ ok ctx
          → rt.has_sdk_context ctx ≡ false)
      → IsUnanswered rt (serve_add_schedule_locally rt add (msg_server sdk rt) req w) w
        × IsUnanswered rt (serve_remove_schedule_locally rt remove (msg_server sdk rt) req w) w
  unfolding serve_add_schedule_locally serve_remove_schedule_locally
  serve_msg-IsUnanswered add remove bare = (
    serve_locally-IsUnanswered rt req w bare _ (add_needs add),
    serve_locally-IsUnanswered rt req w bare _ (remove_needs remove),
  )
