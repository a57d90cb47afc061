-- ===== src/Tests/Gateway.antt =====
-- The gateway at concrete inputs. A request is its form; a form of one byte does not parse, and one
-- of two bytes populates no message.
use burnt.Base.{
  ◌≡◌, refl, ℕ, ◌==◌, inr, [], ◌∷◌, Bytes, length, if◌then◌else◌, ok, err, sdk_error, false,
}
use burnt.Messages.MsgAddSchedule.{MsgAddSchedule}
use burnt.Messages.MsgRemoveSchedule.{MsgRemoveSchedule}
use burnt.Schedule.World.{World}
use burnt.Gateway.Runtime.{Runtime, Populate}
use burnt.Gateway.Msg.{
  MsgClient, MsgServer, serve_add_schedule_locally, serve_add_schedule_remotely,
  serve_remove_schedule_locally,
}
use burnt.Gateway.Msg.Replies.{
  msg_server, refused, serve_add_schedule_refuses, serve_msg-IsUnanswered, IsUnanswered,
}
use burnt.Tests.Sample.{sample}
use burnt.Tests.Messages.{fresh}
use burnt.Tests.Data.{a_signer, a_contract, an_add}

-- Contexts are told apart by a number: 1 for a stream, 2 for metadata.
abbrev gateway : Runtime (World sample)
gateway = record {
  Request = Bytes;
  Context = ℕ;
  Form = Bytes;
  Metadata = ℕ;
  no_metadata = 0;
  join = λ a b. b;
  request_context = λ req. 0;
  with_stream = λ ctx. 1;
  stream = λ w. 0;
  annotate_context = λ ctx req. ok ctx;
  annotate_incoming_context = λ ctx req. ok ctx;
  with_metadata = λ ctx md. 2;
  parse_form = λ req. if length req == 1 then err sdk_error else ok req;
  has_sdk_context = λ ctx. false;
}

abbrev add_form : Populate gateway MsgAddSchedule
add_form = record { populate = λ form. if length form == 2 then err sdk_error else ok an_add }

abbrev remove_form : Populate gateway MsgRemoveSchedule
remove_form = record { populate = λ form. ok (record { signer = a_signer; contract = a_contract }) }

abbrev server : MsgServer gateway
server = msg_server sample gateway

abbrev client : MsgClient gateway
client = record {
  add_schedule = λ ctx msg w. let (r, w') = server.add_schedule ctx msg w in ((0, r), w');
  remove_schedule = λ ctx msg w. let (r, w') = server.remove_schedule ctx msg w in ((0, r), w');
}

serve_add_schedule_refuses_example :
    (serve_add_schedule_locally gateway add_form server (0 ∷ 0 ∷ []) fresh
      ≡ refused gateway 1 0 sdk_error fresh)
    × (serve_add_schedule_remotely gateway add_form client (0 ∷ 0 ∷ []) fresh
        ≡ refused gateway 0 0 sdk_error fresh)
serve_add_schedule_refuses_example =
    serve_add_schedule_refuses gateway add_form (0 ∷ 0 ∷ []) fresh server client 1 0 sdk_error refl
      refl (inr (0 ∷ 0 ∷ [], refl, refl))

serve_msg-IsUnanswered_example :
    IsUnanswered gateway (serve_add_schedule_locally gateway add_form server [] fresh) fresh
    × IsUnanswered gateway (serve_remove_schedule_locally gateway remove_form server [] fresh) fresh
serve_msg-IsUnanswered_example =
    serve_msg-IsUnanswered sample gateway [] fresh add_form remove_form (λ ctx e. refl)
