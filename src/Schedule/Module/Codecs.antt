-- ===== src/Schedule/Module/Codecs.antt =====
-- What the module registers: x/schedule/types/codec.go, with the accounts of
-- x/schedule/simulation/simap.go.
use burnt.Base.{Bytes, Option, List, [], ◌∷◌, Result, ok, ◌>>=◌}
use burnt.Base.Call.{must}
use burnt.Sdk.{Sdk}
use burnt.Schedule.MsgServer.{address}

-- The messages of the module.
pub data MsgType : Type 0 where
  msg_add_schedule msg_remove_schedule : MsgType

-- The messages with a name for the amino codec, by which RegisterConcrete knows them.
unfoldable pub register_codec : List MsgType
register_codec = msg_add_schedule ∷ []

-- The messages registered as such; the requests of the message service, which its description
-- names, come behind them.
unfoldable pub register_interfaces : List MsgType → List MsgType
register_interfaces service_requests = msg_add_schedule ∷ service_requests

-- An account of a simulation is looked up by its address; a text that is no address is a fault.
unfoldable pub find_account :
    {A : Type 0} (sdk : Sdk) → (List A → Bytes → Option A) → List A → Bytes → Result (Option A)
find_account sdk find accs text = do creator ← must (address sdk text); ok (find accs creator)
