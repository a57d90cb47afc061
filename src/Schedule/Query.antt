-- ===== src/Schedule/Query.antt =====
-- The queries: x/schedule/keeper/grpc_query_params.go and grpc_query_scheduled_calls.go.
pub mod Listing
use burnt.Base.{
  ℕ, Bytes, List, [], ◌∷◌, ◌++◌, Option, none, some, Bool, false, Result, ok, err, invalid_request,
}
use burnt.Sdk.{Sdk}
use burnt.Messages.QueryScheduledCall.{QueryScheduledCall}
use burnt.Messages.Params.{Params}
use burnt.Messages.ScheduledCall.{ScheduledCall}
use burnt.Schedule.World.{World}
use burnt.Schedule.Keeper.{iterate_scheduled_calls}

module _ (sdk : Sdk) where
  -- A nil request is refused.
  unfoldable pub query_params : Option (Unit {0}) → World sdk → Result Params
  query_params none w = err invalid_request
  query_params (some _) w = ok w.params

  unfoldable pub collect :
      ℕ → Bytes → Bytes → ScheduledCall → List QueryScheduledCall → Bool × List QueryScheduledCall
  collect height signer contract call calls = (
    false,
    calls
        ++ record {
          contract = sdk.bech32 contract;
          call_body = call.call_body;
          height = height;
          signer = signer;
        }
          ∷ [],
  )

  unfoldable pub query_scheduled_calls :
      Option (Unit {0}) → World sdk → Result (List QueryScheduledCall)
  query_scheduled_calls none w = err invalid_request
  query_scheduled_calls (some _) w = iterate_scheduled_calls sdk collect w.store []
