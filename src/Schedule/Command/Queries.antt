-- ===== src/Schedule/Command/Queries.antt =====
-- The query commands of x/schedule/client/cli: query.go, query_params.go and
-- query_scheduled_calls.go; and the group of the commands that send messages, tx.go.
use burnt.Base.{
  ◌==◌, ◌≡◌, refl, List, [], ◌∷◌, map, All, Bytes, length, Option, some, Result, guard, ◌>>=◌, ◌>>◌,
  wrong_arguments,
}
use burnt.Sdk.{Sdk}
use burnt.Sdk.Laws.{BigEndianLaws}
use burnt.Messages.Params.{Params}
use burnt.Messages.QueryScheduledCall.{QueryScheduledCall}
use burnt.Schedule.World.{World}
use burnt.Schedule.Query.{query_params, query_scheduled_calls}
use burnt.Schedule.Query.Listing.{Due, IsDue, entry_of, shown, query_scheduled_calls-shown}

-- The commands, by the functions that make them.
pub data Cmd : Type 0 where
  cmd_query_params cmd_query_scheduled_calls cmd_add_schedule cmd_remove_schedule : Cmd

unfoldable pub get_query_cmd : List Cmd
get_query_cmd = cmd_query_params ∷ cmd_query_scheduled_calls ∷ []

unfoldable pub get_tx_cmd : List Cmd
get_tx_cmd = cmd_add_schedule ∷ cmd_remove_schedule ∷ []

-- The client of the query service, as a node in one state answers it; a request is never nil.
pub record Client : Type 0 where
  pub params : Option (Unit {0}) → Result Params
  pub scheduled_calls : Option (Unit {0}) → Result (List QueryScheduledCall)

unfoldable pub query_params_command :
    Client → (Params → Result (Unit {0})) → List Bytes → Result (Unit {0})
query_params_command query_client print_proto args = do
  guard (length args == 0) wrong_arguments
  res ← query_client.params (some tt)
  print_proto res

unfoldable pub query_scheduled_calls_command :
    Client → (List QueryScheduledCall → Result (Unit {0})) → List Bytes → Result (Unit {0})
query_scheduled_calls_command query_client print_proto args = do
  guard (length args == 0) wrong_arguments
  res ← query_client.scheduled_calls (some tt)
  print_proto res

module _ (sdk : Sdk) where
  -- A client whose node answers from the keeper.
  abbrev pub keeper_client : World sdk → Client
  keeper_client w = record {
    params = λ req. query_params sdk req w;
    scheduled_calls = λ req. query_scheduled_calls sdk req w;
  }

  -- With the laws of big-endian numbers: against a node in front of the keeper, whose iterator over
  -- the heights walks through the entries of calls below height 2 ^ 56, with signers of 20 bytes,
  -- contracts of at most 32 and bodies below 2 ^ 62 bytes, the command scheduled-calls prints each of
  -- these calls once, in that order.
  pub query_scheduled_calls_command-shown :
      BigEndianLaws sdk
      → (print : List QueryScheduledCall → Result (Unit {0})) (ds : List Due) (w : World sdk)
      → All IsDue ds
      → sdk.entries w.store (1 ∷ []) ≡ map (entry_of sdk) ds
      → query_scheduled_calls_command (keeper_client w) print [] ≡ print (map (shown sdk) ds)
  unfolding query_scheduled_calls_command
  query_scheduled_calls_command-shown be print ds w due listed =
      rw (query_scheduled_calls-shown sdk be ds w due listed) refl
