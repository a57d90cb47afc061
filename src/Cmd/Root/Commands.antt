-- ===== src/Cmd/Root/Commands.antt =====
-- The commands of the node, and what runs before each of them: `NewRootCmd`, `initRootCmd`,
-- `queryCommand` and `txCommand` of cmd/burntd/root.go.
use burnt.Base.{List, [], ◌∷◌, Result}
use burnt.Base.Call.{Call, lift, ◌>>=◌, ◌>>◌}

-- The commands, by the calls that make them.
pub data Command : Type 0 where
  init_cmd collect_gen_txs_cmd gen_tx_cmd validate_genesis_cmd add_genesis_account_cmd : Command
  add_genesis_wasm_msg_cmd new_completion_cmd debug_cmd config_cmd : Command
  -- `server.AddCommands` and the flags of crisis and wasm on its start command.
  server_commands : Command
  status_command query_command tx_command keys_commands : Command
  get_account_cmd validator_command block_command query_txs_by_events_cmd query_tx_cmd : Command
  module_query_commands : Command
  get_sign_command get_sign_batch_command get_multi_sign_command get_multi_sign_batch_cmd : Command
  get_validate_signatures_command line_break get_broadcast_command get_encode_command : Command
  get_decode_command module_tx_commands : Command

unfoldable pub query_commands : List Command
query_commands =
    get_account_cmd ∷ validator_command ∷ block_command ∷ query_txs_by_events_cmd ∷ query_tx_cmd
    ∷ module_query_commands ∷ []

unfoldable pub tx_commands : List Command
tx_commands =
    get_sign_command ∷ get_sign_batch_command ∷ get_multi_sign_command ∷ get_multi_sign_batch_cmd
    ∷ get_validate_signatures_command ∷ line_break ∷ get_broadcast_command ∷ get_encode_command
    ∷ get_decode_command ∷ module_tx_commands ∷ []

unfoldable pub init_root_cmd : List Command
init_root_cmd =
    init_cmd ∷ collect_gen_txs_cmd ∷ gen_tx_cmd ∷ validate_genesis_cmd ∷ add_genesis_account_cmd
    ∷ add_genesis_wasm_msg_cmd ∷ new_completion_cmd ∷ debug_cmd ∷ config_cmd ∷ server_commands
    ∷ status_command ∷ query_command ∷ tx_command ∷ keys_commands ∷ []

-- What the SDK reads for a command; `C` is the command with its flags and its context.
pub record PreRun (C : Type 0) : Type 1 where
  pub Context : Type 0
  pub set_outputs : Call C (Unit {0})
  pub read_persistent_command_flags : Context → Call C Context
  pub read_from_client_config : Context → Result Context
  pub set_cmd_client_context_handler : Context → Call C (Unit {0})
  pub intercept_configs_pre_run_handler : Call C (Unit {0})

-- `PersistentPreRunE`; each run starts from the context of `NewRootCmd`.
module _ {C : Type 0} (r : PreRun C) where
  unfoldable pub persistent_pre_run : r.Context → Call C (Unit {0})
  persistent_pre_run init_client_ctx = do
    r.set_outputs
    with_flags ← r.read_persistent_command_flags init_client_ctx
    with_config ← lift (r.read_from_client_config with_flags)
    r.set_cmd_client_context_handler with_config
    r.intercept_configs_pre_run_handler
