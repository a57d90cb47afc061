-- ===== src/Cmd/Main.antt =====
-- cmd/burntd/main.go: the code with which the node's process ends; and the commands of genwasm.go.
use burnt.Base.{ℕ, Option, none, some, List, [], ◌∷◌}

-- An error of the root command: one that carries a code of its own, or any other.
pub data ExecuteError : Type 0 where
  error_code : ℕ → ExecuteError
  other_error : ExecuteError

-- The code of the process for the error that `Execute` returned, if it did.
unfoldable pub exit_code : Option ExecuteError → ℕ
exit_code none = 0
exit_code (some (error_code code)) = code
exit_code (some other_error) = 1

-- The commands below add-wasm-genesis-message, by the calls that make them.
pub data WasmGenesisCommand : Type 0 where
  genesis_store_code_cmd genesis_instantiate_contract_cmd genesis_execute_contract_cmd :
      WasmGenesisCommand
  genesis_list_contracts_cmd genesis_list_codes_cmd : WasmGenesisCommand

unfoldable pub add_genesis_wasm_msg_commands : List WasmGenesisCommand
add_genesis_wasm_msg_commands =
    genesis_store_code_cmd ∷ genesis_instantiate_contract_cmd ∷ genesis_execute_contract_cmd
    ∷ genesis_list_contracts_cmd ∷ genesis_list_codes_cmd ∷ []
