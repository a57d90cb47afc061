-- ===== src/App/Start.antt =====
-- The routers of `NewWasmApp`, how it ends, and how the application starts a chain: app/app.go.
pub mod Routes
use burnt.Base.{
  ℕ, Bool, true, false, ◌==◌, List, [], ◌∷◌, ◌++◌, Option, none, some, Bytes, length, if◌then◌else◌,
  Result, ok, err, panic, stuck,
}
use burnt.Base.Call.{Call, pure, lift, ◌>>=◌, ◌>>◌, must}
use burnt.App.Names.{
  Name, distr, gov, params, upgrade, transfer, wasm, intertx, icahost, icacontroller, ibc_client,
}
use burnt.App.Wiring.{
  Keeper, transfer_keeper, ibc_fee_keeper, inter_tx_keeper, ica_controller_keeper, ica_host_keeper,
  wasm_keeper,
}
use burnt.App.Export.{or_panic_call}

-- The routes of proposals: `RouterKey` of a module. wasmd's is there if a proposal of it is enabled.
unfoldable pub gov_routes : {P : Type 0} → List P → List Name
gov_routes enabled_proposals =
    (gov ∷ params ∷ distr ∷ upgrade ∷ ibc_client ∷ [])
    ++ (if length enabled_proposals == 0 then [] else wasm ∷ [])

-- A stack of IBC: a module of a keeper, and middleware of a keeper around a stack.
pub data Stack : Type 0 where
  module_of : Keeper → Stack
  middleware : Keeper → Stack → Stack

unfoldable pub transfer_stack : Stack
transfer_stack = middleware ibc_fee_keeper (module_of transfer_keeper)

unfoldable pub ica_controller_stack : Stack
ica_controller_stack =
    middleware ibc_fee_keeper (middleware ica_controller_keeper (module_of inter_tx_keeper))

unfoldable pub ica_host_stack : Stack
ica_host_stack = middleware ibc_fee_keeper (module_of ica_host_keeper)

unfoldable pub wasm_stack : Stack
wasm_stack = middleware ibc_fee_keeper (module_of wasm_keeper)

unfoldable pub ibc_router : List (Name × Stack)
ibc_router =
    (transfer, transfer_stack)
    ∷ (wasm, wasm_stack)
    ∷ (intertx, ica_controller_stack)
    ∷ (icacontroller, ica_controller_stack)
    ∷ (icahost, ica_host_stack)
    ∷ []

-- An int64, of which the sign matters.
pub data ℤ : Type 0 where
  pos negsuc : ℕ → ℤ

-- What the end of `NewWasmApp` calls; `S` is the application with its stores.
pub record Startup (S : Type 0) : Type 0 where
  pub read_wasm_config : Result (Unit {0})
  pub new_ante_handler : Result (Unit {0})
  -- Where there is a snapshot manager, `RegisterExtensions`.
  pub register_extensions : Option (Result (Unit {0}))
  pub load_latest_version : Call S (Unit {0})
  pub load_version : ℤ → Call S (Unit {0})
  pub initialize_pinned_codes : Call S (Unit {0})

unfoldable pub snapshot_extensions : Option (Result (Unit {0})) → Result (Unit {0})
snapshot_extensions none = ok tt
snapshot_extensions (some r) = must r

module _ {S : Type 0} (a : Startup S) where
  -- `tmos.Exit` ends the process, as a panic that nothing catches.
  unfoldable pub load_latest : Bool → Call S (Unit {0})
  load_latest false = pure tt
  load_latest true = do or_panic_call a.load_latest_version; or_panic_call a.initialize_pinned_codes

  unfoldable pub new_wasm_app : Bool → Call S (Unit {0})
  new_wasm_app latest = do
    lift (must a.read_wasm_config)
    lift (must a.new_ante_handler)
    lift (snapshot_extensions a.register_extensions)
    load_latest latest

  -- `LoadHeight`
  unfoldable pub load_height : ℤ → Call S (Unit {0})
  load_height height = a.load_version height

-- What the starting of a chain and its blocks call: the reading of the genesis, the versions of the
-- modules, and the module manager, which is given an order of the modules.
pub record Chain (S : Type 0) : Type 1 where
  pub GenesisState : Type 0
  pub VersionMap : Type 0
  pub unmarshal : Bytes → Result GenesisState
  pub version_map : VersionMap
  pub set_module_version_map : VersionMap → S → S
  pub init_genesis : List Name → GenesisState → Call S (Unit {0})
  pub begin_block : List Name → Call S (Unit {0})
  pub end_block : List Name → Call S (Unit {0})

module _ {S : Type 0} (c : Chain S) (order : List Name) where
  unfoldable pub init_chainer : Bytes → Call S (Unit {0})
  init_chainer app_state_bytes s = elim (c.unmarshal app_state_bytes) [
    | ok genesis_state ↦
        c.init_genesis order genesis_state (c.set_module_version_map c.version_map s)
    | err e ↦ (panic, s)
    | panic ↦ (panic, s)
    | stuck ↦ (stuck, s)
  ]

  -- The module manager does the rest.
  unfoldable pub begin_blocker : Call S (Unit {0})
  begin_blocker = c.begin_block order

  unfoldable pub app_end_blocker : Call S (Unit {0})
  app_end_blocker = c.end_block order
