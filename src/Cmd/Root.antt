-- ===== src/Cmd/Root.antt =====
-- cmd/burntd/root.go: how the node makes the application, and how the command export runs.
pub mod Commands
pub mod Exported
use burnt.Base.{
  ℕ, Bool, true, false, ◌==◌, List, Bytes, length, Option, none, some, if◌then◌else◌, Result, ok,
  err, panic, home_not_set, sdk_error, ◌∷◌, [],
}
use burnt.Base.Call.{Call, pure, lift, get, put, ◌>>=◌, ◌>>◌, must}
use burnt.App.Keepers.{Keepers}
use burnt.App.Export.{ExportedApp, export_app_state_and_validators}
use burnt.App.Start.{ℤ, pos, negsuc, Startup, new_wasm_app, load_height}

-- `height == -1`
unfoldable pub is_latest : ℤ → Bool
is_latest (pos n) = false
is_latest (negsuc n) = n == 0

-- `appOpts.Get(flags.FlagHome).(string)`: there is a string, and it is not empty.
unfoldable pub home_path : Option Bytes → Result Bytes
home_path none = err home_not_set
home_path (some path) = if length path == 0 then err home_not_set else ok path

-- The options of the application that `newApp` reads, as their types are cast.
pub record AppOptions : Type 0 where
  pub inter_block_cache : Bool
  pub unsafe_skip_upgrades : List ℤ
  pub telemetry_enabled : Bool
  pub min_gas_prices : Bytes
  pub halt_height : ℕ
  pub halt_time : ℕ
  pub min_retain_blocks : ℕ
  pub trace : Bool
  pub index_events : List Bytes
  pub snapshot_interval : ℕ
  pub snapshot_keep_recent : ℕ

-- What `newApp` opens before it makes the application.
pub record Opened : Type 1 where
  pub Pruning : Type 0
  pub Snapshots : Type 0
  pub Database : Type 0
  pub get_pruning_options_from_flags : Result Pruning
  pub new_level_db : Result Database
  pub new_store : Database → Result Snapshots

-- What the base application is told. A cache between blocks is there, or is nil.
pub data BaseAppOption (o : Opened) : Type 0 where
  set_pruning : o.Pruning → BaseAppOption o
  set_min_gas_prices : Bytes → BaseAppOption o
  set_halt_height set_halt_time set_min_retain_blocks : ℕ → BaseAppOption o
  set_inter_block_cache set_trace : Bool → BaseAppOption o
  set_index_events : List Bytes → BaseAppOption o
  set_snapshot_store : o.Snapshots → BaseAppOption o
  set_snapshot_interval set_snapshot_keep_recent : ℕ → BaseAppOption o

unfoldable pub base_app_options :
    (o : Opened) → AppOptions → o.Pruning → o.Snapshots → List (BaseAppOption o)
base_app_options o opts pruning_opts snapshot_store =
    set_pruning pruning_opts
    ∷ set_min_gas_prices opts.min_gas_prices
    ∷ set_halt_height opts.halt_height
    ∷ set_halt_time opts.halt_time
    ∷ set_min_retain_blocks opts.min_retain_blocks
    ∷ set_inter_block_cache opts.inter_block_cache
    ∷ set_trace opts.trace
    ∷ set_index_events opts.index_events
    ∷ set_snapshot_store snapshot_store
    ∷ set_snapshot_interval opts.snapshot_interval
    ∷ set_snapshot_keep_recent opts.snapshot_keep_recent
    ∷ []

-- What `newApp` passes on: the heights of upgrades that are skipped, whether the cache of the wasm
-- machine is measured, and the options of the base application.
pub record Passed (o : Opened) : Type 0 where
  pub skip_upgrade_heights : List ℤ
  pub vm_cache_metrics : Bool
  pub base_options : List (BaseAppOption o)

module _ {S P : Type 0} (startup : Startup S) (get_enabled_proposals : Result (List P)) where
  unfoldable pub new_app : (o : Opened) → AppOptions → Call S (Passed o)
  new_app o opts = do
    pruning_opts ← lift (must o.get_pruning_options_from_flags)
    snapshot_db ← lift (must o.new_level_db)
    snapshot_store ← lift (must (o.new_store snapshot_db))
    enabled ← lift get_enabled_proposals
    done ← new_wasm_app startup true
    pure (record {
      skip_upgrade_heights = opts.unsafe_skip_upgrades;
      vm_cache_metrics = opts.telemetry_enabled;
      base_options = base_app_options o opts pruning_opts snapshot_store;
    })

module _ (k : Keepers) {P : Type 0} (startup : Startup k.Chain)
    (get_enabled_proposals : Result (List P)) where
  unfoldable pub app_export : Option Bytes → ℤ → Bool → List Bytes → Call k.Chain ExportedApp
  app_export home height for_zero_height jail_allowed_addrs = do
    path ← lift (home_path home)
    enabled ← lift get_enabled_proposals
    made ← new_wasm_app startup (is_latest height)
    loaded ← (if is_latest height then pure tt else load_height startup height)
    export_app_state_and_validators k for_zero_height jail_allowed_addrs
