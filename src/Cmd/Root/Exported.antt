-- ===== src/Cmd/Root/Exported.antt =====
-- What the command export exports: cmd/burntd/root.go, with app/export.go behind it.
use burnt.Base.{ℕ, ◌==◌, ◌≡◌, Bool, true, false, List, Bytes, length, some, Result, ok, arith, ap}
use burnt.App.Keepers.{Keepers}
use burnt.App.Export.{export_app_state_and_validators, or_panic_call}
use burnt.App.Start.{
  pos, negsuc, Startup, new_wasm_app, load_latest, load_height, snapshot_extensions,
}
use burnt.Cmd.Root.{app_export, home_path, is_latest}

module _ (k : Keepers) {P : Type 0} (startup : Startup k.Chain) (proposals : Result (List P)) where
  -- The application is made, apart from what it loads.
  abbrev pub Starts : Type 0
  Starts =
      (startup.read_wasm_config ≡ ok tt)
      × (startup.new_ante_handler ≡ ok tt)
      × (snapshot_extensions startup.register_extensions ≡ ok tt)

  starts :
      (latest : Bool) (c : k.Chain)
      → Starts
      → new_wasm_app startup latest c ≡ load_latest startup latest c
  unfolding new_wasm_app
  starts latest c (config, ante, snapshots) = ground arith

  -- Where the node's home is set, the enabled proposals are read and the application starts: the
  -- export command at a height that loads is the export of the state as that version of the store
  -- holds it, and the latest version is not loaded.
  pub app_export_at :
      (path : Bytes) (enabled : List P) (height : ℕ) (allowed : List Bytes) (c c' : k.Chain)
      → length path == 0 ≡ false
      → proposals ≡ ok enabled
      → Starts
      → startup.load_version (pos height) c ≡ (ok tt, c')
      → (for_zero : Bool)
      → app_export k startup proposals (some path) (pos height) for_zero allowed c
        ≡ export_app_state_and_validators k for_zero allowed c'
  unfolding app_export home_path is_latest new_wasm_app load_latest load_height
  app_export_at path enabled height allowed c c' named e ready loaded for_zero =
      let made = starts false c ready in
      let l0 : (startup.load_version (pos height) c).0 ≡ ok tt = ap (λ p. p.0) loaded in
      let l1 : (startup.load_version (pos height) c).1 ≡ c' = ap (λ p. p.1) loaded in ground arith

  pub app_export_latest :
      (path : Bytes) (enabled : List P) (allowed : List Bytes) (c c1 c2 : k.Chain)
      → length path == 0 ≡ false
      → proposals ≡ ok enabled
      → Starts
      → startup.load_latest_version c ≡ (ok tt, c1)
      → startup.initialize_pinned_codes c1 ≡ (ok tt, c2)
      → (for_zero : Bool)
      → app_export k startup proposals (some path) (negsuc 0) for_zero allowed c
        ≡ export_app_state_and_validators k for_zero allowed c2
  unfolding app_export home_path is_latest new_wasm_app load_latest or_panic_call
  app_export_latest path enabled allowed c c1 c2 named e ready loaded pinned for_zero =
      let made = starts true c ready in
      let l0 : (startup.load_latest_version c).0 ≡ ok tt = ap (λ p. p.0) loaded in
      let l1 : (startup.load_latest_version c).1 ≡ c1 = ap (λ p. p.1) loaded in
      let p0 : (startup.initialize_pinned_codes c1).0 ≡ ok tt = ap (λ p. p.0) pinned in
      let p1 : (startup.initialize_pinned_codes c1).1 ≡ c2 = ap (λ p. p.1) pinned in ground arith
