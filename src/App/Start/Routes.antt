-- ===== src/App/Start/Routes.antt =====
-- Which proposals are routed: app/app.go.
use burnt.Base.{◌≡◌, refl, not, ◌==◌, List, length, Bool-cases, inl, inr}
use burnt.App.Names.{wasm, index}
use burnt.App.Accounts.{Proposals}
use burnt.App.Wiring.Resolved.{has_name}
use burnt.App.Start.{gov_routes}

module _ (w : Proposals) (enabled : List w.ProposalType) where
  gov_routes_enabled : has_name wasm (gov_routes enabled) ≡ not (length enabled == 0)
  unfolding gov_routes has_name index
  gov_routes_enabled = elim (Bool-cases (length enabled == 0)) [
    | inl none_enabled ↦ rw none_enabled refl
    | inr some_enabled ↦ rw some_enabled refl
  ]
