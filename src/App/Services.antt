-- ===== src/App/Services.antt =====
-- `RegisterAPIRoutes`, `RegisterSwaggerAPI` and `getGovProposalHandlers` of app/app.go.
use burnt.Base.{Bool, List, [], ◌∷◌, ◌++◌, if◌then◌else◌, Result, ok, ◌>>=◌}
use burnt.Base.Call.{must}

-- A route that is registered with the server of the node: the client's, the legacy transactions',
-- those of the gateway, the modules', and the files of the documentation.
pub data ApiRoute : Type 0 where
  rpc_routes tx_routes tx_gateway_routes tendermint_gateway_routes : ApiRoute
  module_rest_routes module_gateway_routes swagger_files : ApiRoute

-- `RegisterSwaggerAPI`, over the file system that is compiled in.
unfoldable pub register_swagger_api : {F : Type 0} → Result F → Result (List ApiRoute)
register_swagger_api new_fs = do statik_fs ← must new_fs; ok (swagger_files ∷ [])

unfoldable pub register_api_routes : {F : Type 0} → Bool → Result F → Result (List ApiRoute)
register_api_routes swagger new_fs = do
  files ← if swagger then register_swagger_api new_fs else ok []
  ok (
      (rpc_routes ∷ tx_routes ∷ tx_gateway_routes ∷ tendermint_gateway_routes ∷ module_rest_routes
        ∷ module_gateway_routes ∷ [])
      ++ files)

-- The handlers of proposals that the gov module's commands know.
pub data ProposalHandler : Type 0 where
  params_handler distr_handler upgrade_handler cancel_upgrade_handler : ProposalHandler
  update_client_handler upgrade_client_handler : ProposalHandler

unfoldable pub get_gov_proposal_handlers : List ProposalHandler
get_gov_proposal_handlers =
    params_handler ∷ distr_handler ∷ upgrade_handler ∷ cancel_upgrade_handler
    ∷ update_client_handler ∷ upgrade_client_handler ∷ []
