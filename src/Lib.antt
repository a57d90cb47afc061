-- ===== src/Lib.antt =====
-- The schedule module of Burnt: calls of contracts that the chain makes at the end of a block.
--
-- A signer that owns a wasm contract asks the chain to call it at a block height (AddSchedule), or
-- takes the request back (RemoveSchedule). The keeper holds the calls in two indexes of one
-- key-value store: by block height, and by signer and contract. At the end of each block
-- EndBlocker takes out the calls that are due, makes each of them with the contract's balance as
-- its gas limit, has the contract pay the gas, and schedules the call again if its answer names a
-- later block. The application in app makes the module with those of the SDK and runs it at the
-- end of each block; the node in cmd/burntd makes the application, exports its state and prepares
-- its genesis.
--
-- Where the parts are, in the repository and here:
-- - x/schedule/types/keys.go, the keys of the store: Schedule/Keys.
-- - x/schedule/keeper/keeper.go, the two indexes and the loops over them: Schedule/Keeper (the
--   operations on a store, iterateScheduledCalls; Keeper/Paired is about both indexes at once) and
--   Schedule/Consume (ConsumeScheduledCallsByHeight, with one function for the loop and one for
--   its round).
-- - x/schedule/keeper/abci.go: Schedule/EndBlock, in which the callback of EndBlocker is cut at
--   its early returns into consume_call, make_call, run_call, settle_call, after_call and
--   schedule_next (EndBlock/Order describes the whole as one call after the other,
--   EndBlock/Completes says when it completes, by what EndBlock/Calm asks for each call, and
--   EndBlock/Comes follows a call through the blocks to its own, from its AddSchedule on in
--   EndBlock/Accepted, with the rounds of the loop in EndBlock/Rounds);
--   executeMsgWithGasLimit is in Schedule/World; determineGasLimit, which nothing calls, is in
--   Schedule/GasLimit.
-- - x/schedule/keeper/msg_server_add_schedule.go, msg_server_remove_schedule.go and the checks of
--   the messages in x/schedule/types: Schedule/MsgServer.
-- - x/schedule/handler.go: Schedule/Handler. The queries of x/schedule/keeper: Schedule/Query.
-- - x/schedule/genesis.go, x/schedule/types/genesis.go and params.go: Schedule/Genesis.
-- - x/schedule/module.go and module_simulation.go, what the module manager calls: Schedule/Module,
--   with types/codec.go and simulation/simap.go in Module/Codecs.
-- - x/schedule/client/cli, the commands that send the two messages, and in Command/Queries those
--   that query: Schedule/Command.
-- - x/schedule/types/*.pb.go: Wire has the parts that every generated file repeats
--   (variable-length integers, the buffer that is filled from its end, the reading loop, the
--   skipping of unknown fields, and in Wire/Nested the fields that hold a coin); Messages has the
--   messages and the events, with Size, Marshal and Unmarshal.
-- - x/schedule/types/tx.pb.gw.go and query.pb.gw.go: Gateway/Msg and Gateway/Query, with what they
--   share and call in Gateway/Runtime.
-- - app/app.go: App/Wiring (the store keys, the subspaces, and in Wiring/Constructions what each
--   keeper is given), App/Orders (the modules and their orders), App/Accounts (module accounts,
--   enabled proposals, prefixes of addresses), App/Start (the routers, the end of NewWasmApp,
--   InitChainer and the blockers) and App/Services (the routes of the API and the handlers of
--   proposals). The constants of the modules are the names of App/Names.
-- - app/export.go: App/Export, cut at its loops; the keepers' calls are the record of App/Keepers.
-- - cmd/burntd/genaccounts.go, add-genesis-account: Cmd/GenAccounts. cmd/burntd/root.go, newApp
--   and appExport: Cmd/Root, with the commands and what runs before them in Root/Commands; main.go
--   and genwasm.go: Cmd/Main.
-- - integration_tests, the network of validators that the suites start: Testnet, with what it
--   calls in Testnet/Tools, io.go in Testnet/Files, validator.go and keys.go in Testnet/Validator,
--   chain.go in Testnet/Chain and Transactions/Sending, the signing and util.go in
--   Testnet/Transactions, and genesis.go in Testnet/Genesis (getGenDoc is in Testnet/Validator).
-- - Base has the tests on numbers, lists of bytes, results (ok, an error, a panic, or stuck when a
--   bound on rounds is used up), and calls, which read and change a state.
-- - Tests has a concrete SDK, a concrete chain, a concrete gateway and the theorems at concrete
--   inputs.
--
-- The state of a call is the record World: the block height, the parameters, the module's store,
-- the state of the other modules, and the events. What is not in the repository is the record Sdk:
-- the store, the bank and wasm keepers, addresses, coins, big-endian numbers and JSON. Schedule
-- theorems that rest on its behaviour take the records of Sdk/Laws, which state what the SDK
-- documents of its store, its big-endian numbers and its coins. Likewise the records Keepers,
-- Genutil, Runtime, Startup and Chain hold what the export, the command, the gateway and the
-- application call, Tools, TxTools and Files what the test network calls, and CollectionLaws,
-- ValidatorLaws, GenutilLaws and CodecLaws state what theorems ask of them.
--
-- Conventions and bounds:
-- - A uint64 is a number below 2 ^ 64, and sums that can wrap are taken modulo 2 ^ 64. An int that
--   is tested for being negative is a number that is tested against 2 ^ 63. `|=` in the loops that
--   read a number adds, since the bits lie side by side.
-- - Amounts of coins are numbers: balances and parameters that validate are never negative.
-- - A slice is a list of bytes; nil and an empty slice are one. An index or the end of a slice out
--   of range is a panic, also where the guards in front rule it out.
-- - A variable-length integer has ten groups of seven bits at most, so the writing loop has ten
--   rounds; the bits of a uint64 are counted in 64 rounds. The loops of Unmarshal and of the
--   skipping take a byte in each round, so they have as many rounds as the input has bytes.
-- - The iterator of ConsumeScheduledCallsByHeight is read when it is made.
-- - A panic leaves the state as it was at that point; the caller of a message drops it anyway.
-- - A call that ends the process, such as log.Fatal, is a panic that nothing catches.
-- - The order in which Go walks through a map is that of the list that stands for it.
--
-- Not modelled: logging, gas other than that of a scheduled call, the codecs of the parameters and
-- the genesis state, the constructors of the SDK's keepers and modules, the texts and flags of
-- commands, the contexts of clients, the suites of tests and the helpers in testutil.
pub mod Base
pub mod Wire
pub mod Messages
pub mod Sdk
pub mod Schedule
pub mod Testnet
pub mod Gateway
pub mod App
pub mod Cmd
pub mod Tests
