-- ===== src/Lib.antt =====
-- The PointPay chain: the module pnp, a Cosmos SDK module that keeps the maximal supply of the coin.
--
-- The module stores one record, Params, with the field max_supply, under one key of its store.
-- It is written by the genesis and by MsgUpdateParams, read by the Params query, by the supply
-- invariant and by the export, and travels as protocol buffers through generated code.
--
-- Files:
--   Prelude, Prelude/*   numbers, lists, bytes, and the outcomes of a Go call (Prelude/Results)
--   Wire/Error           error values of the generated files pointpay/x/pnp/types/*.pb.go
--   Wire/Varint, Wire/Varint/*   the varint loops: Unmarshal's, sov* and encodeVarint*
--   Wire/Skip, Wire/Skip/*       skipParams and its copies
--   Wire/Message, Wire/Message/* the loop of every Unmarshal, with the switch as a parameter
--   Wire/Buffer          how every MarshalToSizedBuffer fills its buffer from the end
--   Wire/Params, Wire/Params/*   pointpay/x/pnp/types/params.pb.go
--   Wire/Embedded, Wire/Embedded/*   a Params field inside another message
--   Wire/Genesis, Wire/Genesis/* pointpay/x/pnp/types/genesis.pb.go
--   Wire/Tx, Wire/Tx/*   pointpay/x/pnp/types/tx.pb.go
--   Wire/Query, Wire/Query/*     pointpay/x/pnp/types/query.pb.go
--   Pnp/Vault, Pnp/Vault/*       VaultModuleAccount and itoa of pointpay/x/pnp/types/constants.go
--   Pnp/Types, Pnp/Types/*       constants.go, params.go, genesis.go, msg_update_params.go, errors.go
--   Pnp/Keeper, Pnp/Keeper/*     pointpay/x/pnp/keeper: GetParams, SetParams, UpdateParams, Params,
--     SupplyInvariantFn and NewKeeper
--   Pnp/Module, Pnp/Module/*     pointpay/x/pnp/module: InitGenesis, ExportGenesis, the JSON entry
--     points, ProvideModule, GenerateGenesisState (Simulation), and the sequences of calls on a running
--     chain (Step and Run)
--   Testnet, Testnet/Stakes, Testnet/Ports   the flags and ports of
--     pointpay/cmd/pointpayd/cmd/testnet_multi_node.go
--   Testnet/Args, Testnet/Args/*   getCommandArgs of pointpay/cmd/pointpayd/cmd/testnet.go
--   Testnet/InPlace, Testnet/InPlace/*   newTestnetApp and initAppForTestnet of the same file: the old
--     validators removed, a new one added, and the accounts funded
--   Testnet/Nodes, Testnet/Nodes/*   the ports, persistent peers and random chain id of testnet_multi_node.go
--   Testnet/Supply       the balances and the supply of the genesis of testnet_multi_node.go
--   App, App/Accounts    GenesisAccount.Validate of pointpay/app/genesis_account.go
--   App/Process          calls of the application that end with a value, a panic, or the process
--   App/Export, App/Export/*     ExportAppStateAndValidators and prepForZeroHeightGenesis of
--     pointpay/app/export.go, and appExport of pointpay/cmd/pointpayd/cmd/commands.go
--   App/Config, App/Config/*     moduleAccPerms and blockAccAddrs of pointpay/app/app_config.go, GetMaccPerms
--     and BlockedAddresses of pointpay/app/app.go
--   Api/Frame, Api/Frame/*   what every ProtoMethods of pointpay/api/pointpay/pnp/*.pulsar.go does around
--     the fields of its message; Api/Text and Api/Pointer are its string field and its *Params field
--   Api/Reflect, Api/Reflect/*   what Has, Clear, Get, Set, Mutable, NewField and Range do by the name of
--     a field; Contract is their abstract state, a map from names to values
--   Api/Value, Api/Params, Api/Genesis, Api/Tx/*, Api/Query/*, Api/ModuleConfig, and the Laws and Codec
--     under them   the messages of params, genesis, tx, query and module/module.pulsar.go
--   Api/Runtime          the package cosmos-proto/runtime, as a parameter
--   Wire/Tests, Pnp/Tests, Testnet/Tests, Testnet/InPlace/Tests, Testnet/Nodes/Tests,
--     Testnet/Supply/Tests, App/Tests, App/Export/Tests,
--     App/Config/Tests, Api/Tests   the theorems at concrete inputs
--
-- How code becomes definitions: a call that can fail gives an Outcome: ok, err, panic, or stuck,
-- which marks a loop whose fuel ran out. A keeper call also takes the store and gives it back; an
-- error or a panic keeps what was written before. The state export and the in-place testnet change the
-- whole state of the application, and may also end the process: a Process. A []byte and a string are
-- lists of numbers below 256, a uint64 and an int are their 64-bit patterns, and an int is negative from
-- 2 ^ 63 on; a year, a port and an amount of coins are unbounded integers. A decoder's position is iNdEx
-- with the bytes from there on: a slice that is out of bounds is a panic, a read at a negative index too.
--
-- Fuel: unmarshal_loop and skip_loop take the number of bytes, and each round reads one at least;
-- encode_loop takes nine rounds, which is what a uint64 of ten groups needs; bit_len takes 64.
-- itoa_loop counts down the sixteen bytes of the array, so its end is the code's own panic.
-- The decimals of a testnet take twenty rounds, and an int has at most nineteen digits.
--
-- Parameters: the proto codec on Params, which calls the generated methods (Codec); the key-value
-- store, which gives back what was written under a key and keeps the others (KvStore); the bank's
-- GetSupply; the JSON codec, which reads back what it wrote (JsonCodec); the addresses of the SDK,
-- whose texts parse back (Addresses); for the testnet,
-- NewIntFromString, NewCoin (which panics for a negative amount) and AccAddressFromBech32,
-- the random numbers, and the coins of the genesis (Testnet/Supply); for the accounts, IsZero and
-- the validations of the SDK's accounts; for the export and the in-place testnet, the keepers and stores
-- of the SDK as calls on a state (Sdk and Chain), of which a theorem supposes that a write is read back
-- and leaves other keys alone (Keyed), that an iteration visits all there is (Complete), that the
-- distribution keeps its pool and rewards apart (Distribution), that a deletion takes one key away
-- (Deletes), that the calls for a validator add its keys and no other ones, and the hooks succeed for a
-- validator of the store (Separate), and that the bank mints to its module, and sends what the module
-- has to an account that may receive (Bank); of the genesis' coins, that sorted ones can be added
-- (Adds); for the module
-- accounts, the names of the SDK's and IBC's modules (Names); for the fast paths, Sov,
-- EncodeVarint and Skip of the runtime (Runtime), the values of protoreflect (Values), and the options,
-- which call the methods of Params (Options).
--
-- Not modelled: the texts of errors and of the invariant's message, logging and gas; nil pointers of
-- the messages; registrations of services, routes and interfaces; the getters and descriptors of the
-- generated code, the gateway, the slow reflection and the gRPC stubs; the rest of
-- pointpay/app, which assembles modules of the SDK and of IBC; the commands but for their options,
-- appExport and the in-place testnet, since the rest writes files and keys; the EVM contract, explorer
-- and scripts. An iteration visits what is there when it begins, and its callback never stops it.
pub mod Prelude
pub mod Wire
pub mod Pnp
pub mod Testnet
pub mod App
pub mod Api
