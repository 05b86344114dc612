-- ===== src/App/Export/Env.antt =====
-- What the state export (pointpay/app/export.go) takes from the Cosmos SDK: values with the fields that it
-- reads or writes, and calls of the keepers. The first argument of a keeper's call is the block height
-- of its context.
use pointpay_chain.Prelude.{ℕ, Bool, List, Option}
use pointpay_chain.Prelude.Text.{Bytes}
use pointpay_chain.App.Process.{Call}

-- `stakingtypes.Validator`
pub record Validator (Data : Type 0) : Type 0 where
  pub operator : Bytes
  pub unbonding_height : ℕ
  pub jailed : Bool
  pub details : Data

-- An entry of a redelegation or an unbonding delegation.
pub record Entry (Data : Type 0) : Type 0 where
  pub creation_height : ℕ
  pub details : Data

-- `stakingtypes.Redelegation` and `stakingtypes.UnbondingDelegation`
pub record Unbonding (Data : Type 0) : Type 0 where
  pub entries : List (Entry Data)
  pub details : Data

-- `stakingtypes.Delegation`
pub record Delegation : Type 0 where
  pub validator_address : Bytes
  pub delegator_address : Bytes

-- `slashingtypes.ValidatorSigningInfo`
pub record SigningInfo (Data : Type 0) : Type 0 where
  pub start_height : ℕ
  pub details : Data

pub record Sdk : Type 1 where
  pub State : Type 0
  pub Data : Type 0
  pub Coins : Type 0
  -- ValAddressFromBech32, AccAddressFromBech32, StringToBytes of the validator codec, and the text of a
  -- validator's address
  pub val_address : Bytes → Option Bytes
  pub acc_address : Bytes → Option Bytes
  pub operator_address : Bytes → Option Bytes
  pub val_text : Bytes → Bytes
  -- AssertInvariants: whether one is broken, on which it panics
  pub assert_invariants : ℕ → Call State
  pub iterate_validators : ℕ → State → List (Validator Data) × Bool
  pub withdraw_commission : ℕ → Bytes → Call State
  pub all_delegations : ℕ → State → Option (List Delegation)
  pub withdraw_rewards : ℕ → Bytes → Bytes → Call State
  pub delete_slash_events : ℕ → State → State
  pub delete_historical_rewards : ℕ → State → State
  pub outstanding_rewards : ℕ → Bytes → State → Option Coins
  pub fee_pool : ℕ → State → Option Coins
  pub add_coins : Coins → Coins → Coins
  pub set_fee_pool : ℕ → Coins → Call State
  pub after_validator_created : ℕ → Bytes → Call State
  pub before_delegation_created : ℕ → Bytes → Bytes → Call State
  pub after_delegation_modified : ℕ → Bytes → Bytes → Call State
  pub iterate_redelegations : ℕ → State → List (Unbonding Data) × Bool
  pub set_redelegation : ℕ → Unbonding Data → Call State
  pub iterate_unbonding : ℕ → State → List (Unbonding Data) × Bool
  pub set_unbonding : ℕ → Unbonding Data → Call State
  -- The addresses in the keys under ValidatorsKey, from the last one, and whether `Close` fails
  pub validator_addresses : State → List Bytes
  pub close_fails : State → Bool
  pub get_validator : ℕ → Bytes → State → Option (Validator Data)
  pub set_validator : ℕ → Validator Data → Call State
  pub apply_updates : ℕ → Call State
  pub iterate_signing_infos : ℕ → State → List (Bytes × SigningInfo Data) × Bool
  pub set_signing_info : ℕ → Bytes → SigningInfo Data → Call State
  -- LastBlockHeight, ExportGenesisForModules with MarshalIndent (`none` is an error of either),
  -- WriteValidators with its error, and GetConsensusParams
  pub Json : Type 0
  pub Validators : Type 0
  pub ConsensusParams : Type 0
  pub last_block_height : State → ℕ
  pub export_genesis : ℕ → List Bytes → State → Option Json
  pub write_validators : ℕ → State → Validators × Bool
  pub consensus_params : ℕ → State → ConsensusParams
  -- app.New, with the latest state or an empty one, and LoadHeight; `none` is an error
  pub new_app : Bool → Option State
  pub load_height : ℕ → State → Option State
