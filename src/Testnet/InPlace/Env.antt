-- ===== src/Testnet/InPlace/Env.antt =====
-- What the in-place testnet (pointpay/cmd/pointpayd/cmd/testnet.go) takes from the Cosmos SDK.
use pointpay_chain.Prelude.{ℕ, Bool, List, Option}
use pointpay_chain.Prelude.Text.{Bytes}
use pointpay_chain.App.Process.{Call}

-- The parts of the staking store that are emptied: the power index, the last validators, the
-- validators, and the queue of unbonding validators.
pub data StakingPart : Type 0 where
  power_index last_validators validators validator_queue : StakingPart

-- `stakingtypes.Validator`, as the command makes one. Decimals are made of their texts.
pub record NewValidator (Any Dec' : Type 0) : Type 0 where
  pub operator_address : Bytes
  pub consensus_pubkey : Any
  pub jailed : Bool
  pub bonded : Bool
  pub tokens : ℕ
  pub delegator_shares : Dec'
  pub moniker : Bytes
  pub rate : Dec'
  pub max_rate : Dec'
  pub max_change_rate : Dec'
  pub min_self_delegation : ℕ

pub record Chain : Type 1 where
  pub State : Type 0
  pub Key : Type 0
  pub Any : Type 0
  pub Decimal : Type 0
  pub key_bytes : Key → Bytes
  -- NewAnyWithValue of an ed25519 key, LegacyMustNewDecFromStr on a literal, and StringToBytes
  pub any_of_key : Bytes → Option Any
  pub decimal : Bytes → Decimal
  pub operator_bytes : Bytes → Option Bytes
  -- The keys that an iterator over a part gives, and whether the keeper's iterator fails
  pub keys : StakingPart → State → List Bytes
  pub iterator_fails : StakingPart → State → Bool
  pub delete : Bytes → State → State
  -- The staking keeper and its hooks
  pub set_validator : NewValidator Any Decimal → Call State
  pub set_validator_by_cons_addr : NewValidator Any Decimal → Call State
  pub set_validator_by_power_index : NewValidator Any Decimal → Call State
  pub set_last_validator_power : Bytes → ℕ → Call State
  pub after_validator_created : Bytes → Call State
  pub bond_denom : State → Option Bytes
  -- The distribution keeper, with empty coins: historical rewards for a period with a count of
  -- references, current rewards with a period, the commission and the outstanding rewards
  pub set_historical_rewards : Bytes → ℕ → ℕ → Call State
  pub set_current_rewards : Bytes → ℕ → Call State
  pub set_accumulated_commission : Bytes → Call State
  pub set_outstanding_rewards : Bytes → Call State
  -- The slashing keeper: address, its text, the height from which the validator signs
  pub cons_text : Bytes → Bytes
  pub last_block_height : State → ℕ
  pub set_signing_info : Bytes → Bytes → ℕ → Bool → Call State
  -- The bank keeper, for the account of a module
  pub mint_module : Bytes
  pub mint_coins : Bytes → Bytes → ℕ → Call State
  pub send_coins : Bytes → Bytes → Bytes → ℕ → Call State
