-- ===== src/Testnet/InPlace.antt =====
-- `initAppForTestnet` and `newTestnetApp` of pointpay/cmd/pointpayd/cmd/testnet.go, with the keepers of the
-- SDK as parameters. An int64 is its 64-bit pattern.
pub mod Env
pub mod Cleared
pub mod Funding
pub mod Replaced
mod Tests
use pointpay_chain.Prelude.{
  ℕ, ◌+◌, ◌-◌, ◌%◌, ◌^◌, Bool, true, false, List, [], ◌∷◌, Option, none, some, Outcome, ok, err,
  panic, stuck,
}
use pointpay_chain.Prelude.Text.{Bytes, codes}
use pointpay_chain.App.Process.{
  Ended, done, panicked, exited, Process, go_on, ◌>>=◌, ◌>>◌, pure, Call, exit_on, or_exit, ignored,
  change, value_or_exit, each,
}
use pointpay_chain.Testnet.Args.{ValArgs, ArgsError}
use Env.{
  StakingPart, power_index, last_validators, validators, validator_queue, NewValidator, Chain,
}

-- `valVotingPower`
abbrev pub val_voting_power : ℕ
val_voting_power = 900000000000000

-- The amount that each account gets.
abbrev pub funds : ℕ
funds = 1000000000

module _ (chain : Chain) where
  open chain use {State}

  unfoldable pub new_validator : Bytes → chain.Any → NewValidator chain.Any chain.Decimal
  new_validator operator key = record {
    operator_address = operator;
    consensus_pubkey = key;
    jailed = false;
    bonded = true;
    tokens = val_voting_power;
    delegator_shares = chain.decimal (codes "10000000");
    moniker = codes "Testnet Validator";
    rate = chain.decimal (codes "0.05");
    max_rate = chain.decimal (codes "0.1");
    max_change_rate = chain.decimal (codes "0.05");
    min_self_delegation = 1;
  }

  -- `for ; iterator.Valid(); iterator.Next() { stakingStore.Delete(iterator.Key()) }`
  unfoldable pub remove_part : StakingPart → Process State (Unit {0})
  remove_part part s = each (chain.keys part s) (λ key. change (chain.delete key)) s

  -- A part whose iterator is the keeper's.
  unfoldable pub remove_kept : StakingPart → Process State (Unit {0})
  remove_kept part s = go_on (exit_on (chain.iterator_fails part s) s) (λ _. remove_part part)

  unfoldable pub remove_validators : Process State (Unit {0})
  remove_validators = do
    remove_kept power_index
    remove_kept last_validators
    remove_part validators
    remove_part validator_queue

  unfoldable pub add_validator :
      Bytes → NewValidator chain.Any chain.Decimal → Process State (Unit {0})
  add_validator validator new_val = do
    ignored (chain.set_validator new_val)
    or_exit (chain.set_validator_by_cons_addr new_val)
    ignored (chain.set_validator_by_power_index new_val)
    ignored (chain.set_last_validator_power validator 0)
    or_exit (chain.after_validator_created validator)

  -- The records of the distribution and the slashing module.
  unfoldable pub add_records : Bytes → Bytes → Process State (Unit {0})
  add_records validator cons_addr = do
    ignored (chain.set_historical_rewards validator 0 1)
    ignored (chain.set_current_rewards validator 1)
    ignored (chain.set_accumulated_commission validator)
    ignored (chain.set_outstanding_rewards validator)
    λ s.
        ignored
          (chain.set_signing_info cons_addr (chain.cons_text cons_addr)
            ((chain.last_block_height s + (2 ^ 64 - 1)) % 2 ^ 64) false)
          s

  -- One round of the loop over the accounts.
  unfoldable pub fund_account : Bytes → Bytes → Process State (Unit {0})
  fund_account denom account = do
    or_exit (chain.mint_coins chain.mint_module denom funds)
    or_exit (chain.send_coins chain.mint_module account denom funds)

  unfoldable pub fund_accounts : List Bytes → Process State (Unit {0})
  fund_accounts accounts s =
      go_on (value_or_exit (chain.bond_denom s) s) λ denom. each accounts (fund_account denom)

  unfoldable pub init_app_for_testnet : ValArgs chain.Key Bytes → Process State (Unit {0})
  init_app_for_testnet args = do
    any ← value_or_exit (chain.any_of_key (chain.key_bytes args.new_val_pub_key))
    validator ← value_or_exit (chain.operator_bytes args.new_operator_address)
    remove_validators
    add_validator validator (new_validator args.new_operator_address any)
    add_records validator args.new_val_addr
    fund_accounts args.accounts_to_fund

  -- `newTestnetApp` on the application that `newApp` made, with the outcome of `getCommandArgs`.
  unfoldable pub new_testnet_app :
      Outcome ArgsError (ValArgs chain.Key Bytes) → Process State (Unit {0})
  new_testnet_app (ok args) s = init_app_for_testnet args s
  new_testnet_app (err e) s = panicked s
  new_testnet_app panic s = panicked s
  new_testnet_app stuck s = panicked s
