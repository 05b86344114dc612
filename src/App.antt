-- ===== src/App.antt =====
-- The application of pointpay/app: the accounts of its simulated genesis (genesis_account.go);
-- its children are about the state export and the module accounts.
pub mod Accounts
pub mod Process
pub mod Export
pub mod Config
mod Tests
use pointpay_chain.Prelude.{
  Bool, not, List, [], Outcome, ok, ◌>>=◌, ◌>>◌, fail_if, if◌then◌else◌, ◌&&◌,
}
use pointpay_chain.Prelude.Text.{Bytes, bytes_eq}
use pointpay_chain.Prelude.Int.{ℤ, ltb_ℤ}

-- "vesting start-time cannot be before end-time", or an error of the SDK's validations.
pub data AccountError (E : Type 0) : Type 0 where
  vesting_times : AccountError E
  sdk_error : E → AccountError E

-- The fields that `Validate` reads; the delegated coins are left out.
pub record GenesisAccount (Base Coins : Type 0) : Type 0 where
  pub base_account : Base
  pub original_vesting : Coins
  pub start_time : ℤ
  pub end_time : ℤ
  pub module_name : Bytes
  pub module_permissions : List Bytes

-- `is_zero` is `Coins.IsZero`, `validate_module` the `Validate` of the `ModuleAccount` with a base
-- account, a name and permissions, and `validate_base` that of the `BaseAccount`.
module _ {Base Coins E : Type 0} (is_zero : Coins → Bool)
    (validate_module : Base → Bytes → List Bytes → Outcome (AccountError E) (Unit {0}))
    (validate_base : Base → Outcome (AccountError E) (Unit {0})) where
  pub validate_account : GenesisAccount Base Coins → Outcome (AccountError E) (Unit {0})
  validate_account sga = do
    fail_if (not (is_zero sga.original_vesting) && not (ltb_ℤ sga.start_time sga.end_time))
        vesting_times
    if bytes_eq sga.module_name []
        then ok tt
        else validate_module sga.base_account sga.module_name sga.module_permissions
    validate_base sga.base_account
