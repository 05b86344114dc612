-- ===== src/App/Tests.antt =====
-- The validation of genesis accounts at a concrete input.
use pointpay_chain.Prelude.{ℕ, ◌≡◌, ◌↔◌, ◌⊎◌, true, List, [], Outcome, ok, ◌==◌}
use pointpay_chain.Prelude.Text.{Bytes, codes}
use pointpay_chain.Prelude.Int.{pos, ◌<ℤ◌}
use pointpay_chain.App.{AccountError, GenesisAccount, validate_account}
use pointpay_chain.App.Accounts.{validate_account_iff}

abbrev base_passes : ℕ → Outcome (AccountError ℕ) (Unit {0})
base_passes n = ok tt

abbrev module_passes : ℕ → Bytes → List Bytes → Outcome (AccountError ℕ) (Unit {0})
module_passes n name permissions = ok tt

abbrev vesting : GenesisAccount ℕ ℕ
vesting = record {
  base_account = 1;
  original_vesting = 5;
  start_time = pos 3;
  end_time = pos 4;
  module_name = codes "m";
  module_permissions = [];
}

validate_account_iff_example :
    (validate_account (λ c. c == 0) module_passes base_passes vesting ≡ ok tt) ↔ (
      ((vesting.original_vesting == 0 ≡ true) ⊎ (pos 3 <ℤ pos 4))
      × ((vesting.module_name ≡ []) ⊎ (module_passes 1 (codes "m") [] ≡ ok tt))
      × (base_passes 1 ≡ ok tt))
validate_account_iff_example = validate_account_iff (λ c. c == 0) module_passes base_passes vesting
