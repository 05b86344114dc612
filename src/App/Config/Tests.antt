-- ===== src/App/Config/Tests.antt =====
-- The theorems on the module accounts at concrete names.
use pointpay_chain.Prelude.{none, true, ◌≡◌, ◌⊎◌, refl, true, none, some, [], ◌∷◌, ok, arith}
use pointpay_chain.Prelude.Text.{Bytes, codes, bytes_eq}
use pointpay_chain.Prelude.Int.{pos}
use pointpay_chain.Pnp.Vault.{vault_module_account}
use pointpay_chain.App.Export.{among}
use pointpay_chain.App.Config.{Names, economy, module_acc_perms, get_macc_perms, add_perms, assign}
use pointpay_chain.App.Config.Accounts.{only_two_mint, vaults_registered}

abbrev names : Names
names = record {
  fee_collector = codes "fee_collector";
  distr = codes "distribution";
  mint = codes "mint";
  staking = codes "staking";
  bonded_pool = codes "bonded_tokens_pool";
  not_bonded_pool = codes "not_bonded_tokens_pool";
  gov = codes "gov";
  nft = codes "nft";
  ibc_transfer = codes "transfer";
  ibc_fee = codes "feeibc";
  ica = codes "interchainaccounts";
  minter = codes "minter";
  burner = codes "burner";
}

only_two_mint_example : (names.mint ≡ names.mint) ⊎ (names.mint ≡ names.ibc_transfer)
unfolding get_macc_perms module_acc_perms economy add_perms assign bytes_eq among
only_two_mint_example = only_two_mint names names.mint (codes "minter" ∷ []) refl refl refl refl

vaults_registered_example :
    (name : Bytes) × (vault_module_account (pos 2030) ≡ ok name)
    × (get_macc_perms names name ≡ some [])
vaults_registered_example = vaults_registered names 2030 (omega arith) (omega arith)
