-- ===== src/App/Config.antt =====
-- The module accounts of the application: `moduleAccPerms` and `blockAccAddrs` of
-- pointpay/app/app_config.go, `GetMaccPerms` and `BlockedAddresses` of pointpay/app/app.go, and the names of
-- the pools in pointpay/x/pnp/types/constants.go. The names of the SDK's and IBC's modules are parameters.
pub mod Accounts
pub mod Blocked
mod Tests
use pointpay_chain.Prelude.{Bool, true, false, List, [], ◌∷◌, Option, none, some, if◌then◌else◌}
use pointpay_chain.Prelude.Text.{Bytes, codes, bytes_eq}

-- `ModuleName`, in the package of this name, but for FeeCollectorName and the names of the two pools of
-- the staking module; and the permissions Minter and Burner.
pub record Names : Type 0 where
  pub fee_collector : Bytes
  pub distr : Bytes
  pub mint : Bytes
  pub staking : Bytes
  pub bonded_pool : Bytes
  pub not_bonded_pool : Bytes
  pub gov : Bytes
  pub nft : Bytes
  pub ibc_transfer : Bytes
  pub ibc_fee : Bytes
  pub ica : Bytes
  pub minter : Bytes
  pub burner : Bytes

abbrev pub module_name : Bytes
module_name = codes "pnp"

abbrev pub pool_sale : Bytes
pool_sale = codes "pnp_sale"

abbrev pub pool_marketing : Bytes
pool_marketing = codes "pnp_marketing"

abbrev pub pool_creator : Bytes
pool_creator = codes "pnp_creator"

abbrev pub pool_founder : Bytes
pool_founder = codes "pnp_founder"

-- `authmodulev1.ModuleAccountPermission`
pub record AccountPermission : Type 0 where
  pub account : Bytes
  pub permissions : List Bytes

abbrev permit : Bytes → List Bytes → AccountPermission
permit account permissions = record { account = account; permissions = permissions }

-- The accounts of the economy.
unfoldable pub economy : List AccountPermission
economy =
    permit module_name []
    ∷ permit pool_sale []
    ∷ permit pool_marketing []
    ∷ permit pool_creator []
    ∷ permit pool_founder []
    ∷ permit (codes "pnp_vault_2026") []
    ∷ permit (codes "pnp_vault_2027") []
    ∷ permit (codes "pnp_vault_2028") []
    ∷ permit (codes "pnp_vault_2029") []
    ∷ permit (codes "pnp_vault_2030") []
    ∷ permit (codes "pnp_vault_2031") []
    ∷ permit (codes "pnp_vault_2032") []
    ∷ permit (codes "pnp_vault_2033") []
    ∷ permit (codes "pnp_vault_2034") []
    ∷ []

unfoldable pub module_acc_perms : Names → List AccountPermission
module_acc_perms names =
    permit names.fee_collector []
    ∷ permit names.distr []
    ∷ permit names.mint (names.minter ∷ [])
    ∷ permit names.bonded_pool (names.burner ∷ names.staking ∷ [])
    ∷ permit names.not_bonded_pool (names.burner ∷ names.staking ∷ [])
    ∷ permit names.gov (names.burner ∷ [])
    ∷ permit names.nft []
    ∷ permit names.ibc_transfer (names.minter ∷ names.burner ∷ [])
    ∷ permit names.ibc_fee []
    ∷ permit names.ica []
    ∷ economy

unfoldable pub block_acc_addrs : Names → List Bytes
block_acc_addrs names =
    names.fee_collector ∷ names.distr ∷ names.mint ∷ names.bonded_pool ∷ names.not_bonded_pool
    ∷ names.nft ∷ []

-- A Go map, and `m[k] = v`.
abbrev pub GoMap : Type 0 → Type 0
GoMap A = Bytes → Option A

unfoldable pub assign : {A : Type 0} → GoMap A → Bytes → A → GoMap A
assign m k v j = if bytes_eq k j then some v else m j

unfoldable pub add_perms : GoMap (List Bytes) → List AccountPermission → GoMap (List Bytes)
add_perms dup [] = dup
add_perms dup (p ∷ ps) = add_perms (assign dup p.account p.permissions) ps

unfoldable pub get_macc_perms : Names → GoMap (List Bytes)
get_macc_perms names = add_perms (λ _. none) (module_acc_perms names)

unfoldable pub add_blocked : GoMap Bool → List Bytes → GoMap Bool
add_blocked result [] = result
add_blocked result (a ∷ addrs) = add_blocked (assign result a true) addrs

-- Every account of a map is blocked.
abbrev pub all_blocked : {A : Type 0} → GoMap A → GoMap Bool
all_blocked m a = elim (m a) [ none ↦ none | some v ↦ some true ]

unfoldable pub blocked_from : List Bytes → GoMap (List Bytes) → GoMap Bool
blocked_from [] perms = all_blocked perms
blocked_from (a ∷ addrs) perms = add_blocked (λ _. none) (a ∷ addrs)

unfoldable pub blocked_addresses : Names → GoMap Bool
blocked_addresses names = blocked_from (block_acc_addrs names) (get_macc_perms names)
