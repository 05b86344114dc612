-- ===== src/App/Config/Accounts.antt =====
-- Who may mint, which accounts the economy has, and which addresses are blocked
-- (pointpay/app/app_config.go and pointpay/app/app.go).
use mathlib.Core.Path.{subst}
use pointpay_chain.Prelude.{
  zero, suc, ℕ, ◌+◌, ◌-◌, ◌<◌, ◌≤◌, ◌≡◌, ◌⊎◌, inl, inr, refl, sym, ap, ◌∙◌, Bool, true, false,
  Bool-cases, List, [], ◌∷◌, none, some, ok, if◌then◌else◌, All, arith,
}
use pointpay_chain.Prelude.Text.{Bytes, codes, bytes_eq, bytes_eq→eq}
use pointpay_chain.Prelude.Int.{pos}
use pointpay_chain.Pnp.Vault.{vault_module_account, itoa, itoa_loop}
use pointpay_chain.App.Export.{among}
use pointpay_chain.App.Export.Table.{either_way}
use pointpay_chain.App.Config.{
  Names, AccountPermission, economy, module_acc_perms, block_acc_addrs, GoMap, assign, add_perms,
  get_macc_perms, add_blocked, blocked_from, blocked_addresses,
}

module _ (P : Bytes → List Bytes → Type 0) where
  -- What is found in the map is one of the entries, or was there before.
  pub add_perms_finds :
      (ps : List AccountPermission) (dup : GoMap (List Bytes)) (a : Bytes) (perms : List Bytes)
      → All (λ p. P p.account p.permissions) ps
      → ((found : List Bytes) → dup a ≡ some found → P a found)
      → add_perms dup ps a ≡ some perms
      → P a perms
  unfolding add_perms assign
  add_perms_finds [] dup a perms all before e = before perms e
  add_perms_finds (p ∷ ps) dup a perms (one, all) before e =
      add_perms_finds ps (assign dup p.account p.permissions) a perms all
        (λ found e1. elim (Bool-cases (bytes_eq p.account a)) [
          | inl same ↦
              let here : some p.permissions ≡ some found = rw same at e1 in
              let perms_same : p.permissions ≡ found = cc in
              subst (λ t. P t found) (bytes_eq→eq p.account a same)
                (subst (λ t. P p.account t) perms_same one)
          | inr differ ↦ before found (rw differ at e1)
        ])
        e

abbrev MintsOnly : Names → Bytes → List Bytes → Type 0
MintsOnly names a perms =
    among names.minter perms ≡ true → (a ≡ names.mint) ⊎ (a ≡ names.ibc_transfer)

powerless : (names : Names) (a : Bytes) → MintsOnly names a []
unfolding among
powerless names a e = cc

-- Burner and the permission of the staking module, where they are other texts than Minter.
pool_powerless :
    (names : Names) (a : Bytes)
    → bytes_eq names.burner names.minter ≡ false
    → bytes_eq names.staking names.minter ≡ false
    → MintsOnly names a (names.burner ∷ names.staking ∷ [])
unfolding among
pool_powerless names a burns stakes m = let off : false ≡ true = rw (burns, stakes) at m in cc

gov_powerless :
    (names : Names) (a : Bytes)
    → bytes_eq names.burner names.minter ≡ false
    → MintsOnly names a (names.burner ∷ [])
unfolding among
gov_powerless names a burns m = let off : false ≡ true = rw burns at m in cc

economy_free : All (λ p. p.permissions ≡ []) economy
unfolding economy
economy_free = (
  refl,
  (
    refl,
    (
      refl,
      (refl, (refl, (refl, (refl, (refl, (refl, (refl, (refl, (refl, (refl, (refl, tt))))))))))),
    ),
  ),
)

each_powerless :
    (names : Names) (ps : List AccountPermission)
    → All (λ p. p.permissions ≡ []) ps
    → All (λ p. MintsOnly names p.account p.permissions) ps
each_powerless names [] all = tt
each_powerless names (p ∷ ps) (one, all) =
    (rw one (powerless names p.account), each_powerless names ps all)

-- Only the accounts of the mint module and of the IBC transfer module may mint: any account with the
-- permission is one of the two, if the permissions Burner and that of the staking module are other
-- texts than Minter.
pub only_two_mint :
    (names : Names) (a : Bytes) (perms : List Bytes)
    → bytes_eq names.burner names.minter ≡ false
    → bytes_eq names.staking names.minter ≡ false
    → get_macc_perms names a ≡ some perms
    → among names.minter perms ≡ true
    → (a ≡ names.mint) ⊎ (a ≡ names.ibc_transfer)
unfolding get_macc_perms module_acc_perms
only_two_mint names a perms burns stakes e mints =
    let no = λ (b : Bytes). powerless names b in
    add_perms_finds (MintsOnly names) (module_acc_perms names) (λ _. none) a perms
      (
        no _,
        (
          no _,
          (
            (λ _. inl refl),
            (
              pool_powerless names _ burns stakes,
              (
                pool_powerless names _ burns stakes,
                (
                  gov_powerless names _ burns,
                  (
                    no _,
                    ((λ _. inr refl), (no _, (no _, each_powerless names economy economy_free))),
                  ),
                ),
              ),
            ),
          ),
        ),
      )
      (λ found none_found. cc) e mints

-- The names that entries are for.
abbrev pub accounts_of : List AccountPermission → List Bytes
accounts_of [] = []
accounts_of (p ∷ ps) = p.account ∷ accounts_of ps

-- The map after the entries of one economy's kind.
no_permission :
    (ps : List AccountPermission) (dup : GoMap (List Bytes)) (a : Bytes)
    → All (λ p. p.permissions ≡ []) ps
    → (dup a ≡ some []) ⊎ (among a (accounts_of ps) ≡ true)
    → add_perms dup ps a ≡ some []
unfolding add_perms assign among
no_permission [] dup a all (inl e) = e
no_permission [] dup a all (inr e) = cc
no_permission (p ∷ ps) dup a (one, all) h =
    no_permission ps (assign dup p.account p.permissions) a all
      (next (Bool-cases (bytes_eq p.account a)) h)
  where
    next :
        (bytes_eq p.account a ≡ true) ⊎ (bytes_eq p.account a ≡ false)
        → (dup a ≡ some []) ⊎ (among a (p.account ∷ accounts_of ps) ≡ true)
        → (assign dup p.account p.permissions a ≡ some []) ⊎ (among a (accounts_of ps) ≡ true)
    next (inl same) h = inl (rw same (ap some one))
    next (inr differ) (inl old) = inl (rw differ old)
    next (inr differ) (inr later) = inr (rw differ at later)

vault_year :
    (names : Names) (i : ℕ)
    → i < 9
    → (name : Bytes) × (vault_module_account (pos (2026 + i)) ≡ ok name)
      × (get_macc_perms names name ≡ some [])
unfolding vault_module_account itoa itoa_loop get_macc_perms module_acc_perms economy add_perms
    assign bytes_eq
vault_year names zero h = (codes "pnp_vault_2026", refl, refl)
vault_year names (suc zero) h = (codes "pnp_vault_2027", refl, refl)
vault_year names (suc (suc zero)) h = (codes "pnp_vault_2028", refl, refl)
vault_year names (suc (suc (suc zero))) h = (codes "pnp_vault_2029", refl, refl)
vault_year names (suc (suc (suc (suc zero)))) h = (codes "pnp_vault_2030", refl, refl)
vault_year names (suc (suc (suc (suc (suc zero))))) h = (codes "pnp_vault_2031", refl, refl)
vault_year names (suc (suc (suc (suc (suc (suc zero)))))) h = (codes "pnp_vault_2032", refl, refl)
vault_year names (suc (suc (suc (suc (suc (suc (suc zero))))))) h =
    (codes "pnp_vault_2033", refl, refl)
vault_year names (suc (suc (suc (suc (suc (suc (suc (suc zero)))))))) h =
    (codes "pnp_vault_2034", refl, refl)
vault_year names (suc (suc (suc (suc (suc (suc (suc (suc (suc i))))))))) h = absurd (omega arith)

-- Every account of the economy is registered without a permission, whatever the names of the modules of
-- the SDK are.
pub economy_powerless :
    (names : Names) (a : Bytes)
    → among a (accounts_of economy) ≡ true
    → get_macc_perms names a ≡ some []
unfolding get_macc_perms module_acc_perms add_perms
economy_powerless names a e = no_permission economy _ a economy_free (inr e)

-- Each year from 2026 to 2034 has a vault: the name that `VaultModuleAccount` gives for it is that of a
-- registered module account, which has no permission.
pub vaults_registered :
    (names : Names) (year : ℕ)
    → 2026 ≤ year
    → year ≤ 2034
    → (name : Bytes) × (vault_module_account (pos year) ≡ ok name)
      × (get_macc_perms names name ≡ some [])
vaults_registered names year from to =
    let (name, named, registered) = vault_year names (year - 2026) (omega arith) in
    let same : 2026 + (year - 2026) ≡ year = omega arith in
    (name, ap (λ (y : ℕ). vault_module_account (pos y)) (sym same) ∙ named, registered)

-- What is blocked besides what the map has.
add_blocked_lem :
    (addrs : List Bytes) (m : GoMap Bool) (a : Bytes)
    → add_blocked m addrs a ≡ (if among a addrs then some true else m a)
unfolding add_blocked assign among
add_blocked_lem [] m a = refl
add_blocked_lem (b ∷ addrs) m a =
    add_blocked_lem addrs (assign m b true) a ∙ elim (Bool-cases (bytes_eq b a)) [
      | inl same ↦ rw same (either_way (among a addrs) (some true) (some true) refl)
      | inr differ ↦ rw differ refl
    ]

-- The blocked addresses are those of the list, and no others: the accounts of the economy and of the
-- governance module are blocked only if their name is one of these.
pub blocked_addresses_lem :
    (names : Names) (a : Bytes)
    → blocked_addresses names a ≡ (if among a (block_acc_addrs names) then some true else none)
unfolding blocked_addresses blocked_from block_acc_addrs
blocked_addresses_lem names a = add_blocked_lem (block_acc_addrs names) (λ _. none) a
