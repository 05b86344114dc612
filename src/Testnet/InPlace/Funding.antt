-- ===== src/Testnet/InPlace/Funding.antt =====
-- What the in-place testnet mints and sends (pointpay/cmd/pointpayd/cmd/testnet.go).
use pointpay_chain.Prelude.{
  ℕ, ◌+◌, ◌-◌, ◌*◌, ◌≤◌, ◌≡◌, refl, sym, ap, ◌∙◌, Bool, true, false, Bool-cases, inl, inr, List, [],
  ◌∷◌, All, some, length, if◌then◌else◌, arith,
}
use pointpay_chain.Prelude.Text.{Bytes, bytes_eq, bytes_eq→eq, bytes_eq_refl}
use pointpay_chain.App.Process.{done, each}
use pointpay_chain.Testnet.InPlace.{funds, fund_account, fund_accounts}
use pointpay_chain.Testnet.InPlace.Env.{Chain}

-- The bank, for one denomination. The mint module may mint, and what it mints goes to its account and is
-- added to the supply. Sending moves coins from the module's account, and is known to succeed only if
-- the account has as many, and for an account that may receive them. The module's own may not.
pub record Bank (chain : Chain) (denom : Bytes) : Type 0 where
  pub supply : chain.State → ℕ
  pub balance : Bytes → chain.State → ℕ
  pub module_account : Bytes
  pub receives : Bytes → Bool
  pub module_blocked : receives module_account ≡ false
  pub mints : (n : ℕ) (s : chain.State) → (chain.mint_coins chain.mint_module denom n s).0 ≡ false
  pub mint_supply :
      (n : ℕ) (s : chain.State)
      → supply (chain.mint_coins chain.mint_module denom n s).1 ≡ supply s + n
  pub mint_balance :
      (a : Bytes) (n : ℕ) (s : chain.State)
      → balance a (chain.mint_coins chain.mint_module denom n s).1
        ≡ (if bytes_eq module_account a then balance a s + n else balance a s)
  pub sends :
      (a : Bytes) (n : ℕ) (s : chain.State)
      → receives a ≡ true
      → n ≤ balance module_account s
      → (chain.send_coins chain.mint_module a denom n s).0 ≡ false
  pub send_supply :
      (a : Bytes) (n : ℕ) (s : chain.State)
      → receives a ≡ true
      → n ≤ balance module_account s
      → supply (chain.send_coins chain.mint_module a denom n s).1 ≡ supply s
  pub send_balance :
      (a b : Bytes) (n : ℕ) (s : chain.State)
      → receives a ≡ true
      → n ≤ balance module_account s
      → balance b (chain.send_coins chain.mint_module a denom n s).1 ≡ (
          if bytes_eq a b
          then balance b s + n
          else if bytes_eq module_account b
          then balance b s - n
          else balance b s)

-- How often an account is among some.
unfoldable pub times : Bytes → List Bytes → ℕ
times a [] = 0
times a (b ∷ bs) = (if bytes_eq b a then 1 else 0) + times a bs

module _ (chain : Chain) (denom : Bytes) (bank : Bank chain denom) where
  abbrev pub minted : chain.State → chain.State
  minted s = (chain.mint_coins chain.mint_module denom funds s).1

  abbrev pub after : Bytes → chain.State → chain.State
  after a s = (chain.send_coins chain.mint_module a denom funds (minted s)).1

  -- What was minted is there to be sent.
  enough : (s : chain.State) → funds ≤ bank.balance bank.module_account (minted s)
  enough s =
      let there : bank.balance bank.module_account (minted s)
          ≡ bank.balance bank.module_account s + funds =
        bank.mint_balance bank.module_account funds s ∙ rw bytes_eq_refl refl in
      omega (arith, there)

  pub one_account :
      (a : Bytes) (s : chain.State)
      → bank.receives a ≡ true
      → fund_account chain denom a s ≡ done tt (after a s)
  unfolding fund_account
  one_account a s free = rw (bank.mints funds s, bank.sends a funds (minted s) free (enough s)) refl

  supply_after :
      (a : Bytes) (s : chain.State)
      → bank.receives a ≡ true
      → bank.supply (after a s) ≡ bank.supply s + funds
  supply_after a s free =
      bank.send_supply a funds (minted s) free (enough s) ∙ bank.mint_supply funds s

  -- An account that receives coins is not the module's.
  apart :
      (a b : Bytes)
      → bank.receives a ≡ true
      → bytes_eq a b ≡ true
      → bytes_eq bank.module_account b ≡ false
  apart a b free same = elim (Bool-cases (bytes_eq bank.module_account b)) [
    | inr differ ↦ differ
    | inl own ↦
        let one : a ≡ bank.module_account =
          bytes_eq→eq a b same ∙ sym (bytes_eq→eq bank.module_account b own) in
        let blocked : bank.receives a ≡ false = ap bank.receives one ∙ bank.module_blocked in cc
  ]

  balance_after :
      (a b : Bytes) (s : chain.State)
      → bank.receives a ≡ true
      → bank.balance b (after a s) ≡ bank.balance b s + funds * (if bytes_eq a b then 1 else 0)
  balance_after a b s free =
      let sent = bank.send_balance a b funds (minted s) free (enough s) in
      let got = bank.mint_balance b funds s in
      elim (Bool-cases (bytes_eq a b)) [
        | inl same ↦
            let arrived : bank.balance b (after a s) ≡ bank.balance b (minted s) + funds =
              rw same at sent in
            let old : bank.balance b (minted s) ≡ bank.balance b s =
              rw (apart a b free same) at got in
            rw same (omega (arith, arrived, old))
        | inr differ ↦ elim (Bool-cases (bytes_eq bank.module_account b)) [
          | inl own ↦
              let left : bank.balance b (after a s) ≡ bank.balance b (minted s) - funds =
                rw (differ, own) at sent in
              let old : bank.balance b (minted s) ≡ bank.balance b s + funds = rw own at got in
              rw differ (omega (arith, left, old))
          | inr other ↦
              let left : bank.balance b (after a s) ≡ bank.balance b (minted s) =
                rw (differ, other) at sent in
              let old : bank.balance b (minted s) ≡ bank.balance b s = rw other at got in
              rw differ (omega (arith, left, old))
        ]
      ]

  fund_each :
      (accounts : List Bytes) (s : chain.State)
      → All (λ a. bank.receives a ≡ true) accounts
      → (s' : chain.State) × (each accounts (fund_account chain denom) s ≡ done tt s')
        × (bank.supply s' ≡ bank.supply s + funds * length accounts)
        × ((b : Bytes) → bank.balance b s' ≡ bank.balance b s + funds * times b accounts)
  unfolding each times
  fund_each [] s free = (s, refl, omega arith, λ b. omega arith)
  fund_each (a ∷ accounts) s (one, free) =
      let (s', runs, supply', balance') = fund_each accounts (after a s) free in
      (
        s',
        rw (one_account a s one) runs,
        omega (arith, supply', supply_after a s one),
        λ b. omega (arith, balance' b, balance_after a b s one),
      )

  -- If the staking module knows its denomination, the accounts may receive coins, and the bank mints for
  -- the mint module and sends what its account has, then the accounts are funded: each one gets
  -- 1000000000 for every time that it is named, any other account keeps its balance, the mint module's
  -- too, and the supply grows by as much for every name.
  pub fund_accounts_lem :
      (accounts : List Bytes) (s : chain.State)
      → All (λ a. bank.receives a ≡ true) accounts
      → chain.bond_denom s ≡ some denom
      → (s' : chain.State) × (fund_accounts chain accounts s ≡ done tt s')
        × (bank.supply s' ≡ bank.supply s + funds * length accounts)
        × ((b : Bytes) → bank.balance b s' ≡ bank.balance b s + funds * times b accounts)
  unfolding fund_accounts
  fund_accounts_lem accounts s free known =
      let (s', runs, supply', balance') = fund_each accounts s free in
      (s', rw known runs, supply', balance')
