-- ===== src/Testnet/Supply.antt =====
-- The balances and the supply of the genesis that `initTestnetFiles` and `initGenFiles` of
-- pointpay/cmd/pointpayd/cmd/testnet_multi_node.go make. Coins and what the SDK does with them are parameters.
mod Tests
use native.Mathlib.Nat.{mul-suc}
use pointpay_chain.Testnet.{NoError}
use pointpay_chain.Prelude.{
  All, Option, none, some, false, Outcome, ok, panic, ◌>>=◌, ℕ, ◌+◌, ◌*◌, ◌≡◌, refl, ap, ◌∙◌, List,
  [], ◌∷◌, length, arith,
}
use pointpay_chain.Prelude.Text.{Bytes, codes, bytes_eq}

abbrev pub or_panic : {A : Type 0} → Option A → Outcome NoError A
or_panic none = panic
or_panic (some a) = ok a

-- `banktypes.Balance`
pub record Balance (Coins : Type 0) : Type 0 where
  pub address : Bytes
  pub coins : Coins

-- `sdk.Coins` with `Add` and `Sort`, the literal of `sdk.NewCoin`s, the bond denomination,
-- TokensFromConsensusPower with the default reduction, and `SanitizeGenesisBalances`. `amount` sums
-- what the coins have of a denomination, sorted or not, and `none` is a panic.
pub record Bank : Type 1 where
  pub Coins : Type 0
  pub no_coins : Coins
  pub amount : Bytes → Coins → ℕ
  pub coin_before : Bytes → ℕ → Coins → Coins
  pub sort : Coins → Coins
  pub add : Coins → Coins → Option Coins
  pub bond_denom : Bytes
  pub tokens : ℕ → ℕ
  pub sanitize : List (Balance Coins) → Option (List (Balance Coins))

module _ (bank : Bank) where
  open bank use {Coins}

  -- The coins of an account, in the order of the code.
  abbrev pub listed_coins : Coins
  listed_coins =
      bank.coin_before (codes "testtoken") (bank.tokens 1000)
        (bank.coin_before bank.bond_denom (bank.tokens 500) bank.no_coins)

  -- What each validator's account has: `coins.Sort()`.
  unfoldable pub account_coins : Coins
  account_coins = bank.sort listed_coins

  -- `genBalances`, for the addresses of the validators in turn.
  unfoldable pub gen_balances : List Bytes → List (Balance Coins)
  gen_balances [] = []
  gen_balances (a ∷ addrs) = record { address = a; coins = account_coins } ∷ gen_balances addrs

  -- `bankGenState.Supply = bankGenState.Supply.Add(bal.Coins...)` for all balances
  unfoldable pub add_supply : Coins → List (Balance Coins) → Outcome NoError Coins
  add_supply supply [] = ok supply
  add_supply supply (bal ∷ bals) = do
    more ← or_panic (bank.add supply bal.coins)
    add_supply more bals

  unfoldable pub genesis_supply : Coins → List Bytes → Outcome NoError Coins
  genesis_supply supply addrs = do
    bals ← or_panic (bank.sanitize (gen_balances addrs))
    add_supply supply bals

  -- The sum of an amount over balances.
  abbrev pub total : Bytes → List (Balance Coins) → ℕ
  total denom [] = 0
  total denom (bal ∷ bals) = bank.amount denom bal.coins + total denom bals

  -- No address is that of two balances.
  abbrev pub Distinct : List (Balance Coins) → Type 0
  Distinct [] = Unit
  Distinct (bal ∷ bals) =
      All (λ other. bytes_eq bal.address other.address ≡ false) bals × Distinct bals

  -- Coins that are sorted can be added, and give sorted coins with the sums of their amounts; coins
  -- can be sorted, and keep their amounts; balances of different addresses can be sanitized, are the
  -- same ones in another order then, and so have the same sums.
  pub record Adds : Type 1 where
    pub Sorted : Coins → Type 0
    pub adds :
        (a b : Coins)
        → Sorted a
        → Sorted b
        → (c : Coins) × (bank.add a b ≡ some c)
          × Sorted c
          × ((denom : Bytes) → bank.amount denom c ≡ bank.amount denom a + bank.amount denom b)
    pub sorts : (a : Coins) → Sorted (bank.sort a)
    pub sort_keeps :
        (denom : Bytes) (a : Coins) → bank.amount denom (bank.sort a) ≡ bank.amount denom a
    pub sanitizes :
        (bals : List (Balance Coins))
        → Distinct bals
        → All (λ bal. Sorted bal.coins) bals
        → (bals' : List (Balance Coins)) × (bank.sanitize bals ≡ some bals')
          × All (λ bal. Sorted bal.coins) bals'
          × ((denom : Bytes) → total denom bals' ≡ total denom bals)

  module _ (laws : Adds) where
    add_supply_lem :
        (supply : Coins) (bals : List (Balance Coins))
        → laws.Sorted supply
        → All (λ bal. laws.Sorted bal.coins) bals
        → (c : Coins) × (add_supply supply bals ≡ ok c)
          × ((denom : Bytes) → bank.amount denom c ≡ bank.amount denom supply + total denom bals)
    unfolding add_supply
    add_supply_lem supply [] sorted all = (supply, refl, λ denom. omega arith)
    add_supply_lem supply (bal ∷ bals) sorted (one, all) =
        let (more, added, sorted', sums) = laws.adds supply bal.coins sorted one in
        let (c, runs, totals) = add_supply_lem more bals sorted' all in
        (c, rw added runs, λ denom. omega (arith, totals denom, sums denom))

    total-gen_balances :
        (denom : Bytes) (addrs : List Bytes)
        → total denom (gen_balances addrs) ≡ bank.amount denom listed_coins * length addrs
    unfolding gen_balances account_coins
    total-gen_balances denom [] = omega arith
    total-gen_balances denom (a ∷ addrs) = omega (
      arith,
      total-gen_balances denom addrs,
      laws.sort_keeps denom listed_coins,
      mul-suc (bank.amount denom listed_coins) (length addrs),
    )

    all_sorted : (addrs : List Bytes) → All (λ bal. laws.Sorted bal.coins) (gen_balances addrs)
    unfolding gen_balances account_coins
    all_sorted [] = tt
    all_sorted (a ∷ addrs) = (laws.sorts listed_coins, all_sorted addrs)

    -- If the validators have different addresses and the given supply is sorted, the supply of the
    -- genesis is made without a panic, and for every denomination it exceeds the given one by what the
    -- coins of an account have of it, once for each validator: it is the sum of all balances.
    pub genesis_supply_lem :
        (supply : Coins) (addrs : List Bytes)
        → laws.Sorted supply
        → Distinct (gen_balances addrs)
        → (c : Coins) × (genesis_supply supply addrs ≡ ok c)
          × ((denom : Bytes)
              → bank.amount denom c
                ≡ bank.amount denom supply + bank.amount denom listed_coins * length addrs)
    unfolding genesis_supply
    genesis_supply_lem supply addrs sorted apart =
        let (bals, sane, kept, same) =
          laws.sanitizes (gen_balances addrs) apart (all_sorted addrs) in
        let (c, runs, sums) = add_supply_lem supply bals sorted kept in
        (
          c,
          rw sane runs,
          λ denom. omega (arith, sums denom, same denom, total-gen_balances denom addrs),
        )
