-- ===== src/Testnet.antt =====
-- The local testnet of pointpay/cmd/pointpayd/cmd/testnet_multi_node.go: the stakes that the command
-- line gives, and the ports that each node gets. InPlace is the other
-- testnet, of testnet.go.
pub mod Stakes
pub mod Ports
pub mod Args
pub mod InPlace
pub mod Nodes
pub mod Supply
mod Tests
use pointpay_chain.Prelude.{
  ℕ, ◌+◌, ◌-◌, ◌*◌, List, [], ◌∷◌, Option, none, some, Outcome, ok, panic, ◌>>=◌, leb, ◌==◌,
  if◌then◌else◌,
}
use pointpay_chain.Prelude.Text.{Bytes}
use pointpay_chain.Prelude.Int.{ℤ, pos, negsuc}

-- The command's own loops make no error value.
pub data NoError : Type 0 where

-- `strings.Split(s, ",")`
unfoldable pub onto_first : ℕ → List Bytes → List Bytes
onto_first c [] = []
onto_first c (word ∷ words) = (c ∷ word) ∷ words

unfoldable pub split : Bytes → List Bytes
unfolding onto_first
split [] = [] ∷ []
split (c ∷ cs) = let rest = split cs in if c == b',' then [] ∷ rest else onto_first c rest

-- A Go map from int: what was assigned last stands first.
pub lookup : {V : Type 0} → ℕ → List (ℕ × V) → Option V
lookup i [] = none
lookup i ((k, v) ∷ rest) = let later = lookup i rest in if i == k then some v else later

-- `new_int_from_string` is `math.NewIntFromString`, `none` for its false; `new_coin` is `sdk.NewCoin`
-- of the bond denomination, `none` for its panic, which a negative amount gives.
module _ {Int Coin : Type 0} (new_int_from_string : Bytes → Option Int)
    (new_coin : Int → Option Coin) where
  -- `args.validatorsStakesAmount[top] = coin; top += 1`
  put_coin : Option Coin → ℕ → List (ℕ × Coin) → Outcome NoError (ℕ × List (ℕ × Coin))
  put_coin none top stakes = panic
  put_coin (some coin) top stakes = ok (top + 1, (top, coin) ∷ stakes)

  -- One round; an amount that is no number is left out.
  stake_round : Option Int → ℕ → List (ℕ × Coin) → Outcome NoError (ℕ × List (ℕ × Coin))
  stake_round none top stakes = ok (top, stakes)
  stake_round (some a) top stakes = put_coin (new_coin a) top stakes

  stakes_loop : List Bytes → ℕ → List (ℕ × Coin) → Outcome NoError (List (ℕ × Coin))
  stakes_loop [] top stakes = ok stakes
  stakes_loop (amount ∷ amounts) top stakes = do
    (top', stakes') ← stake_round (new_int_from_string amount) top stakes
    stakes_loop amounts top' stakes'

  -- The stakes of the flag's text.
  pub read_stakes : Bytes → Outcome NoError (List (ℕ × Coin))
  unfolding stakes_loop
  read_stakes s = stakes_loop (split s) 0 []

-- The stake of validator `i`; `default_stake` is what the code gives without an entry.
unfoldable pub stake_or : {Coin : Type 0} → Coin → Option Coin → Coin
stake_or default_stake none = default_stake
stake_or default_stake (some coin) = coin

pub validator_stake : {Coin : Type 0} → Coin → List (ℕ × Coin) → ℕ → Coin
unfolding stake_or
validator_stake default_stake stakes i = stake_or default_stake (lookup i stakes)

-- The services of a node, whose ports go by its index: with the default ports, the RPC server; the
-- peers' address, the ABCI proxy, Prometheus, the gRPC server and the API server.
pub data Service : Type 0 where
  rpc p2p proxy prometheus grpc api : Service

-- `a - b` of two ints
abbrev pub int_sub : ℕ → ℕ → ℤ
int_sub a b = if leb b a then pos (a - b) else negsuc (b - a - 1)

pub port : Service → ℕ → ℤ
port rpc i = int_sub 26657 (3 * i)
port p2p i = int_sub 26656 (3 * i)
port proxy i = int_sub 26658 (3 * i)
port prometheus i = pos (26660 + i)
port grpc i = int_sub 9090 (2 * i)
port api i = int_sub 1317 i
