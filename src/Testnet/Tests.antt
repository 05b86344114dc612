-- ===== src/Testnet/Tests.antt =====
-- Runs of the testnet's flags and options, and the theorems at concrete inputs.
use pointpay_chain.Prelude.{
  ℕ, ◌-◌, ◌≡◌, refl, List, [], ◌∷◌, Option, none, some, ok, panic, ◌==◌, if◌then◌else◌, arith,
}
use pointpay_chain.Prelude.Text.{Bytes, codes}
use pointpay_chain.Prelude.Int.{ℤ, pos, negsuc, ◌<ℤ◌}
use pointpay_chain.Testnet.{split, onto_first, read_stakes, validator_stake, stake_or, p2p, port}
use pointpay_chain.Testnet.Stakes.{
  at, coins_of, add_int, add_coin, validator_stake-read_stakes, read_stakes_panics,
}
use pointpay_chain.Testnet.Ports.{port_positive, port_injective}
use pointpay_chain.Testnet.Args.{hex_bytes, pub_key, text, get_command_args}
use pointpay_chain.Testnet.Args.Parsing.{
  Accounts, no_account, empty_text, account, get_command_args_lem,
}

-- One digit, with 'm' for the number -1.
abbrev digit : Bytes → Option ℤ
digit [] = none
digit (c ∷ cs) =
    if c == b'x' then none else if c == b'm' then some (negsuc 0) else some (pos (c - b'0'))

-- A negative amount has no coin.
abbrev coin : ℤ → Option ℕ
coin (pos n) = some n
coin (negsuc n) = none

-- The second amount is no number.
validator_stake-read_stakes_example :
    (stakes : List (ℕ × ℕ)) × (read_stakes digit coin (codes "3,x,5") ≡ ok stakes)
    × ((i : ℕ) → validator_stake 9 stakes i ≡ stake_or 9 (at (3 ∷ 5 ∷ []) i))
unfolding coins_of add_int add_coin split onto_first
validator_stake-read_stakes_example =
    validator_stake-read_stakes digit coin (codes "3,x,5") (3 ∷ 5 ∷ []) 9 refl

read_stakes_panics_example : read_stakes digit coin (codes "3,m") ≡ panic
unfolding coins_of add_int add_coin split onto_first
read_stakes_panics_example = read_stakes_panics digit coin (codes "3,m") refl

port_positive_example : pos 0 <ℤ port p2p 3
port_positive_example = port_positive p2p 3 (omega arith)

abbrev three : ℕ
three = 3

port_injective_example : (p2p ≡ p2p) × (three ≡ three)
port_injective_example = port_injective p2p p2p three three (omega arith) (omega arith) refl

two-Accounts : Accounts (λ s. some s) (split (codes "a,,b")) (codes "a" ∷ codes "b" ∷ [])
unfolding split onto_first
two-Accounts = account refl (empty_text (account refl no_account))

get_command_args_lem_example :
    get_command_args
      (λ s. some s)
      (record {
        val_addr = hex_bytes [];
        user_pub_key = pub_key three;
        op_addr = text (codes "op");
        trigger_upgrade = text [];
        accounts = codes "a,,b";
        home = codes "h";
      })
    ≡ ok (record {
      new_val_addr = [];
      new_val_pub_key = three;
      new_operator_address = codes "op";
      upgrade_to_trigger = [];
      accounts_to_fund = codes "a" ∷ codes "b" ∷ [];
      home_dir = codes "h";
    })
get_command_args_lem_example =
    get_command_args_lem (λ s. some s) [] three (codes "op") [] (codes "a,,b") (codes "h")
      (codes "a" ∷ codes "b" ∷ []) two-Accounts (λ e. cc)
