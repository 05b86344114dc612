-- ===== src/Testnet/Args.antt =====
-- The options of the in-place testnet (`getCommandArgs` of pointpay/cmd/pointpayd/cmd/testnet.go).
pub mod Parsing
use pointpay_chain.Prelude.{
  ℕ, Bool, true, false, List, [], ◌∷◌, ◌++◌, Option, none, some, Outcome, ok, err, panic, ◌>>=◌,
  if◌then◌else◌,
}
use pointpay_chain.Prelude.Text.{Bytes, bytes_eq}
use pointpay_chain.Testnet.{split}

-- A value behind `interface{}`, by the types that the code asserts.
pub data OptionValue (Key : Type 0) : Type 0 where
  hex_bytes : Bytes → OptionValue Key
  pub_key : Key → OptionValue Key
  text : Bytes → OptionValue Key
  other : OptionValue Key

-- "invalid bech32 address format", "invalid home dir"
pub data ArgsError : Type 0 where
  bad_account : Bytes → ArgsError
  bad_home : ArgsError

pub record ValArgs (Key Address : Type 0) : Type 0 where
  pub new_val_addr : Bytes
  pub new_val_pub_key : Key
  pub new_operator_address : Bytes
  pub upgrade_to_trigger : Bytes
  pub accounts_to_fund : List Address
  pub home_dir : Bytes

-- What the command reads: the four typed options, and the two that `cast.ToString` makes texts of.
pub record AppOptions (Key : Type 0) : Type 0 where
  pub val_addr : OptionValue Key
  pub user_pub_key : OptionValue Key
  pub op_addr : OptionValue Key
  pub trigger_upgrade : OptionValue Key
  pub accounts : Bytes
  pub home : Bytes

-- The type assertions; another type panics.
abbrev pub as_hex : {Key : Type 0} → OptionValue Key → Outcome ArgsError Bytes
as_hex (hex_bytes b) = ok b
as_hex (pub_key k) = panic
as_hex (text s) = panic
as_hex other = panic

abbrev pub as_key : {Key : Type 0} → OptionValue Key → Outcome ArgsError Key
as_key (hex_bytes b) = panic
as_key (pub_key k) = ok k
as_key (text s) = panic
as_key other = panic

abbrev pub as_text : {Key : Type 0} → OptionValue Key → Outcome ArgsError Bytes
as_text (hex_bytes b) = panic
as_text (pub_key k) = panic
as_text (text s) = ok s
as_text other = panic

module _ {Address : Type 0} (acc_address_from_bech32 : Bytes → Option Address) where
  -- One account that is not empty.
  parsed : Option Address → Bytes → Outcome ArgsError Address
  parsed none account = err (bad_account account)
  parsed (some addr) account = ok addr

  -- The loop over the accounts, with those found so far.
  accounts_loop : List Bytes → List Address → Outcome ArgsError (List Address)
  unfolding parsed
  accounts_loop [] found = ok found
  accounts_loop (account ∷ rest) found =
      let skipped = accounts_loop rest found in
      let taken = do
        addr ← parsed (acc_address_from_bech32 account) account
        accounts_loop rest (found ++ (addr ∷ []))
      in if bytes_eq account [] then skipped else taken

  pub get_command_args : {Key : Type 0} → AppOptions Key → Outcome ArgsError (ValArgs Key Address)
  unfolding accounts_loop
  get_command_args opts = do
    addr ← as_hex opts.val_addr
    key ← as_key opts.user_pub_key
    operator ← as_text opts.op_addr
    upgrade ← as_text opts.trigger_upgrade
    accounts ← accounts_loop (split opts.accounts) []
    if bytes_eq opts.home []
        then err bad_home
        else ok (record {
          new_val_addr = addr;
          new_val_pub_key = key;
          new_operator_address = operator;
          upgrade_to_trigger = upgrade;
          accounts_to_fund = accounts;
          home_dir = opts.home;
        })
