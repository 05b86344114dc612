-- ===== src/Testnet/Args/Parsing.antt =====
-- What the options of the in-place testnet become.
use mathlib.Core.List.{append_assoc, append-nil}
use pointpay_chain.Prelude.{
  ℕ, ◌≡◌, ◌≢◌, ap, sym, ◌∙◌, false, List, [], ◌∷◌, ◌++◌, Option, some, ok, Bool-cases, inl, inr,
}
use pointpay_chain.Prelude.Text.{Bytes, bytes_eq, bytes_eq→eq}
use pointpay_chain.Testnet.{split}
use pointpay_chain.Testnet.Args.{hex_bytes, pub_key, text, parsed, accounts_loop, get_command_args}

-- A list of account texts against the addresses that are funded for it: empty texts are left out,
-- and every other text parses.
pub data Accounts {Address : Type 0} (parse : Bytes → Option Address)
    : List Bytes → List Address → Type 0 where
  no_account : Accounts parse [] []
  empty_text :
      {texts : List Bytes} {addrs : List Address}
      → Accounts parse texts addrs
      → Accounts parse ([] ∷ texts) addrs
  account :
      {c : ℕ} {cs : Bytes} {texts : List Bytes} {a : Address} {addrs : List Address}
      → parse (c ∷ cs) ≡ some a
      → Accounts parse texts addrs
      → Accounts parse ((c ∷ cs) ∷ texts) (a ∷ addrs)

not_empty : (s : Bytes) → s ≢ [] → bytes_eq s [] ≡ false
not_empty s h = elim (Bool-cases (bytes_eq s [])) [
  | inl empty ↦ absurd (h (bytes_eq→eq s [] empty))
  | inr filled ↦ filled
]

module _ {Address : Type 0} (parse : Bytes → Option Address) where
  loop-Accounts :
      {texts : List Bytes} {addrs : List Address} (found : List Address)
      → Accounts parse texts addrs
      → accounts_loop parse texts found ≡ ok (found ++ addrs)
  unfolding accounts_loop parsed bytes_eq
  loop-Accounts found no_account = ap ok (sym (append-nil found))
  loop-Accounts found (empty_text rest) = loop-Accounts found rest
  loop-Accounts found (account {a = a} {addrs = addrs} p rest) =
      rw p (loop-Accounts (found ++ (a ∷ [])) rest ∙ ap ok (append_assoc found (a ∷ []) addrs))

  -- Options of the asserted types, with a home directory and accounts that are empty or parse, give
  -- the arguments, with the addresses of the accounts that are not empty, in their order.
  pub get_command_args_lem :
      {Key : Type 0} (addr : Bytes) (key : Key) (operator upgrade accounts home : Bytes)
      (addrs : List Address)
      → Accounts parse (split accounts) addrs
      → home ≢ []
      → get_command_args parse (record {
        val_addr = hex_bytes addr;
        user_pub_key = pub_key key;
        op_addr = text operator;
        trigger_upgrade = text upgrade;
        accounts = accounts;
        home = home;
      })
        ≡ ok (record {
          new_val_addr = addr;
          new_val_pub_key = key;
          new_operator_address = operator;
          upgrade_to_trigger = upgrade;
          accounts_to_fund = addrs;
          home_dir = home;
        })
  unfolding get_command_args
  get_command_args_lem addr key operator upgrade accounts home addrs rel h =
      rw (loop-Accounts [] rel, not_empty home h)
