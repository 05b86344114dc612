-- ===== src/Testnet/InPlace/Tests.antt =====
-- The theorems on the in-place testnet at concrete inputs: a chain with lists of keys and a table of
-- balances.
use mathlib.Core.Bool.{not-not}
use pointpay_chain.Prelude.{
  ◌∙◌, ◌-◌, ◌≤◌, sym, ap, ltb, le→ltb-false, ℕ, ◌+◌, ◌*◌, ◌≡◌, refl, Bool, true, false, not, ◌&&◌,
  ◌||◌, ◌==◌, Bool-cases, inl, inr, List, [], ◌∷◌, some, if◌then◌else◌,
}
use pointpay_chain.Prelude.Text.{Bytes, codes, bytes_eq, bytes_eq→eq}
use pointpay_chain.App.Process.{done}
use pointpay_chain.App.Export.{among}
use pointpay_chain.Testnet.InPlace.{funds, fund_accounts, new_validator, init_app_for_testnet}
use pointpay_chain.Testnet.InPlace.Env.{
  StakingPart, power_index, last_validators, validators, Chain,
}
use pointpay_chain.Testnet.InPlace.Cleared.{Deletes}
use pointpay_chain.Testnet.Args.{ValArgs}
use pointpay_chain.Testnet.InPlace.Replaced.{
  rank, Leaves, Separate, only_new, init_app_for_testnet_replaces,
}
use pointpay_chain.Testnet.InPlace.Funding.{Bank, times, fund_accounts_lem}

record Books : Type 0 where
  keys : StakingPart → List Bytes
  supply : ℕ
  balance : Bytes → ℕ

without : Bytes → List Bytes → List Bytes
without key [] = []
without key (k ∷ ks) = if bytes_eq key k then without key ks else k ∷ without key ks

among-without :
    (key other : Bytes) (ks : List Bytes)
    → among other (without key ks) ≡ (among other ks && not (bytes_eq key other))
unfolding without among
among-without key other [] = refl
among-without key other (k ∷ ks) = elim (Bool-cases (bytes_eq key k)) [
  | inl same ↦ elim (Bool-cases (bytes_eq k other)) [
    | inl this ↦
        let one : bytes_eq key other ≡ true = rw (bytes_eq→eq key k same) this in
        rw (same, this, among-without key other ks, one) (both (among other ks))
    | inr differ ↦ rw (same, differ) (among-without key other ks)
  ]
  | inr apart ↦ elim (Bool-cases (bytes_eq k other)) [
    | inl this ↦
        let no : bytes_eq key other ≡ false = rw (bytes_eq→eq k other this) at apart in
        rw (apart, this, no) refl
    | inr differ ↦ rw (apart, differ) (among-without key other ks)
  ]
]
  where
    both : (a : Bool) → (a && false) ≡ false
    both true = refl
    both false = refl

-- A key more in a part.
abbrev put : StakingPart → Bytes → Books → Books
put to key s = record s {
  keys = λ part. if rank part == rank to then key ∷ s.keys part else s.keys part;
}

put-Adds :
    (to part : StakingPart) (new key : Bytes) (s : Books)
    → among key ((put to new s).keys part) ≡ (
        if rank part == rank to
        then bytes_eq new key || among key (s.keys part)
        else among key (s.keys part))
unfolding among
put-Adds to part new key s = elim (Bool-cases (rank part == rank to)) [
  | inl here ↦ elim (Bool-cases (bytes_eq new key)) [
    | inl same ↦ rw (here, same) refl
    | inr differ ↦ rw (here, differ) refl
  ]
  | inr elsewhere ↦ rw elsewhere refl
]

abbrev minter : Bytes
minter = codes "mint"

-- The books after a transfer.
abbrev send : Bytes → Bytes → ℕ → Books → Books
send m a n s = record s {
  balance = λ b.
      if bytes_eq a b
      then s.balance b + n
      else if bytes_eq m b
      then s.balance b - n
      else s.balance b;
}

abbrev chain : Chain
chain = record {
  State = Books;
  Key = Bytes;
  Any = Bytes;
  Decimal = Bytes;
  key_bytes = λ k. k;
  any_of_key = λ k. some k;
  decimal = λ d. d;
  operator_bytes = λ o. some o;
  keys = λ part s. s.keys part;
  iterator_fails = λ part s. false;
  delete = λ key s. record s { keys = λ part. without key (s.keys part) };
  set_validator = λ v s. (false, put validators v.operator_address s);
  set_validator_by_cons_addr = λ v s. (false, s);
  set_validator_by_power_index = λ v s. (false, put power_index v.operator_address s);
  set_last_validator_power = λ v n s. (false, put last_validators v s);
  after_validator_created = λ v s. (not (among v (s.keys validators)), s);
  bond_denom = λ s. some (codes "upnp");
  set_historical_rewards = λ v p n s. (false, s);
  set_current_rewards = λ v p s. (false, s);
  set_accumulated_commission = λ v s. (false, s);
  set_outstanding_rewards = λ v s. (false, s);
  cons_text = λ a. a;
  last_block_height = λ s. 7;
  set_signing_info = λ a t h b s. (false, s);
  mint_module = minter;
  mint_coins = λ m d n s. (
    false,
    record s {
      supply = s.supply + n;
      balance = λ a. if bytes_eq m a then s.balance a + n else s.balance a;
    },
  );
  send_coins =
      λ m a d n s. if bytes_eq m a || ltb (s.balance m) n then (true, s) else (false, send m a n s);
}

books : Books
books = record { keys = λ part. codes "k1" ∷ codes "k2" ∷ []; supply = 100; balance = λ a. 5 }

deletes : Deletes chain
deletes part key other s = among-without key other (s.keys part)

-- The mint module's account is blocked.
free_to_send :
    (a : Bytes) (n : ℕ) (s : Books)
    → not (bytes_eq minter a) ≡ true
    → n ≤ s.balance minter
    → chain.send_coins minter a (codes "upnp") n s ≡ (false, send minter a n s)
free_to_send a n s free enough =
    let other : bytes_eq minter a ≡ false = sym (not-not _) ∙ ap not free in
    rw (other, le→ltb-false (s.balance minter) n enough) refl

bank : Bank chain (codes "upnp")
unfolding bytes_eq
bank = record {
  supply = λ s. s.supply;
  balance = λ a s. s.balance a;
  module_account = minter;
  receives = λ a. not (bytes_eq minter a);
  module_blocked = refl;
  mints = λ n s. refl;
  mint_supply = λ n s. refl;
  mint_balance = λ a n s. refl;
  sends = λ a n s free enough. rw (free_to_send a n s free enough) refl;
  send_supply = λ a n s free enough. rw (free_to_send a n s free enough) refl;
  send_balance = λ a b n s free enough. rw (free_to_send a n s free enough) refl;
}

-- One account twice and another one once.
fund_accounts_lem_example :
    (s' : Books) × (fund_accounts chain (codes "a" ∷ codes "b" ∷ codes "a" ∷ []) books ≡ done tt s')
    × (s'.supply ≡ 100 + funds * 3)
    × ((b : Bytes) → s'.balance b ≡ 5 + funds * times b (codes "a" ∷ codes "b" ∷ codes "a" ∷ []))
unfolding books bank bytes_eq
fund_accounts_lem_example =
    fund_accounts_lem chain (codes "upnp") bank (codes "a" ∷ codes "b" ∷ codes "a" ∷ []) books
      (refl, (refl, (refl, tt))) refl

leaves : Leaves chain (λ s. (false, s))
leaves = λ part s key. refl

abbrev args : ValArgs Bytes Bytes
args = record {
  new_val_addr = codes "cons";
  new_val_pub_key = codes "key";
  new_operator_address = codes "valoper";
  upgrade_to_trigger = [];
  accounts_to_fund = codes "a" ∷ [];
  home_dir = [];
}

separate :
    Separate chain
      (new_validator chain (codes "valoper") (codes "key"))
      (codes "valoper")
      (codes "cons")
unfolding new_validator
separate = record {
  validator_key = codes "valoper";
  power_key = codes "valoper";
  last_key = codes "valoper";
  sets = λ part s key. put-Adds validators part (codes "valoper") key s;
  indexes = leaves;
  indexes_succeed = λ s. refl;
  ranks = λ part s key. put-Adds power_index part (codes "valoper") key s;
  last = λ part s key. put-Adds last_validators part (codes "valoper") key s;
  hooks = λ part s key. refl;
  hooks_succeed = λ s there. ap not there;
  history = leaves;
  current = leaves;
  commission = leaves;
  outstanding = leaves;
  signs = λ text h. leaves;
  mints = λ denom n part s key. refl;
  sends = λ a denom n part s key.
      elim (Bool-cases (bytes_eq minter a || ltb (s.balance minter) n)) [
        | inl refused ↦ rw refused refl
        | inr sent ↦ rw sent refl
      ];
}

init_app_for_testnet_replaces_example :
    (s' : Books) × (init_app_for_testnet chain args books ≡ done tt s')
    × ((part : StakingPart) (key : Bytes)
        → among key (s'.keys part)
          ≡ only_new chain
              (new_validator chain (codes "valoper") (codes "key"))
              (codes "valoper")
              (codes "cons")
              separate
              part
              key)
unfolding bank bytes_eq
init_app_for_testnet_replaces_example =
    init_app_for_testnet_replaces chain args (codes "key") (codes "valoper") (codes "upnp") separate
      deletes bank (refl, tt) refl refl (λ t. refl) (λ part t. refl) books
