-- ===== src/Testnet/InPlace/Replaced.antt =====
-- The staking store after `initAppForTestnet` (pointpay/cmd/pointpayd/cmd/testnet.go).
use mathlib.Core.Bool.{or-false}
use pointpay_chain.Prelude.{
  true, All, ℕ, ◌≡◌, refl, ap, ◌∙◌, Bool, false, ◌||◌, List, [], ◌∷◌, some, ◌==◌, if◌then◌else◌,
}
use pointpay_chain.Prelude.Text.{Bytes, bytes_eq, bytes_eq_refl}
use pointpay_chain.App.Process.{Call, done, each}
use pointpay_chain.App.Export.{among}
use pointpay_chain.Testnet.Args.{ValArgs}
use pointpay_chain.Testnet.InPlace.{
  funds, fund_account, fund_accounts, add_validator, add_records, new_validator,
  init_app_for_testnet,
}
use pointpay_chain.Testnet.InPlace.Env.{
  StakingPart, power_index, last_validators, validators, validator_queue, NewValidator, Chain,
}
use pointpay_chain.Testnet.InPlace.Funding.{Bank, one_account}
use pointpay_chain.Testnet.InPlace.Cleared.{Deletes, remove_validators_lem}

abbrev pub rank : StakingPart → ℕ
rank power_index = 0
rank last_validators = 1
rank validators = 2
rank validator_queue = 3

module _ (chain : Chain) where
  abbrev pub holds : StakingPart → chain.State → Bytes → Bool
  holds part s key = among key (chain.keys part s)

  -- A call that changes no key of the staking store, whether it succeeds or not.
  abbrev pub Leaves : Call chain.State → Type 0
  Leaves call =
      (part : StakingPart) (s : chain.State) (key : Bytes)
      → holds part (call s).1 key ≡ holds part s key

  -- A part with a key more, where it is the part `to`.
  abbrev pub with_key : StakingPart → Bytes → StakingPart → Bytes → Bool → Bool
  with_key to new part key b = if rank part == rank to then bytes_eq new key || b else b

  -- A call that adds one key to one part.
  abbrev pub Adds : StakingPart → Bytes → Call chain.State → Type 0
  Adds to new call =
      (part : StakingPart) (s : chain.State) (key : Bytes)
      → holds part (call s).1 key ≡ with_key to new part key (holds part s key)

  -- The parts have the same keys in two states.
  abbrev Kept : chain.State → chain.State → Type 0
  Kept s s' = (part : StakingPart) (key : Bytes) → holds part s' key ≡ holds part s key

  -- The keys of a validator, and what the calls do to the staking store. The hooks are known to succeed
  -- only if the validator is there.
  pub record Separate (new_val : NewValidator chain.Any chain.Decimal) (operator cons_addr : Bytes)
      : Type 0 where
    pub validator_key : Bytes
    pub power_key : Bytes
    pub last_key : Bytes
    pub sets : Adds validators validator_key (chain.set_validator new_val)
    pub indexes : Leaves (chain.set_validator_by_cons_addr new_val)
    pub indexes_succeed : (s : chain.State) → (chain.set_validator_by_cons_addr new_val s).0 ≡ false
    pub ranks : Adds power_index power_key (chain.set_validator_by_power_index new_val)
    pub last : Adds last_validators last_key (chain.set_last_validator_power operator 0)
    pub hooks : Leaves (chain.after_validator_created operator)
    pub hooks_succeed :
        (s : chain.State)
        → holds validators s validator_key ≡ true
        → (chain.after_validator_created operator s).0 ≡ false
    pub history : Leaves (chain.set_historical_rewards operator 0 1)
    pub current : Leaves (chain.set_current_rewards operator 1)
    pub commission : Leaves (chain.set_accumulated_commission operator)
    pub outstanding : Leaves (chain.set_outstanding_rewards operator)
    pub signs : (text : Bytes) (h : ℕ) → Leaves (chain.set_signing_info cons_addr text h false)
    pub mints : (denom : Bytes) (n : ℕ) → Leaves (chain.mint_coins chain.mint_module denom n)
    pub sends : (a denom : Bytes) (n : ℕ) → Leaves (chain.send_coins chain.mint_module a denom n)

  module _ (new_val : NewValidator chain.Any chain.Decimal) (operator cons_addr : Bytes)
      (laws : Separate new_val operator cons_addr) where
    -- The keys of the new validator and no other one.
    abbrev pub only_new : StakingPart → Bytes → Bool
    only_new power_index key = bytes_eq laws.power_key key
    only_new last_validators key = bytes_eq laws.last_key key
    only_new validators key = bytes_eq laws.validator_key key
    only_new validator_queue key = false

    added :
        (s : chain.State)
        → ((part : StakingPart) (key : Bytes) → holds part s key ≡ false)
        → (s' : chain.State) × (add_validator chain operator new_val s ≡ done tt s')
          × ((part : StakingPart) (key : Bytes) → holds part s' key ≡ only_new part key)
    unfolding add_validator
    added s empty =
        let s1 = (chain.set_validator new_val s).1 in
        let s2 = (chain.set_validator_by_cons_addr new_val s1).1 in
        let s3 = (chain.set_validator_by_power_index new_val s2).1 in
        let s4 = (chain.set_last_validator_power operator 0 s3).1 in
        let s5 = (chain.after_validator_created operator s4).1 in
        let traced = λ (part : StakingPart) (key : Bytes).
          laws.last part s3 key
          ∙ ap (with_key last_validators laws.last_key part key) (
              laws.ranks part s2 key
              ∙ ap (with_key power_index laws.power_key part key) (
                  laws.indexes part s1 key
                  ∙ laws.sets part s key
                  ∙ ap (with_key validators laws.validator_key part key) (empty part key))) in
        let there : holds validators s4 laws.validator_key ≡ true =
          traced validators laws.validator_key ∙ or-false _ ∙ bytes_eq_refl laws.validator_key in
        (
          s5,
          rw (laws.indexes_succeed s1, laws.hooks_succeed s4 there) refl,
          elim [
            | power_index ↦
                λ key. laws.hooks power_index s4 key ∙ traced power_index key ∙ or-false _
            | last_validators ↦
                λ key. laws.hooks last_validators s4 key ∙ traced last_validators key ∙ or-false _
            | validators ↦ λ key. laws.hooks validators s4 key ∙ traced validators key ∙ or-false _
            | validator_queue ↦
                λ key. laws.hooks validator_queue s4 key ∙ traced validator_queue key
          ],
        )

    recorded :
        (s : chain.State)
        → (s' : chain.State) × (add_records chain operator cons_addr s ≡ done tt s') × Kept s s'
    unfolding add_records
    recorded s =
        let s1 = (chain.set_historical_rewards operator 0 1 s).1 in
        let s2 = (chain.set_current_rewards operator 1 s1).1 in
        let s3 = (chain.set_accumulated_commission operator s2).1 in
        let s4 = (chain.set_outstanding_rewards operator s3).1 in
        (
          _,
          refl,
          λ part key.
              laws.signs _ _ part s4 key
              ∙ laws.outstanding part s3 key
              ∙ laws.commission part s2 key
              ∙ laws.current part s1 key
              ∙ laws.history part s key,
        )

    funded :
        (denom : Bytes) (bank : Bank chain denom) (accounts : List Bytes) (s : chain.State)
        → All (λ a. bank.receives a ≡ true) accounts
        → (s' : chain.State) × (each accounts (fund_account chain denom) s ≡ done tt s') × Kept s s'
    unfolding each
    funded denom bank [] s free = (s, refl, λ part key. refl)
    funded denom bank (a ∷ accounts) s (one, free) =
        let s1 = (chain.mint_coins chain.mint_module denom funds s).1 in
        let s2 = (chain.send_coins chain.mint_module a denom funds s1).1 in
        let (s', runs, kept) = funded denom bank accounts s2 free in
        (
          s',
          rw (one_account chain denom bank a s one) runs,
          λ part key.
              kept part key
              ∙ laws.sends a denom funds part s1 key
              ∙ laws.mints denom funds part s key,
        )

-- If the key and the operator of the options can be read, the staking module knows its denomination,
-- in every state, the iterators of the staking module work, deletions take away their key and no other
-- one, the calls for the new validator add its keys and nothing else to the staking store, its index by
-- the consensus address is written, the hooks succeed if the validator is in the store, the bank
-- mints for the mint module and sends what its account has, and the accounts may receive coins, then
-- the application is changed to its end, and the staking store has in each of its three parts of
-- validators the key of the new one and no other key, and nothing in the queue.
pub init_app_for_testnet_replaces :
    (chain : Chain) (args : ValArgs chain.Key Bytes) (any : chain.Any) (operator denom : Bytes)
    → (laws : Separate chain
        (new_validator chain args.new_operator_address any)
        operator
        args.new_val_addr)
    → Deletes chain
    → (bank : Bank chain denom) → All (λ a. bank.receives a ≡ true) args.accounts_to_fund
    → chain.any_of_key (chain.key_bytes args.new_val_pub_key) ≡ some any
    → chain.operator_bytes args.new_operator_address ≡ some operator
    → ((t : chain.State) → chain.bond_denom t ≡ some denom)
    → ((part : StakingPart) (t : chain.State) → chain.iterator_fails part t ≡ false)
    → (s : chain.State)
    → (s' : chain.State) × (init_app_for_testnet chain args s ≡ done tt s')
      × ((part : StakingPart) (key : Bytes)
          → holds chain part s' key
            ≡ only_new chain
                (new_validator chain args.new_operator_address any)
                operator
                args.new_val_addr
                laws
                part
                key)
unfolding init_app_for_testnet fund_accounts
init_app_for_testnet_replaces chain args any operator denom laws deletes bank free has_key
      has_operator known works s =
    let new_val = new_validator chain args.new_operator_address any in
    let (s1, r1, empty) =
      remove_validators_lem chain deletes s (works power_index) (works last_validators) in
    let (s2, r2, new) = added chain new_val operator args.new_val_addr laws s1 empty in
    let (s3, r3, kept3) = recorded chain new_val operator args.new_val_addr laws s2 in
    let (s4, r4, kept4) =
      funded chain new_val operator args.new_val_addr laws denom bank args.accounts_to_fund s3
        free in
    (
      s4,
      rw (has_key, has_operator, r1, r2, r3, known) r4,
      λ part key. kept4 part key ∙ kept3 part key ∙ new part key,
    )
