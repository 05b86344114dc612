-- ===== src/App/Export/Tests.antt =====
-- The theorems on the state export at concrete inputs: keepers that hold lists, of which the first value
-- of a key counts.
use pointpay_chain.Prelude.{
  ℕ, ◌+◌, ◌==◌, ◌≡◌, refl, true, false, Bool-cases, inl, inr, List, [], ◌∷◌, Option, none, some,
  if◌then◌else◌,
}
use mathlib.Core.Option as Option
use pointpay_chain.Prelude.Text.{Bytes, codes, bytes_eq, bytes_eq→eq, bytes_eq_refl}
use pointpay_chain.App.Process.{done, exited, iterate}
use pointpay_chain.App.Export.{
  reset_validators, reset_redelegations, reinitialize_validator, export_app_state_and_validators,
  among,
}
use pointpay_chain.App.Export.Env.{Validator, Unbonding, Sdk}
use pointpay_chain.App.Export.Table.{Keyed, covers}
use pointpay_chain.App.Export.Heights.{from_zero, reset_redelegations_lem}
use pointpay_chain.App.Export.Jail.{fresh, found, reset_validators_lem}
use pointpay_chain.App.Export.Pool.{Distribution, reinitialize_pool}
use pointpay_chain.App.Export.Refusal.{export_bad_address}

-- The first value of a key.
find : {A : Type 0} → (A → Bytes) → Bytes → List A → Option A
find key k [] = none
find key k (v ∷ vs) = if bytes_eq (key v) k then some v else find key k vs

find_own :
    {A : Type 0} (key : A → Bytes) (k : Bytes) (vs : List A) (v : A)
    → find key k vs ≡ some v
    → key v ≡ k
unfolding find
find_own key k [] v e = cc
find_own key k (w ∷ vs) v e = elim (Bool-cases (bytes_eq (key w) k)) [
  | inl same ↦
      let there : some w ≡ some v = rw same at e in
      let one : w ≡ v = cc in rw (← one) (bytes_eq→eq (key w) k same)
  | inr differ ↦ find_own key k vs v (rw differ at e)
]

find_ne :
    {A : Type 0} (key : A → Bytes) (k : Bytes) (v : A) (vs : List A)
    → bytes_eq (key v) k ≡ false
    → find key k (v ∷ vs) ≡ find key k vs
unfolding find
find_ne key k v vs differ = rw differ refl

find_self :
    {A : Type 0} (key : A → Bytes) (v : A) (vs : List A) → find key (key v) (v ∷ vs) ≡ some v
unfolding find
find_self key v vs = rw bytes_eq_refl refl

find-covers :
    {A : Type 0} (key : A → Bytes) (k : Bytes) (vs : List A) (v : A)
    → find key k vs ≡ some v
    → covers key vs k ≡ true
unfolding find covers
find-covers key k [] v e = cc
find-covers key k (w ∷ vs) v e = elim (Bool-cases (bytes_eq (key w) k)) [
  | inl same ↦ rw same refl
  | inr differ ↦ rw differ (find-covers key k vs v (rw differ at e))
]

record Ledger : Type 0 where
  vals : List (Validator ℕ)
  reds : List (Unbonding ℕ)
  pool : ℕ
  rewards : Bytes → ℕ

-- Texts stand for themselves as addresses, but for the empty one, which does not parse.
abbrev parse : Bytes → Option Bytes
parse [] = none
parse (c ∷ cs) = some (c ∷ cs)

abbrev operators : List (Validator ℕ) → List Bytes
operators [] = []
operators (v ∷ vs) = v.operator ∷ operators vs

abbrev red_key : ℕ → Bytes
red_key n = n ∷ []

abbrev sdk : Sdk
sdk = record {
  State = Ledger;
  Data = ℕ;
  Coins = ℕ;
  val_address = parse;
  acc_address = parse;
  operator_address = λ a. some a;
  val_text = λ a. a;
  assert_invariants = λ h s. (false, s);
  iterate_validators = λ h s. (s.vals, h == 0);
  withdraw_commission = λ h a s. (false, s);
  all_delegations = λ h s. some [];
  withdraw_rewards = λ h a v s. (false, s);
  delete_slash_events = λ h s. s;
  delete_historical_rewards = λ h s. s;
  outstanding_rewards = λ h a s. some (s.rewards a);
  fee_pool = λ h s. some s.pool;
  add_coins = λ a b. a + b;
  set_fee_pool = λ h c s. (false, record s { pool = c });
  after_validator_created =
      λ h a s. (false, record s { rewards = λ k. if bytes_eq k a then 0 else s.rewards k });
  before_delegation_created = λ h a v s. (false, s);
  after_delegation_modified = λ h a v s. (false, s);
  iterate_redelegations = λ h s. (s.reds, false);
  set_redelegation = λ h r s. (false, record s { reds = r ∷ s.reds });
  iterate_unbonding = λ h s. ([], false);
  set_unbonding = λ h u s. (false, s);
  validator_addresses = λ s. operators s.vals;
  close_fails = λ s. false;
  get_validator = λ h a s. find (λ v. v.operator) a s.vals;
  set_validator = λ h v s. (false, record s { vals = v ∷ s.vals });
  apply_updates = λ h s. (false, s);
  iterate_signing_infos = λ h s. ([], false);
  set_signing_info = λ h a i s. (false, s);
  Json = ℕ;
  Validators = ℕ;
  ConsensusParams = ℕ;
  last_block_height = λ s. 41;
  export_genesis = λ h modules s. some s.pool;
  write_validators = λ h s. (2, false);
  consensus_params = λ h s. 0;
  new_app = λ latest. some (record { vals = []; reds = []; pool = 0; rewards = λ k. 0 });
  load_height = λ h s. some s;
}

abbrev alice : Bytes
alice = codes "alice"

abbrev bob : Bytes
bob = codes "bob"

abbrev validator : Bytes → Validator ℕ
validator a = record { operator = a; unbonding_height = 9; jailed = false; details = 0 }

abbrev redelegation : Unbonding ℕ
redelegation = record { entries = record { creation_height = 7; details = 1 } ∷ []; details = 5 }

abbrev ledger : Ledger
ledger = record {
  vals = validator alice ∷ validator bob ∷ [];
  reds = redelegation ∷ [];
  pool = 10;
  rewards = λ k. 3;
}

red_table :
    Keyed {S = Ledger}
      (λ k s. find (λ (u : Unbonding ℕ). red_key u.details) k s.reds)
      (λ u. red_key u.details)
      (sdk.set_redelegation 41)
red_table = record {
  succeeds = λ v s. refl;
  get-put_self = λ v s. find_self (λ (u : Unbonding ℕ). red_key u.details) v s.reds;
  get-put_ne = λ k v s differ. find_ne (λ (u : Unbonding ℕ). red_key u.details) k v s.reds differ;
}

val_table : Keyed (sdk.get_validator 41) (λ v. v.operator) (sdk.set_validator 41)
val_table = record {
  succeeds = λ v s. refl;
  get-put_self = λ v s. find_self (λ (w : Validator ℕ). w.operator) v s.vals;
  get-put_ne = λ k v s differ. find_ne (λ (w : Validator ℕ). w.operator) k v s.vals differ;
}

reset_redelegations_lem_example :
    (s' : Ledger) × (reset_redelegations sdk 41 ledger ≡ done tt s')
    × ((k : Bytes)
        → find (λ (u : Unbonding ℕ). red_key u.details) k s'.reds
          ≡ Option.map from_zero (find (λ (u : Unbonding ℕ). red_key u.details) k ledger.reds))
unfolding find covers bytes_eq
reset_redelegations_lem_example =
    reset_redelegations_lem sdk 41 (λ k s. find (λ (u : Unbonding ℕ). red_key u.details) k s.reds)
      red_key ledger red_table
      (record {
        ends = refl;
        held = (refl, tt);
        every = λ k v e. find-covers (λ (u : Unbonding ℕ). red_key u.details) k ledger.reds v e;
      })

visited :
    (a : Bytes) (vs : List (Validator ℕ))
    → among a (operators vs) ≡ true
    → found (find (λ (v : Validator ℕ). v.operator) a vs) ≡ true
unfolding find among
visited a [] e = e
visited a (v ∷ vs) e = elim (Bool-cases (bytes_eq v.operator a)) [
  | inl same ↦ rw same refl
  | inr differ ↦ rw differ (visited a vs (rw differ at e))
]

all_visited :
    (a : Bytes) (vs : List (Validator ℕ)) (v : Validator ℕ)
    → find (λ (w : Validator ℕ). w.operator) a vs ≡ some v
    → among a (operators vs) ≡ true
unfolding find among
all_visited a [] v e = cc
all_visited a (w ∷ vs) v e = elim (Bool-cases (bytes_eq w.operator a)) [
  | inl same ↦ rw same refl
  | inr differ ↦ rw differ (all_visited a vs v (rw differ at e))
]

-- Alice is allowed, Bob is not.
reset_validators_lem_example :
    (s' : Ledger) × (reset_validators sdk 41 (alice ∷ []) ledger ≡ done tt s')
    × ((a : Bytes)
        → sdk.get_validator 41 a s'
          ≡ Option.map
              (λ (v : Validator ℕ). fresh (alice ∷ []) a v)
              (sdk.get_validator 41 a ledger))
reset_validators_lem_example =
    reset_validators_lem sdk 41 (alice ∷ []) (λ a. a) val_table
      (λ a s v e. find_own (λ (w : Validator ℕ). w.operator) a s.vals v e) ledger
      (λ a e. visited a ledger.vals e) (λ a v e. all_visited a ledger.vals v e)

distribution : Distribution sdk 0
distribution = record {
  pool_succeeds = λ c s. refl;
  pool_stored = λ c s. refl;
  pool_apart = λ c a s. refl;
  hook_succeeds = λ a s. refl;
  hook_pool = λ a s. refl;
  hook_apart = λ a k s differ. rw differ refl;
}

-- Two validators with 3 coins each on top of a pool of 10.
reinitialize_pool_example :
    (s' : Ledger) × (iterate (sdk.iterate_validators 0) (reinitialize_validator sdk 0) ledger
      ≡ done true s')
    × (sdk.fee_pool 0 s' ≡ some 16)
unfolding covers bytes_eq
reinitialize_pool_example =
    reinitialize_pool sdk 0 (λ (v : Validator ℕ). v.operator) (λ a. 3) distribution 10 ledger
      (refl, (refl, tt)) ((refl, refl), ((refl, refl), tt)) refl

export_bad_address_example :
    export_app_state_and_validators sdk true (alice ∷ [] ∷ bob ∷ []) [] ledger ≡ exited ledger
export_bad_address_example =
    export_bad_address sdk (alice ∷ []) [] (bob ∷ []) [] ledger ((alice, refl), tt) refl
