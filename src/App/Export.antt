-- ===== src/App/Export.antt =====
-- The state export of pointpay/app/export.go and the command that calls it
-- (pointpay/cmd/pointpayd/cmd/commands.go), with the keepers of the SDK as parameters. Errors are told
-- apart from values, and their texts are left out, as is the counter of validators, which nothing reads.
pub mod Env
pub mod Table
pub mod Heights
pub mod Jail
pub mod Pool
pub mod Refusal
mod Tests
use pointpay_chain.Prelude.{
  ℕ, ◌+◌, ◌-◌, ◌==◌, ◌||◌, ◌%◌, ◌^◌, Bool, true, false, not, ◌&&◌, List, [], ◌∷◌, Option, none,
  some, if◌then◌else◌,
}
use pointpay_chain.Prelude.Text.{Bytes, bytes_eq}
use pointpay_chain.App.Process.{
  Ended, done, panicked, exited, Process, go_on, ◌>>=◌, ◌>>◌, pure, Call, panic_on, exit_on,
  or_panic, or_exit, ignored, change, value_or_panic, value_or_exit, read_or_panic, each, iterate,
}
use Env.{Validator, Entry, Unbonding, Delegation, SigningInfo, Sdk}

-- A name among some: a key of a map whose values are all true.
unfoldable pub among : Bytes → List Bytes → Bool
among name [] = false
among name (x ∷ xs) = if bytes_eq x name then true else among name xs

-- `len(jailAllowedAddrs) > 0`
unfoldable pub any_given : List Bytes → Bool
any_given [] = false
any_given (x ∷ xs) = true

unfoldable pub zero_entries : {D : Type 0} → List (Entry D) → List (Entry D)
zero_entries [] = []
zero_entries (e ∷ es) = record e { creation_height = 0 } ∷ zero_entries es

-- `for i := range red.Entries { red.Entries[i].CreationHeight = 0 }`
unfoldable pub reset_entries : {D : Type 0} → Unbonding D → Unbonding D
reset_entries u = record u { entries = zero_entries u.entries }

-- What is written of a validator with the text `text` of its address.
unfoldable pub reset_validator : {D : Type 0} → List Bytes → Bytes → Validator D → Validator D
reset_validator allowed text v = record v {
  unbonding_height = 0;
  jailed = if any_given allowed && not (among text allowed) then true else v.jailed;
}

-- `servertypes.ExportedApp`
pub record ExportedApp (sdk : Sdk) : Type 0 where
  pub app_state : sdk.Json
  pub validators : sdk.Validators
  pub height : ℕ
  pub consensus_params : sdk.ConsensusParams

-- The two results of an export: `none` is the empty struct, and the flag says whether there is an error.
abbrev pub ExportResult : Sdk → Type 0
ExportResult sdk = Option (ExportedApp sdk) × Bool

-- An `int64` that is -1.
abbrev pub is_minus_one : ℕ → Bool
is_minus_one h = h == 2 ^ 64 - 1

module _ (sdk : Sdk) where
  open sdk use {State, Data}

  -- The loop over `jailAllowedAddrs`: the map of allowed addresses is the list itself.
  unfoldable pub check_allowed : List Bytes → Process State (Unit {0})
  check_allowed addrs = each addrs λ addr. value_or_exit (sdk.val_address addr) >>= λ _. pure tt

  unfoldable pub withdraw_all_commission : ℕ → Validator Data → Process State (Unit {0})
  withdraw_all_commission h val = do
    bz ← value_or_panic (sdk.operator_address val.operator)
    ignored (sdk.withdraw_commission h bz)

  unfoldable pub withdraw_all_rewards : ℕ → Delegation → Process State (Unit {0})
  withdraw_all_rewards h del = do
    val ← value_or_panic (sdk.val_address del.validator_address)
    acc ← value_or_panic (sdk.acc_address del.delegator_address)
    ignored (sdk.withdraw_rewards h acc val)

  -- "donate any unwithdrawn outstanding reward fraction tokens to the community pool"
  unfoldable pub reinitialize_validator : ℕ → Validator Data → Process State (Unit {0})
  reinitialize_validator h val = do
    bz ← value_or_panic (sdk.operator_address val.operator)
    scraps ← read_or_panic (sdk.outstanding_rewards h bz)
    pool ← read_or_panic (sdk.fee_pool h)
    or_panic (sdk.set_fee_pool h (sdk.add_coins pool scraps))
    or_panic (sdk.after_validator_created h bz)

  unfoldable pub reinitialize_delegation : ℕ → Delegation → Process State (Unit {0})
  reinitialize_delegation h del = do
    val ← value_or_panic (sdk.val_address del.validator_address)
    acc ← value_or_panic (sdk.acc_address del.delegator_address)
    or_panic (sdk.before_delegation_created h acc val)
    or_panic (sdk.after_delegation_modified h acc val)

  unfoldable pub reset_redelegations : ℕ → Process State (Unit {0})
  reset_redelegations h = do
    failed ←
        iterate (sdk.iterate_redelegations h)
          (λ red. or_panic (sdk.set_redelegation h (reset_entries red)))
    panic_on failed

  unfoldable pub reset_unbonding : ℕ → Process State (Unit {0})
  reset_unbonding h = do
    failed ←
        iterate (sdk.iterate_unbonding h)
          (λ ubd. or_panic (sdk.set_unbonding h (reset_entries ubd)))
    panic_on failed

  -- One round of the loop over the validators by power.
  unfoldable pub reset_one : ℕ → List Bytes → Bytes → Process State (Unit {0})
  reset_one h allowed addr = do
    v ← read_or_panic (sdk.get_validator h addr)
    or_panic (sdk.set_validator h (reset_validator allowed (sdk.val_text addr) v))

  unfoldable pub reset_validators : ℕ → List Bytes → Process State (Unit {0})
  reset_validators h allowed s = each (sdk.validator_addresses s) (reset_one h allowed) s

  -- `app.StakingKeeper.ApplyAndReturnValidatorSetUpdates` and the slashing state.
  unfoldable pub finish : ℕ → Process State (Unit {0})
  finish h = do
    or_exit (sdk.apply_updates h)
    failed ←
        iterate (sdk.iterate_signing_infos h)
          (λ t. ignored (sdk.set_signing_info h t.0 (record (t.1) { start_height = 0 })))
    exit_on failed

  -- An error of `Close` is logged, and the rest is left out.
  unfoldable pub close_and_finish : ℕ → Process State (Unit {0})
  close_and_finish h s = if sdk.close_fails s then done tt s else finish h s

  -- The handling of the fees: withdrawals at the height of the context, the new start at height zero.
  -- The error of the second iteration over the validators is overwritten before it is read.
  unfoldable pub reset_fees : ℕ → Process State (Unit {0})
  reset_fees h = do
    failed ← iterate (sdk.iterate_validators h) (withdraw_all_commission h)
    panic_on failed
    dels ← read_or_panic (sdk.all_delegations h)
    each dels (withdraw_all_rewards h)
    change (sdk.delete_slash_events h)
    change (sdk.delete_historical_rewards h)
    _ ← iterate (sdk.iterate_validators 0) (reinitialize_validator 0)
    each dels (reinitialize_delegation 0)

  unfoldable pub prep_for_zero_height_genesis : ℕ → List Bytes → Process State (Unit {0})
  prep_for_zero_height_genesis h allowed = do
    check_allowed allowed
    or_panic (sdk.assert_invariants h)
    reset_fees h
    reset_redelegations h
    reset_unbonding h
    reset_validators h allowed
    close_and_finish h

  -- What follows the preparation. `h` is the height of the context, `height` that of the result.
  unfoldable pub exported : ℕ → ℕ → List Bytes → State → ExportResult sdk
  exported h height modules s = elim (sdk.export_genesis h modules s) [
    | none ↦ (none, true)
    | some json ↦ (
      some (record {
        app_state = json;
        validators = (sdk.write_validators h s).0;
        height = height;
        consensus_params = sdk.consensus_params h s;
      }),
      (sdk.write_validators h s).1,
    )
  ]

  unfoldable pub export_app_state_and_validators :
      Bool → List Bytes → List Bytes → Process State (ExportResult sdk)
  export_app_state_and_validators for_zero_height allowed modules s =
      let h = sdk.last_block_height s in
      let zero =
        go_on (prep_for_zero_height_genesis h allowed s)
          (λ _ s'. done (exported h 0 modules s') s') in
      if for_zero_height then zero else done (exported h ((h + 1) % 2 ^ 64) modules s) s

  -- The application of `appExport`, at a height or the latest one; `none` is an error.
  unfoldable pub app_at : ℕ → Option State
  app_at height =
      if is_minus_one height
      then sdk.new_app true
      else elim (sdk.new_app false) [ none ↦ none | some s ↦ sdk.load_height height s ]

  -- `appExport`, from the text of the home directory, `none` if the option is no text, and whether the
  -- options are those of viper. `none` stands for an error and no process. The period of the checks of
  -- invariants, which it sets to one for the application, is left out.
  unfoldable pub app_export :
      Option Bytes
      → Bool
      → ℕ
      → Bool
      → List Bytes
      → List Bytes
      → Option (Ended State (ExportResult sdk))
  app_export home is_viper height for_zero_height allowed modules = elim home [
    | none ↦ none
    | some path ↦ if bytes_eq path [] || not is_viper then none else elim (app_at height) [
      | none ↦ none
      | some s ↦ some (export_app_state_and_validators for_zero_height allowed modules s)
    ]
  ]
