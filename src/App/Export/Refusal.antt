-- ===== src/App/Export/Refusal.antt =====
-- When the export ends early (pointpay/app/export.go).
use pointpay_chain.Prelude.{◌≡◌, refl, true, List, [], ◌∷◌, ◌++◌, All, none, some}
use pointpay_chain.Prelude.Text.{Bytes}
use pointpay_chain.App.Process.{exited, each}
use pointpay_chain.App.Export.{
  check_allowed, prep_for_zero_height_genesis, export_app_state_and_validators,
}
use pointpay_chain.App.Export.Env.{Sdk}

module _ (sdk : Sdk) where
  check_exits :
      (good : List Bytes) (bad : Bytes) (others : List Bytes) (s : sdk.State)
      → All (λ a. (bz : Bytes) × (sdk.val_address a ≡ some bz)) good
      → sdk.val_address bad ≡ none
      → check_allowed sdk (good ++ (bad ∷ others)) s ≡ exited s
  unfolding check_allowed each
  check_exits [] bad others s parse fails = rw fails refl
  check_exits (a ∷ good) bad others s ((bz, parses), parse) fails =
      rw parses (check_exits good bad others s parse fails)

  -- An export for zero height with an allowed address that does not parse ends the process, and the
  -- state is as before: nothing is withdrawn, reset or jailed.
  pub export_bad_address :
      (good : List Bytes) (bad : Bytes) (others modules : List Bytes) (s : sdk.State)
      → All (λ a. (bz : Bytes) × (sdk.val_address a ≡ some bz)) good
      → sdk.val_address bad ≡ none
      → export_app_state_and_validators sdk true (good ++ (bad ∷ others)) modules s ≡ exited s
  unfolding export_app_state_and_validators prep_for_zero_height_genesis
  export_bad_address good bad others modules s parse fails =
      rw (check_exits good bad others s parse fails) refl
