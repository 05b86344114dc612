-- ===== src/App/Config/Blocked.antt =====
-- The blocked addresses beside the registered module accounts (pointpay/app/app_config.go and
-- pointpay/app/app.go).
use pointpay_chain.Prelude.{List, ◌∷◌}
use pointpay_chain.Prelude.Text.{Bytes}
use pointpay_chain.App.Config.{Names, economy}
use pointpay_chain.App.Config.Accounts.{accounts_of}

-- The module accounts that may receive coins from anyone: those of the governance, IBC and
-- interchain accounts modules, and those of the economy.
abbrev pub receiving : Names → List Bytes
receiving names = names.gov ∷ names.ibc_transfer ∷ names.ibc_fee ∷ names.ica ∷ accounts_of economy
