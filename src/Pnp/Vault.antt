-- ===== src/Pnp/Vault.antt =====
-- The names of the vault module accounts (pointpay/x/pnp/types/constants.go).
pub mod Names
use pointpay_chain.Prelude.{
  ℕ, zero, suc, ◌+◌, ◌/◌, ◌%◌, List, [], ◌∷◌, ◌++◌, Outcome, ok, panic, ◌>>=◌, ltb, if◌then◌else◌,
}
use pointpay_chain.Prelude.Text.{Bytes, codes}
use pointpay_chain.Prelude.Int.{ℤ, pos, negsuc}

-- `itoa` returns no error value; it can only panic.
pub data NoError : Type 0 where

-- `for n > 0`: `room` is the index `i` into the 16-byte array and `written` is `b[i:]`. A write at
-- index -1 panics.
unfoldable pub itoa_loop : ℕ → ℕ → Bytes → Outcome NoError Bytes
itoa_loop zero n written = if ltb 0 n then panic else ok written
itoa_loop (suc room) n written =
    let more = itoa_loop room (n / 10) ((b'0' + n % 10) % 256 ∷ written) in
    if ltb 0 n then more else ok written

-- A negative number does not enter the loop.
unfoldable pub itoa : ℤ → Outcome NoError Bytes
itoa (pos zero) = ok (codes "0")
itoa (pos (suc n)) = itoa_loop 16 (suc n) []
itoa (negsuc n) = ok []

unfoldable pub vault_module_account : ℤ → Outcome NoError Bytes
vault_module_account year = do digits ← itoa year; ok (codes "pnp_vault_" ++ digits)
