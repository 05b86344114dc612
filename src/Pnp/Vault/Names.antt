-- ===== src/Pnp/Vault/Names.antt =====
-- `itoa` prints in decimal what fits sixteen digits, and different years have different vaults.
use native.Mathlib.Decide.{dec_lt}
use native.Mathlib.Nat.{pow-suc, one-le-pow}
use pointpay_chain.Prelude.{
  ℕ, zero, suc, ◌+◌, ◌-◌, ◌*◌, ◌/◌, ◌%◌, ◌^◌, ◌≤◌, ◌<◌, ◌≡◌, ◌⊎◌, inl, inr, refl, sym, ap, ◌∙◌, [],
  ◌∷◌, ◌++◌, Outcome, ok, panic, lt→ltb, All, arith,
}
use pointpay_chain.Prelude.Text.{Bytes, codes}
use pointpay_chain.Prelude.Int.{pos}
use pointpay_chain.Pnp.Vault.{NoError, itoa_loop, itoa, vault_module_account}

-- The number that decimal digits stand for, behind the value `v` of those read before.
abbrev pub value_from : ℕ → Bytes → ℕ
value_from v [] = v
value_from v (c ∷ cs) = value_from (v * 10 + (c - b'0')) cs

unfoldable pub decimal_value : Bytes → ℕ
decimal_value s = value_from 0 s

abbrev pub IsDigit : ℕ → Type 0
IsDigit c = (b'0' ≤ c) × (c ≤ b'9')

-- Whether the text has no leading zero.
abbrev pub Leads : Bytes → Type 0
Leads [] = Unit {0}
Leads (c ∷ cs) = b'0' < c

record Prints (n : ℕ) (written result : Bytes) : Type 0 where
  value : value_from 0 result ≡ value_from n written
  digits : All IsDigit written → All IsDigit result
  leads : (n ≡ 0 → Leads written) → Leads result

Prints-written : (written : Bytes) → Prints 0 written written
Prints-written written = record { value = refl; digits = λ h. h; leads = λ h. h refl }

digit : (n : ℕ) → (b'0' + n % 10) % 256 ≡ b'0' + n % 10
digit n = omega arith

Prints-digit :
    (n : ℕ) (written s : Bytes)
    → 0 < n
    → Prints (n / 10) ((b'0' + n % 10) % 256 ∷ written) s
    → Prints n written s
Prints-digit n written s h p = record {
  value = p.value ∙ ap (λ (t : ℕ). value_from t written) (omega arith);
  digits = λ d. p.digits ((omega arith, omega arith), d);
  leads = λ _. p.leads (λ e. omega arith);
}

itoa_loop-Prints :
    (room n : ℕ) (written : Bytes)
    → n < 10 ^ room
    → (s : Bytes) × (itoa_loop room n written ≡ ok s) × Prints n written s
unfolding itoa_loop
itoa_loop-Prints zero zero written h = (written, refl, Prints-written written)
itoa_loop-Prints zero (suc n) written h = absurd (omega arith)
itoa_loop-Prints (suc room) zero written h = (written, refl, Prints-written written)
itoa_loop-Prints (suc room) (suc n) written h =
    let (s, e, p) =
      itoa_loop-Prints room (suc n / 10) ((b'0' + suc n % 10) % 256 ∷ written)
        (omega (arith, pow-suc 10 room)) in
    (s, rw (lt→ltb 0 (suc n) (omega arith)) e, Prints-digit (suc n) written s (omega arith) p)

-- Every number of at most sixteen digits is printed in decimal: the digits stand for the number, and
-- the first is no zero, but for the number zero itself.
pub itoa_decimal :
    (n : ℕ)
    → n < 10 ^ 16
    → (s : Bytes) × (itoa (pos n) ≡ ok s)
      × (decimal_value s ≡ n)
      × All IsDigit s
      × ((n ≡ 0) ⊎ Leads s)
unfolding itoa decimal_value
itoa_decimal zero h = (codes "0", refl, refl, omega arith, inl refl)
itoa_decimal (suc n) h =
    let (s, e, p) = itoa_loop-Prints 16 (suc n) [] h in
    (s, e, p.value, p.digits tt, inr (p.leads (λ e0. absurd (omega arith))))

itoa_loop-panic : (room n : ℕ) (written : Bytes) → 10 ^ room ≤ n → itoa_loop room n written ≡ panic
unfolding itoa_loop
itoa_loop-panic zero n written h = rw (lt→ltb 0 n h)
itoa_loop-panic (suc room) n written h =
    let one : 1 ≤ 10 ^ room = one-le-pow room 10 (omega arith) in
    let big : 10 * 10 ^ room ≤ n = omega (arith, pow-suc 10 room) in
    let more : 10 ^ room ≤ n / 10 = omega arith in
    rw (lt→ltb 0 n (omega arith)) (itoa_loop-panic room (n / 10) _ more)

same_digits :
    (a b : ℕ) (s t : Bytes)
    → decimal_value s ≡ a
    → decimal_value t ≡ b
    → ◌≡◌ {A = Outcome NoError Bytes} (ok (codes "pnp_vault_" ++ s)) (ok (codes "pnp_vault_" ++ t))
    → a ≡ b
same_digits a b s t p q e = sym p ∙ ap decimal_value same ∙ q
  where
    same : s ≡ t
    same = cc

-- `itoa` panics for every number of seventeen digits or more, which do not fit its array.
pub itoa_panics : (n : ℕ) → 10 ^ 16 ≤ n → itoa (pos n) ≡ panic
unfolding itoa
itoa_panics zero h = absurd (omega arith)
itoa_panics (suc n) h = itoa_loop-panic 16 (suc n) [] h

-- If a year of at most sixteen digits and any year from zero on give the same result, they are the
-- same year.
pub vault_module_account_injective :
    (a b : ℕ) → a < 10 ^ 16 → vault_module_account (pos a) ≡ vault_module_account (pos b) → a ≡ b
unfolding vault_module_account
vault_module_account_injective a b ha e =
    let (s, es, vs, _, _) = itoa_decimal a ha in
    elim (dec_lt b (10 ^ 16)) [
      | yes hb ↦
          let (t, et, vt, _, _) = itoa_decimal b hb in same_digits a b s t vs vt (rw (es, et) at e)
      | no hb ↦
          let panics = itoa_panics b (omega arith) in
          let off : ◌≡◌ {A = Outcome NoError Bytes} (ok (codes "pnp_vault_" ++ s)) panic =
            rw (es, panics) at e in
          cc
    ]
