-- ===== src/Testnet/Nodes/Decimal.antt =====
-- `strconv.Itoa`: twenty rounds are enough for an int.
use native.Mathlib.Nat.{pow-suc}
use pointpay_chain.Prelude.{
  ℕ, zero, suc, ◌+◌, ◌/◌, ◌%◌, ◌^◌, ◌<◌, ◌≡◌, ap, ◌∙◌, Bool-cases, inl, inr, [], ◌∷◌, ltb, ltb→lt,
  arith,
}
use pointpay_chain.Prelude.Text.{Bytes}
use pointpay_chain.Prelude.Int.{pos}
use pointpay_chain.Pnp.Vault.Names.{value_from, decimal_value}
use pointpay_chain.Testnet.Nodes.{digits, decimal}

value_from-digits :
    (room n : ℕ) (written : Bytes)
    → n < 10 ^ room
    → value_from 0 (digits room n written) ≡ value_from n written
unfolding digits
value_from-digits zero n written h =
    let none_left : 0 ≡ n = omega arith in ap (λ (k : ℕ). value_from k written) none_left
value_from-digits (suc room) n written h = elim (Bool-cases (ltb n 10)) [
  | inl small ↦
      let one : n < 10 = ltb→lt n 10 small in
      rw small (ap (λ (k : ℕ). value_from k written) (omega arith))
  | inr large ↦ rw large (
      value_from-digits room (n / 10) ((b'0' + n % 10) ∷ written) (omega (arith, pow-suc 10 room))
      ∙ ap (λ (k : ℕ). value_from k written) (omega arith))
]

-- The text of a number of at most twenty digits stands for that number.
pub decimal_value-decimal : (n : ℕ) → n < 10 ^ 20 → decimal_value (decimal (pos n)) ≡ n
unfolding decimal decimal_value
decimal_value-decimal n h = value_from-digits 20 n [] h
