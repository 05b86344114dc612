-- ===== src/Testnet/Nodes/Random.antt =====
-- The random chain id.
use pointpay_chain.Prelude.{
  ℕ, zero, suc, ◌<◌, ◌≡◌, refl, ap, Bool, true, false, ◌&&◌, ◌||◌, [], ◌∷◌, All, ok, leb, length,
  arith,
}
use pointpay_chain.Prelude.Text.{Bytes}
use pointpay_chain.Testnet.Nodes.{charset, at, generate_random_string}

-- A letter of the lower case or a digit.
abbrev pub alphanumeric : ℕ → Bool
alphanumeric c = (leb b'a' c && leb c b'z') || (leb b'0' c && leb c b'9')

abbrev every : Bytes → Bool
every [] = true
every (c ∷ cs) = alphanumeric c && every cs

both : (a b : Bool) → (a && b) ≡ true → (a ≡ true) × (b ≡ true)
both true b e = (refl, e)
both false b e = cc

at_found :
    (text : Bytes) (k : ℕ)
    → every text ≡ true
    → k < length text
    → (c : ℕ) × (at text k ≡ ok c) × (alphanumeric c ≡ true)
unfolding at
at_found [] k e h = absurd (omega arith)
at_found (c ∷ text) zero e h = (c, refl, (both (alphanumeric c) (every text) e).0)
at_found (c ∷ text) (suc k) e h =
    at_found text k (both (alphanumeric c) (every text) e).1 (omega arith)

module _ {Rand : Type 0} (intn : ℕ → Rand → ℕ × Rand)
    (in_range : (n : ℕ) (r : Rand) → 0 < n → (intn n r).0 < n) where
  -- If a random number below a positive bound is below that bound, a random string of any length is
  -- made without a panic, and has that length, and letters of the lower case and digits alone.
  pub generate_random_string_lem :
      (n : ℕ) (r : Rand)
      → (s : Bytes) × (generate_random_string intn n r ≡ ok s)
        × (length s ≡ n)
        × All (λ c. alphanumeric c ≡ true) s
  unfolding generate_random_string
  generate_random_string_lem zero r = ([], refl, refl, tt)
  generate_random_string_lem (suc n) r =
      let (c, found, fits) = at_found charset (intn 36 r).0 refl (in_range 36 r (omega arith)) in
      let (s, runs, long, all) = generate_random_string_lem n (intn 36 r).1 in
      (c ∷ s, rw (found, runs) refl, ap suc long, (fits, all))
