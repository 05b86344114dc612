-- ===== src/Testnet/Stakes.antt =====
-- Which amounts of the flag become which validator's stake.
use mathlib.Core.List.{append_assoc, append-nil}
use mathlib.Core.Option.{some-injective}
use pointpay_chain.Prelude.{
  length-append, ℕ, zero, suc, ◌+◌, ◌≡◌, refl, ap, sym, ◌∙◌, List, [], ◌∷◌, ◌++◌, Option, none,
  some, ok, panic, ◌>>=◌, length, ◌==◌, if◌then◌else◌, arith,
}
use pointpay_chain.Prelude.Text.{Bytes}
use pointpay_chain.Testnet.{
  split, lookup, put_coin, stake_round, stakes_loop, read_stakes, stake_or, validator_stake,
}

-- The element at a position.
pub at : {V : Type 0} → List V → ℕ → Option V
at [] i = none
at (x ∷ xs) zero = some x
at (x ∷ xs) (suc i) = at xs i

-- One more element at the end.
at_end :
    {V : Type 0} (xs : List V) (x : V) (i : ℕ)
    → at (xs ++ (x ∷ [])) i ≡ (if i == length xs then some x else at xs i)
unfolding at
at_end [] x zero = refl
at_end [] x (suc i) = ground arith
at_end (y ∷ ys) x zero = ground arith
at_end (y ∷ ys) x (suc i) = ground (arith, at_end ys x i)

module _ {Int Coin : Type 0} (new_int_from_string : Bytes → Option Int)
    (new_coin : Int → Option Coin) where
  -- The coins that amounts make, those that are no numbers left out; `none` if one has no coin.
  unfoldable pub add_coin : Option Coin → Option (List Coin) → Option (List Coin)
  add_coin none coins = none
  add_coin (some c) none = none
  add_coin (some c) (some coins) = some (c ∷ coins)

  unfoldable pub add_int : Option Int → Option (List Coin) → Option (List Coin)
  unfolding add_coin
  add_int none coins = coins
  add_int (some a) coins = add_coin (new_coin a) coins

  unfoldable pub coins_of : List Bytes → Option (List Coin)
  unfolding add_int
  coins_of [] = some []
  coins_of (amount ∷ amounts) = add_int (new_int_from_string amount) (coins_of amounts)

  -- The map holds the coins of a list by their positions.
  abbrev pub Holds : List (ℕ × Coin) → List Coin → Type 0
  Holds stakes coins = (i : ℕ) → lookup i stakes ≡ at coins i

  Holds-end :
      (stakes : List (ℕ × Coin)) (coins : List Coin) (c : Coin) (top : ℕ)
      → top ≡ length coins
      → Holds stakes coins
      → Holds ((top, c) ∷ stakes) (coins ++ (c ∷ []))
  unfolding lookup
  Holds-end stakes coins c top e h i = rw (at_end coins c i, h i, e)

  -- The rest of the loop puts the coins of `amounts` behind those of `done`.
  Puts : List Bytes → ℕ → List (ℕ × Coin) → List Coin → List Coin → Type 0
  Puts amounts top stakes done coins =
      (stakes' : List (ℕ × Coin)) × (stakes_loop new_int_from_string new_coin amounts top stakes
        ≡ ok stakes')
      × Holds stakes' (done ++ coins)

  After : List Bytes → Type 0
  After amounts =
      (done : List Coin) (stakes : List (ℕ × Coin)) (coins : List Coin) (top : ℕ)
      → top ≡ length done
      → Holds stakes done
      → coins_of amounts ≡ some coins
      → Puts amounts top stakes done coins

  -- A round with a number that makes the coin `x`.
  put_more :
      (x : Coin) (amounts : List Bytes) (r : Option (List Coin)) (done : List Coin)
      (stakes : List (ℕ × Coin)) (coins : List Coin) (top : ℕ)
      → After amounts
      → coins_of amounts ≡ r
      → top ≡ length done
      → Holds stakes done
      → add_coin (some x) r ≡ some coins
      → Puts amounts (top + 1) ((top, x) ∷ stakes) done coins
  unfolding add_coin After Puts
  put_more x amounts none done stakes coins top next read e h made = cc
  put_more x amounts (some cs) done stakes coins top next read e h made =
      let (later, run, holds) =
        next (done ++ (x ∷ [])) ((top, x) ∷ stakes) cs (top + 1)
          (omega (arith, e, length-append done (x ∷ []))) (Holds-end stakes done x top e h) read in
      (
        later,
        run,
        λ i.
            holds i
            ∙ ap (λ l. at l i)
                (append_assoc done (x ∷ []) cs ∙ ap (λ l. done ++ l) (some-injective _ _ made)),
      )

  -- A round with a number.
  number_round :
      (c : Option Coin) (amounts : List Bytes) (done : List Coin) (stakes : List (ℕ × Coin))
      (coins : List Coin) (top : ℕ)
      → After amounts
      → top ≡ length done
      → Holds stakes done
      → add_coin c (coins_of amounts) ≡ some coins
      → (stakes' : List (ℕ × Coin)) × ((put_coin new_int_from_string new_coin c top stakes >>= λ t.
            stakes_loop new_int_from_string new_coin amounts t.0 t.1)
          ≡ ok stakes')
        × Holds stakes' (done ++ coins)
  unfolding add_coin put_coin Puts
  number_round none amounts done stakes coins top next e h made = cc
  number_round (some x) amounts done stakes coins top next e h made =
      put_more x amounts (coins_of amounts) done stakes coins top next refl e h made

  -- Any round.
  any_round :
      (a : Option Int) (amounts : List Bytes) (done : List Coin) (stakes : List (ℕ × Coin))
      (coins : List Coin) (top : ℕ)
      → After amounts
      → top ≡ length done
      → Holds stakes done
      → add_int a (coins_of amounts) ≡ some coins
      → (stakes' : List (ℕ × Coin)) × ((stake_round new_int_from_string new_coin a top stakes
            >>= λ t. stakes_loop new_int_from_string new_coin amounts t.0 t.1)
          ≡ ok stakes')
        × Holds stakes' (done ++ coins)
  unfolding add_int stake_round After Puts
  any_round none amounts done stakes coins top next e h made = next done stakes coins top e h made
  any_round (some a) amounts done stakes coins top next e h made =
      number_round (new_coin a) amounts done stakes coins top next e h made

  after : (amounts : List Bytes) → After amounts
  unfolding After Puts stakes_loop coins_of
  after [] done stakes coins top e h made = (
    stakes,
    refl,
    λ i.
        h i
        ∙ ap (λ l. at l i) (sym (append-nil done) ∙ ap (λ l. done ++ l) (some-injective _ _ made)),
  )
  after (amount ∷ amounts) done stakes coins top e h made =
      any_round (new_int_from_string amount) amounts done stakes coins top (after amounts) e h made

  empty-Holds : Holds [] []
  unfolding lookup at
  empty-Holds i = refl

  -- If every amount of the flag that is a number makes a coin, the flag is read, and the stakes of the
  -- validators are those coins in order, with the amounts that are no numbers left out: validator `i`
  -- has the coin at position `i`, or the default stake.
  pub validator_stake-read_stakes :
      (s : Bytes) (coins : List Coin) (default_stake : Coin)
      → coins_of (split s) ≡ some coins
      → (stakes : List (ℕ × Coin)) × (read_stakes new_int_from_string new_coin s ≡ ok stakes)
        × ((i : ℕ) → validator_stake default_stake stakes i ≡ stake_or default_stake (at coins i))
  unfolding read_stakes validator_stake After Puts
  validator_stake-read_stakes s coins default_stake made =
      let (stakes, run, holds) = after (split s) [] [] coins 0 refl empty-Holds made in
      (stakes, run, λ i. ap (stake_or default_stake) (holds i))

  none_left : (c : Coin) (r : Option (List Coin)) → add_coin (some c) r ≡ none → r ≡ none
  unfolding add_coin
  none_left c none e = refl
  none_left c (some cs) e = cc

  coinless :
      (c : Option Coin) (amounts : List Bytes) (top : ℕ) (stakes : List (ℕ × Coin))
      → ((t : ℕ) (m : List (ℕ × Coin))
          → coins_of amounts ≡ none
          → stakes_loop new_int_from_string new_coin amounts t m ≡ panic)
      → add_coin c (coins_of amounts) ≡ none
      → (put_coin new_int_from_string new_coin c top stakes >>= λ t.
          stakes_loop new_int_from_string new_coin amounts t.0 t.1)
        ≡ panic
  unfolding put_coin
  coinless none amounts top stakes next e = refl
  coinless (some x) amounts top stakes next e =
      next (top + 1) ((top, x) ∷ stakes) (none_left x (coins_of amounts) e)

  panic_round :
      (a : Option Int) (amounts : List Bytes) (top : ℕ) (stakes : List (ℕ × Coin))
      → ((t : ℕ) (m : List (ℕ × Coin))
          → coins_of amounts ≡ none
          → stakes_loop new_int_from_string new_coin amounts t m ≡ panic)
      → add_int a (coins_of amounts) ≡ none
      → (stake_round new_int_from_string new_coin a top stakes >>= λ t.
          stakes_loop new_int_from_string new_coin amounts t.0 t.1)
        ≡ panic
  unfolding stake_round add_int
  panic_round none amounts top stakes next e = next top stakes e
  panic_round (some a) amounts top stakes next e = coinless (new_coin a) amounts top stakes next e

  loop_panics :
      (amounts : List Bytes) (top : ℕ) (stakes : List (ℕ × Coin))
      → coins_of amounts ≡ none
      → stakes_loop new_int_from_string new_coin amounts top stakes ≡ panic
  unfolding stakes_loop coins_of
  loop_panics [] top stakes e = cc
  loop_panics (amount ∷ amounts) top stakes e =
      panic_round (new_int_from_string amount) amounts top stakes (loop_panics amounts) e

  -- If some amount of the flag is a number that makes no coin, reading the flag panics.
  pub read_stakes_panics :
      (s : Bytes) → coins_of (split s) ≡ none → read_stakes new_int_from_string new_coin s ≡ panic
  unfolding read_stakes
  read_stakes_panics s e = loop_panics (split s) 0 [] e
