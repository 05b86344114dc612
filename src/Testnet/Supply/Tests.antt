-- ===== src/Testnet/Supply/Tests.antt =====
-- The supply of a testnet's genesis at a concrete input: coins are functions of the denomination, with a mark
-- that they are sorted, without which they cannot be added.
use pointpay_chain.Prelude.{
  ℕ, ◌+◌, ◌*◌, ◌≡◌, refl, Bool, true, false, ◌&&◌, [], ◌∷◌, none, some, ok, if◌then◌else◌,
}
use pointpay_chain.Prelude.Text.{Bytes, codes, bytes_eq}
use pointpay_chain.Testnet.Supply.{Bank, Adds, gen_balances, genesis_supply, genesis_supply_lem}

abbrev bank : Bank
bank = record {
  Coins = Bool × (Bytes → ℕ);
  no_coins = (true, λ d. 0);
  amount = λ d coins. coins.1 d;
  coin_before = λ d n coins. (false, λ k. (if bytes_eq d k then n else 0) + coins.1 k);
  sort = λ coins. (true, coins.1);
  add = λ a b. if a.0 && b.0 then some (true, λ k. a.1 k + b.1 k) else none;
  bond_denom = codes "stake";
  tokens = λ power. power * 1000000;
  sanitize = λ bals. some bals;
}

laws : Adds bank
laws = record {
  Sorted = λ coins. coins.0 ≡ true;
  adds = λ a b one two. ((true, λ k. a.1 k + b.1 k), rw (one, two) refl, refl, λ d. refl);
  sorts = λ a. refl;
  sort_keeps = λ d a. refl;
  sanitizes = λ bals apart all. (bals, refl, all, λ d. refl);
}

-- Three validators on top of a supply of 7.
genesis_supply_lem_example :
    (c : Bool × (Bytes → ℕ)) × (genesis_supply bank
        (true, λ d. 7)
        (codes "a" ∷ codes "b" ∷ codes "c" ∷ [])
      ≡ ok c)
    × ((denom : Bytes)
        → c.1 denom
          ≡ 7
            + ((if bytes_eq (codes "testtoken") denom then 1000000000 else 0)
                + ((if bytes_eq (codes "stake") denom then 500000000 else 0) + 0))
              * 3)
unfolding bytes_eq laws gen_balances
genesis_supply_lem_example =
    genesis_supply_lem bank laws (true, λ d. 7) (codes "a" ∷ codes "b" ∷ codes "c" ∷ []) refl
      ((refl, (refl, tt)), ((refl, tt), (tt, tt)))
