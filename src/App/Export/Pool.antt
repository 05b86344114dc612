-- ===== src/App/Export/Pool.antt =====
-- The community pool after the validators have started anew (pointpay/app/export.go).
use pointpay_chain.Prelude.{
  ℕ, ◌≡◌, refl, ◌∙◌, Bool, true, false, List, [], ◌∷◌, All, some, if◌then◌else◌,
}
use pointpay_chain.Prelude.Text.{Bytes, bytes_eq}
use pointpay_chain.App.Process.{done, each, iterate}
use pointpay_chain.App.Export.{reinitialize_validator}
use pointpay_chain.App.Export.Env.{Validator, Sdk}
use pointpay_chain.App.Export.Table.{covers}

-- What the distribution module does with the pool and the outstanding rewards: a new pool is stored,
-- and the hook for a new validator touches no reward but that validator's, and not the pool.
pub record Distribution (sdk : Sdk) (h : ℕ) : Type 0 where
  pub pool_succeeds : (c : sdk.Coins) (s : sdk.State) → (sdk.set_fee_pool h c s).0 ≡ false
  pub pool_stored :
      (c : sdk.Coins) (s : sdk.State) → sdk.fee_pool h (sdk.set_fee_pool h c s).1 ≡ some c
  pub pool_apart :
      (c : sdk.Coins) (a : Bytes) (s : sdk.State)
      → sdk.outstanding_rewards h a (sdk.set_fee_pool h c s).1 ≡ sdk.outstanding_rewards h a s
  pub hook_succeeds : (a : Bytes) (s : sdk.State) → (sdk.after_validator_created h a s).0 ≡ false
  pub hook_pool :
      (a : Bytes) (s : sdk.State)
      → sdk.fee_pool h (sdk.after_validator_created h a s).1 ≡ sdk.fee_pool h s
  pub hook_apart :
      (a k : Bytes) (s : sdk.State)
      → bytes_eq k a ≡ false
      → sdk.outstanding_rewards h k (sdk.after_validator_created h a s).1
        ≡ sdk.outstanding_rewards h k s

-- No two values have one key.
abbrev pub Distinct : {A : Type 0} → (A → Bytes) → List A → Type 0
Distinct key [] = Unit
Distinct key (x ∷ xs) = (covers key xs (key x) ≡ false) × Distinct key xs

not_covered : (b c : Bool) → (if b then true else c) ≡ false → (b ≡ false) × (c ≡ false)
not_covered true c e = cc
not_covered false c e = (refl, e)

module _ (sdk : Sdk) (h : ℕ) (address : Validator sdk.Data → Bytes)
    (scraps : Bytes → sdk.Coins) where
  -- The operator has an address, and outstanding rewards in the state.
  abbrev pub Rewarded : sdk.State → Validator sdk.Data → Type 0
  Rewarded s v =
      (sdk.operator_address v.operator ≡ some (address v))
      × (sdk.outstanding_rewards h (address v) s ≡ some (scraps (address v)))

  -- The pool with the rewards of all of them.
  abbrev pub with_scraps : sdk.Coins → List (Validator sdk.Data) → sdk.Coins
  with_scraps pool [] = pool
  with_scraps pool (v ∷ vs) = with_scraps (sdk.add_coins pool (scraps (address v))) vs

  module _ (laws : Distribution sdk h) where
    abbrev after : Validator sdk.Data → sdk.Coins → sdk.State → sdk.State
    after v pool s =
        (sdk.after_validator_created h (address v)
          (sdk.set_fee_pool h (sdk.add_coins pool (scraps (address v))) s).1).1

    one_validator :
        (v : Validator sdk.Data) (pool : sdk.Coins) (s : sdk.State)
        → Rewarded s v
        → sdk.fee_pool h s ≡ some pool
        → reinitialize_validator sdk h v s ≡ done tt (after v pool s)
    unfolding reinitialize_validator
    one_validator v pool s (has, owed) there =
        rw (has, owed, there, laws.pool_succeeds, laws.hook_succeeds) refl

    pool_after :
        (v : Validator sdk.Data) (pool : sdk.Coins) (s : sdk.State)
        → sdk.fee_pool h (after v pool s) ≡ some (sdk.add_coins pool (scraps (address v)))
    pool_after v pool s = laws.hook_pool _ _ ∙ laws.pool_stored _ s

    owed_after :
        (v : Validator sdk.Data) (pool : sdk.Coins) (s : sdk.State) (vs : List (Validator sdk.Data))
        → covers address vs (address v) ≡ false
        → All (Rewarded s) vs
        → All (Rewarded (after v pool s)) vs
    unfolding covers
    owed_after v pool s [] apart all = tt
    owed_after v pool s (w ∷ ws) apart ((has, owed), all) =
        let (differ, rest) =
          not_covered (bytes_eq (address w) (address v)) (covers address ws (address v)) apart in
        (
          (has, laws.hook_apart _ (address w) _ differ ∙ laws.pool_apart _ (address w) s ∙ owed),
          owed_after v pool s ws rest all,
        )

    -- All validators in turn.
    reinitialize_each :
        (vs : List (Validator sdk.Data)) (pool : sdk.Coins) (s : sdk.State)
        → Distinct address vs
        → All (Rewarded s) vs
        → sdk.fee_pool h s ≡ some pool
        → (s' : sdk.State) × (each vs (reinitialize_validator sdk h) s ≡ done tt s')
          × (sdk.fee_pool h s' ≡ some (with_scraps pool vs))
    unfolding each
    reinitialize_each [] pool s apart all there = (s, refl, there)
    reinitialize_each (v ∷ vs) pool s (apart, more) (one, all) there =
        let (s', runs, pool') =
          reinitialize_each vs (sdk.add_coins pool (scraps (address v))) (after v pool s) more
            (owed_after v pool s vs apart all) (pool_after v pool s) in
        (s', rw (one_validator v pool s one there) runs, pool')

    -- If the validators that the iteration visits have different addresses and outstanding rewards,
    -- and there is a community pool, the iteration that starts them anew ends, and the pool then has
    -- the outstanding rewards of all of them on top.
    pub reinitialize_pool :
        (pool : sdk.Coins) (s : sdk.State)
        → Distinct address (sdk.iterate_validators h s).0
        → All (Rewarded s) (sdk.iterate_validators h s).0
        → sdk.fee_pool h s ≡ some pool
        → (s' : sdk.State) × (iterate (sdk.iterate_validators h) (reinitialize_validator sdk h) s
            ≡ done (sdk.iterate_validators h s).1 s')
          × (sdk.fee_pool h s' ≡ some (with_scraps pool (sdk.iterate_validators h s).0))
    unfolding iterate
    reinitialize_pool pool s apart all there =
        let (s', runs, pool') =
          reinitialize_each (sdk.iterate_validators h s).0 pool s apart all there in
        (s', rw runs refl, pool')
