-- ===== src/Testnet/InPlace/Cleared.antt =====
-- What the deletions of the in-place testnet leave of the staking store
-- (pointpay/cmd/pointpayd/cmd/testnet.go).
use pointpay_chain.Prelude.{
  ◌≡◌, refl, ap, ◌∙◌, Bool, true, false, not, ◌&&◌, List, [], ◌∷◌, if◌then◌else◌, arith,
}
use pointpay_chain.Prelude.Text.{Bytes, bytes_eq}
use pointpay_chain.App.Process.{done, each, change}
use pointpay_chain.App.Export.{among}
use pointpay_chain.Testnet.InPlace.{remove_part, remove_kept, remove_validators}
use pointpay_chain.Testnet.InPlace.Env.{
  StakingPart, power_index, last_validators, validators, validator_queue, Chain,
}

-- A deletion takes its key away from every part that has it, and no other key.
abbrev pub Deletes : Chain → Type 0
Deletes chain =
    (part : StakingPart) (key other : Bytes) (s : chain.State)
    → among other (chain.keys part (chain.delete key s))
      ≡ (among other (chain.keys part s) && not (bytes_eq key other))

and_not : (a b c : Bool) → ((a && not b) && not c) ≡ (a && not (if b then true else c))
and_not true true c = refl
and_not true false c = refl
and_not false b c = refl

and_false : (a : Bool) → (a && false) ≡ false
and_false true = refl
and_false false = refl

and_self : (a : Bool) → (a && not a) ≡ false
and_self true = refl
and_self false = refl

module _ (chain : Chain) (deletes : Deletes chain) where
  -- After a loop over some keys a part has its other ones.
  delete_each :
      (ks : List Bytes) (s : chain.State)
      → (s' : chain.State) × (each ks (λ key. change (chain.delete key)) s ≡ done tt s')
        × ((part : StakingPart) (other : Bytes)
            → among other (chain.keys part s')
              ≡ (among other (chain.keys part s) && not (among other ks)))
  unfolding each among
  delete_each [] s = (s, refl, λ part other. ground arith)
  delete_each (k ∷ ks) s =
      let (s', runs, left) = delete_each ks (chain.delete k s) in
      (
        s',
        runs,
        λ part other.
            left part other
            ∙ ap (λ (b : Bool). b && not (among other ks)) (deletes part k other s)
            ∙ and_not (among other (chain.keys part s)) (bytes_eq k other) (among other ks),
      )

  -- A part that is removed has no key, and no part has a new one.
  remove_part_lem :
      (part : StakingPart) (s : chain.State)
      → (s' : chain.State) × (remove_part chain part s ≡ done tt s')
        × ((other : Bytes) → among other (chain.keys part s') ≡ false)
        × ((another : StakingPart) (other : Bytes)
            → among other (chain.keys another s) ≡ false
            → among other (chain.keys another s') ≡ false)
  unfolding remove_part
  remove_part_lem part s =
      let (s', runs, left) = delete_each (chain.keys part s) s in
      (
        s',
        runs,
        λ other. left part other ∙ and_self (among other (chain.keys part s)),
        λ another other gone.
            left another other ∙ ap (λ (b : Bool). b && not (among other (chain.keys part s))) gone,
      )

  remove_kept_lem :
      (part : StakingPart) (s : chain.State)
      → chain.iterator_fails part s ≡ false
      → remove_kept chain part s ≡ remove_part chain part s
  unfolding remove_kept
  remove_kept_lem part s works = rw works refl

  -- If deletions take away their key and no other one, and the keeper's two iterators work, then the
  -- removal ends, and no part of the staking store has a validator left.
  pub remove_validators_lem :
      (s : chain.State)
      → ((t : chain.State) → chain.iterator_fails power_index t ≡ false)
      → ((t : chain.State) → chain.iterator_fails last_validators t ≡ false)
      → (s' : chain.State) × (remove_validators chain s ≡ done tt s')
        × ((part : StakingPart) (key : Bytes) → among key (chain.keys part s') ≡ false)
  unfolding remove_validators
  remove_validators_lem s powers lasts =
      let (s1, r1, g1, k1) = remove_part_lem power_index s in
      let (s2, r2, g2, k2) = remove_part_lem last_validators s1 in
      let (s3, r3, g3, k3) = remove_part_lem validators s2 in
      let (s4, r4, g4, k4) = remove_part_lem validator_queue s3 in
      (
        s4,
        rw
            (
              remove_kept_lem power_index s (powers s),
              r1,
              remove_kept_lem last_validators s1 (lasts s1),
              r2,
              r3,
            )
            r4,
        elim [
          | power_index ↦
              λ key. k4 power_index key (k3 power_index key (k2 power_index key (g1 key)))
          | last_validators ↦ λ key. k4 last_validators key (k3 last_validators key (g2 key))
          | validators ↦ λ key. k4 validators key (g3 key)
          | validator_queue ↦ g4
        ],
      )
