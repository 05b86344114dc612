-- ===== src/App/Export/Jail.antt =====
-- The validators after the export's loop over them (pointpay/app/export.go).
use mathlib.Core.Option as Option
use mathlib.Core.Bool.{or-true, or-false}
use pointpay_chain.Prelude.{
  ℕ, ◌≡◌, refl, ap, ◌∙◌, ◌⊎◌, Bool, true, false, not, ◌&&◌, ◌||◌, Bool-cases, inl, inr, List, [],
  ◌∷◌, Option, none, some, Option-cases, if◌then◌else◌,
}
use pointpay_chain.Prelude.Text.{Bytes, bytes_eq, bytes_eq→eq, bytes_eq_refl}
use pointpay_chain.App.Process.{done, each}
use pointpay_chain.App.Export.{among, any_given, reset_validator, reset_one, reset_validators}
use pointpay_chain.App.Export.Env.{Validator, Sdk}
use pointpay_chain.App.Export.Table.{Keyed, either_way, get-put}

-- To reset a validator again changes nothing.
reset_validator_twice :
    {D : Type 0} (allowed : List Bytes) (text : Bytes) (v : Validator D)
    → reset_validator allowed text (reset_validator allowed text v) ≡ reset_validator allowed text v
unfolding reset_validator
reset_validator_twice allowed text v =
    elim (Bool-cases (any_given allowed && not (among text allowed))) [
      | inl jailed ↦ rw jailed refl
      | inr free ↦ rw free refl
    ]

-- A validator with the text `text` of its address after the loop, told independently of the code.
abbrev pub fresh : {D : Type 0} → List Bytes → Bytes → Validator D → Validator D
fresh allowed text v = record v {
  unbonding_height = 0;
  jailed = v.jailed || (any_given allowed && not (among text allowed));
}

reset_validator_lem :
    {D : Type 0} (allowed : List Bytes) (text : Bytes) (v : Validator D)
    → reset_validator allowed text v ≡ fresh allowed text v
unfolding reset_validator
reset_validator_lem allowed text v =
    elim (Bool-cases (any_given allowed && not (among text allowed))) [
      | inl jailed ↦ rw (jailed, or-true) refl
      | inr free ↦ rw (free, or-false) refl
    ]

reset_found :
    {D : Type 0} (allowed : List Bytes) (text : Bytes) (o : Option (Validator D))
    → Option.map (λ v. reset_validator allowed text v) o ≡ Option.map (λ v. fresh allowed text v) o
reset_found allowed text none = refl
reset_found allowed text (some v) = ap some (reset_validator_lem allowed text v)

abbrev pub found : {A : Type 0} → Option A → Bool
found none = false
found (some a) = true

found_value : {A : Type 0} (o : Option A) → found o ≡ true → (a : A) × (o ≡ some a)
found_value none e = cc
found_value (some a) e = (a, refl)

either_true : {b : Bool} (c : Bool) → b ≡ true → (if c then true else b) ≡ true
either_true true e = refl
either_true false e = e

module _ (sdk : Sdk) (h : ℕ) (allowed : List Bytes) (key : Bytes → Bytes)
    (table : Keyed (sdk.get_validator h) (λ v. key v.operator) (sdk.set_validator h))
    (own : (a : Bytes) (s : sdk.State) (v : Validator sdk.Data)
      → sdk.get_validator h a s ≡ some v
      → key v.operator ≡ a) where
  abbrev reset : Bytes → Validator sdk.Data → Validator sdk.Data
  reset a v = reset_validator allowed (sdk.val_text a) v

  abbrev after : Bytes → Validator sdk.Data → sdk.State → sdk.State
  after a v s = (sdk.set_validator h (reset a v) s).1

  get-after :
      (a k : Bytes) (v : Validator sdk.Data) (s : sdk.State)
      → key v.operator ≡ a
      → sdk.get_validator h k (after a v s)
        ≡ (if bytes_eq a k then some (reset a v) else sdk.get_validator h k s)
  get-after a k v s e =
      get-put (sdk.get_validator h) (λ w. key w.operator) (sdk.set_validator h) table (reset a)
        (λ w. keeps a w) k v s
      ∙ rw e refl
    where
      keeps : (a : Bytes) (w : Validator sdk.Data) → key (reset a w).operator ≡ key w.operator
      keeps a w = unfold reset_validator in refl

  -- What one round leaves for the others, and what they make of it.
  round_there :
      (x a : Bytes) (v : Validator sdk.Data) (s : sdk.State)
      → key v.operator ≡ x
      → found (sdk.get_validator h a s) ≡ true
      → found (sdk.get_validator h a (after x v s)) ≡ true
  round_there x a v s e there = elim (Bool-cases (bytes_eq x a)) [
    | inl same ↦ rw (get-after x a v s e, same) refl
    | inr differ ↦ rw (get-after x a v s e, differ) there
  ]

  round_reads :
      (x a : Bytes) (more : Bool) (v : Validator sdk.Data) (s : sdk.State)
      → sdk.get_validator h x s ≡ some v
      → (if more
          then Option.map (reset a) (sdk.get_validator h a (after x v s))
          else sdk.get_validator h a (after x v s))
        ≡ (if if bytes_eq x a then true else more
            then Option.map (reset a) (sdk.get_validator h a s)
            else sdk.get_validator h a s)
  round_reads x a more v s here = elim (Bool-cases (bytes_eq x a)) [
    | inl same ↦
        let one : x ≡ a = bytes_eq→eq x a same in
        let old : sdk.get_validator h a s ≡ some v = rw one at here in
        let new : sdk.get_validator h a (after x v s) ≡ some (reset a v) =
          get-after x a v s (own x s v here) ∙ rw same (ap (λ t. some (reset t v)) one) in
        rw (new, same, old, reset_validator_twice)
          (either_way more (some (reset a v)) (some (reset a v)) refl)
    | inr differ ↦ rw (get-after x a v s (own x s v here), differ) refl
  ]

  reset_loop :
      (addrs : List Bytes) (s : sdk.State)
      → ((a : Bytes) → among a addrs ≡ true → found (sdk.get_validator h a s) ≡ true)
      → (s' : sdk.State) × (each addrs (reset_one sdk h allowed) s ≡ done tt s')
        × ((a : Bytes)
            → sdk.get_validator h a s' ≡ (
                if among a addrs
                then Option.map (reset a) (sdk.get_validator h a s)
                else sdk.get_validator h a s))
  unfolding each among reset_one
  reset_loop [] s there = (s, refl, λ a. refl)
  reset_loop (x ∷ xs) s there =
      let (v, here) = found_value (sdk.get_validator h x s) (there x first_among) in
      let s1 = after x v s in
      let mine = own x s v here in
      let (s', runs, reads) =
        reset_loop xs s1 (λ a e. round_there x a v s mine (there a (wider a e))) in
      (
        s',
        rw (here, table.succeeds (reset x v) s) runs,
        λ a. reads a ∙ round_reads x a (among a xs) v s here,
      )
    where
      first_among : among x (x ∷ xs) ≡ true
      first_among = rw bytes_eq_refl refl

      wider : (a : Bytes) → among a xs ≡ true → among a (x ∷ xs) ≡ true
      wider a e = either_true (bytes_eq x a) e

  -- If a write of a validator succeeds and leaves the others alone, validators are stored under
  -- their own addresses, and the loop visits the addresses of all validators and no others, then it
  -- ends, and every validator is as before, but for its unbonding height, which is zero, and that it
  -- is jailed if allowed addresses are given and the text of its address is none of them.
  pub reset_validators_lem :
      (s : sdk.State)
      → ((a : Bytes)
          → among a (sdk.validator_addresses s) ≡ true
          → found (sdk.get_validator h a s) ≡ true)
      → ((a : Bytes) (v : Validator sdk.Data)
          → sdk.get_validator h a s ≡ some v
          → among a (sdk.validator_addresses s) ≡ true)
      → (s' : sdk.State) × (reset_validators sdk h allowed s ≡ done tt s')
        × ((a : Bytes)
            → sdk.get_validator h a s'
              ≡ Option.map (λ v. fresh allowed (sdk.val_text a) v) (sdk.get_validator h a s))
  unfolding reset_validators
  reset_validators_lem s there every =
      let (s', runs, reads) = reset_loop (sdk.validator_addresses s) s there in
      (
        s',
        runs,
        λ a.
            reads a
            ∙ at a (Option-cases (sdk.get_validator h a s))
            ∙ reset_found allowed (sdk.val_text a) (sdk.get_validator h a s),
      )
    where
      at :
          (a : Bytes)
          → (sdk.get_validator h a s ≡ none)
            ⊎ ((v : Validator sdk.Data) × (sdk.get_validator h a s ≡ some v))
          → (if among a (sdk.validator_addresses s)
              then Option.map (reset a) (sdk.get_validator h a s)
              else sdk.get_validator h a s)
            ≡ Option.map (reset a) (sdk.get_validator h a s)
      at a (inl gone) = rw gone (either_way (among a (sdk.validator_addresses s)) none none refl)
      at a (inr (v, here)) = rw (every a v here) refl
