-- ===== src/Api/Params/Laws.antt =====
-- The reflection of `Params` (pointpay/api/pointpay/pnp/params.pulsar.go) implements a map from the names of its
-- fields to their values.
use pointpay_chain.Prelude.{◌≡◌, refl, Bool, some, ok, none, false, panic}
use pointpay_chain.Prelude.Text.{codes, Bytes, bytes_eq}
use pointpay_chain.Api.Reflect.{case_of, receiver, is_valid_of, has_in, get_in, range_in}
use pointpay_chain.Api.Value.{Values, Params, new_params}
use pointpay_chain.Api.Reflect.Laws.{Laws, field-Laws, every_case_panics}
use pointpay_chain.Api.Reflect.Kinds.{uint64_field-Own, uint64_field-Agrees}
use pointpay_chain.Api.Reflect.Contract.{
  View, view_of, view_in, update, walk, names_of, view-clear, view-set, range_in-walk,
}
use pointpay_chain.Api.Reflect.Fields.{uint64_field}
use pointpay_chain.Api.Params.{fields, range, has, clear, get, set, is_valid}

module _ (vs : Values) where
  fields-Laws : Laws new_params (fields vs)
  unfolding fields
  fields-Laws = field-Laws new_params _ (
      uint64_field-Own vs new_params _ (λ x. x.max_supply) (λ v x. record x { max_supply = v })
        (λ v x. refl) refl)

  -- From the name of a field to its value, and whether it is populated.
  abbrev pub view : Params → View vs.Value
  view x = view_of (has vs) (get vs) x

  -- `Set` takes the value that `Get` gives of any message `y`, succeeds, and makes the field as it
  -- is in `y`; every other name keeps its state.
  pub set_params_refines :
      (fd : Bytes) (x y : Params) (v : vs.Value)
      → get vs fd (some y) ≡ ok v
      → (x' : Params) × (set vs fd v (some x) ≡ ok x') × (view x' ≡ update (view x) fd (view y))
  unfolding get set has view_in
  set_params_refines fd x y v e = view-set new_params (fields vs) fields-Laws fd x y v e

  -- `Clear` makes the field as it is in a new message; every other name keeps its state.
  pub clear_params_refines :
      (fd : Bytes) (x x' : Params)
      → clear vs fd (some x) ≡ ok x'
      → view x' ≡ update (view x) fd (view new_params)
  unfolding clear get has view_in
  clear_params_refines fd x x' e = view-clear new_params (fields vs) fields-Laws fd x x' e

  -- `Range` visits the populated fields with their values, in the order of the message, until its
  -- callback stops.
  pub range_params_refines :
      {S : Type 0} (visit : Bytes → vs.Value → S → S × Bool) (x : Params) (s : S)
      → range vs visit (some x) s ≡ walk (names_of (fields vs)) (view x) visit s
  unfolding range get has view_in fields case_of bytes_eq uint64_field
  range_params_refines visit x s = range_in-walk (fields vs) (fields vs) visit x s (
    refl,
    uint64_field-Agrees vs (codes "pointpay.pnp.Params.maxSupply") _
        (λ n y. record y { max_supply = n }),
    tt,
  )

-- A nil message panics where a field is read or visited.
pub nil_params_panics :
    (vs : Values) (fd : Bytes) {S : Type 0} (visit : Bytes → vs.Value → S → S × Bool) (s : S)
    → (is_valid none ≡ false)
      × (has vs fd none ≡ panic)
      × (get vs fd none ≡ panic)
      × (range vs visit none s ≡ panic)
unfolding is_valid is_valid_of has get range has_in get_in range_in fields receiver
nil_params_panics vs fd visit s = (
  refl,
  every_case_panics (fields vs) fd _ (λ f. refl),
  every_case_panics (fields vs) fd _ (λ f. refl),
  refl,
)
