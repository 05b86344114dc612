-- ===== src/Api/ModuleConfig/Laws.antt =====
-- The reflection of `Module` (pointpay/api/pointpay/pnp/module/module.pulsar.go) implements a map from the names of its
-- fields to their values.
use pointpay_chain.Prelude.{◌≡◌, refl, Bool, some, ok}
use pointpay_chain.Prelude.Text.{codes, Bytes, bytes_eq}
use pointpay_chain.Api.Reflect.{case_of}
use pointpay_chain.Api.Value.{Values}
use pointpay_chain.Api.Reflect.Laws.{Laws, field-Laws}
use pointpay_chain.Api.Reflect.Kinds.{string_field-Own, string_field-Agrees}
use pointpay_chain.Api.Reflect.Contract.{
  View, view_of, view_in, update, walk, names_of, view-clear, view-set, range_in-walk,
}
use pointpay_chain.Api.Reflect.Fields.{string_field}
use pointpay_chain.Api.ModuleConfig.{Module, new_message, fields, range, has, clear, get, set}

module _ (vs : Values) where
  fields-Laws : Laws new_message (fields vs)
  unfolding fields
  fields-Laws = field-Laws new_message _ (
      string_field-Own vs new_message _ (λ x. x.authority) (λ v x. record x { authority = v })
        (λ v x. refl) refl)

  -- From the name of a field to its value, and whether it is populated.
  abbrev pub view : Module → View vs.Value
  view x = view_of (has vs) (get vs) x

  -- `Set` takes the value that `Get` gives of any message `y`, succeeds, and makes the field as it
  -- is in `y`; every other name keeps its state.
  pub set_config_refines :
      (fd : Bytes) (x y : Module) (v : vs.Value)
      → get vs fd (some y) ≡ ok v
      → (x' : Module) × (set vs fd v (some x) ≡ ok x') × (view x' ≡ update (view x) fd (view y))
  unfolding get set has view_in
  set_config_refines fd x y v e = view-set new_message (fields vs) fields-Laws fd x y v e

  -- `Clear` makes the field as it is in a new message; every other name keeps its state.
  pub clear_config_refines :
      (fd : Bytes) (x x' : Module)
      → clear vs fd (some x) ≡ ok x'
      → view x' ≡ update (view x) fd (view new_message)
  unfolding clear get has view_in
  clear_config_refines fd x x' e = view-clear new_message (fields vs) fields-Laws fd x x' e

  -- `Range` visits the populated fields with their values, in the order of the message, until its
  -- callback stops.
  pub range_config_refines :
      {S : Type 0} (visit : Bytes → vs.Value → S → S × Bool) (x : Module) (s : S)
      → range vs visit (some x) s ≡ walk (names_of (fields vs)) (view x) visit s
  unfolding range get has view_in fields case_of bytes_eq string_field
  range_config_refines visit x s = range_in-walk (fields vs) (fields vs) visit x s (
    refl,
    string_field-Agrees vs (codes "pointpay.pnp.module.Module.authority") _
        (λ t y. record y { authority = t }),
    tt,
  )
