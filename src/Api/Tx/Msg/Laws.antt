-- ===== src/Api/Tx/Msg/Laws.antt =====
-- The reflection of `MsgUpdateParams` (pointpay/api/pointpay/pnp/tx.pulsar.go) implements a map from the names of its
-- fields to their values.
use pointpay_chain.Prelude.{
  ◌≡◌, refl, true, Bool, Option, some, ok, ap, ltb, length, none, false, panic,
}
use pointpay_chain.Prelude.Text.{Bytes, bytes_eq, codes}
use pointpay_chain.Api.Reflect.{case_of, get_in, receiver}
use pointpay_chain.Api.Value.{Values, Params}
use pointpay_chain.Api.Reflect.Fields.{present, string_field, params_field}
use pointpay_chain.Api.Reflect.Laws.{Same, Laws, two_fields-Laws}
use pointpay_chain.Api.Reflect.Kinds.{
  string_field-Own, string_field-Agrees, params_field-Own, params_field-Agrees, store_keeps,
  renewed_keeps,
}
use pointpay_chain.Api.Reflect.Contract.{
  View, view_of, view_in, update, walk, names_of, view-clear, view-set, view-mutable, range_in-walk,
}
use pointpay_chain.Api.Params as ParamsApi
use pointpay_chain.Api.Params.Laws.{nil_params_panics}
use pointpay_chain.Api.Tx.Msg.{
  MsgUpdateParams, new_message, fields, range, has, clear, get, set, mutable,
}

module _ (vs : Values) where
  fields-Laws : Laws new_message (fields vs)
  unfolding fields string_field params_field
  fields-Laws =
      two_fields-Laws new_message _ _
        (string_field-Own vs new_message _ (λ x. x.authority) (λ s x. record x { authority = s })
          (λ s x. refl) refl)
        (params_field-Own vs new_message _ (λ x. x.params) (λ p x. record x { params = p })
          (λ p x. refl) refl)
        (record {
          stores = λ v x x' e. keeps_params x' x (
              store_keeps (λ t. t.params) x.params (vs.to_string v)
                (λ s. record x { authority = s }) x' (λ s. refl) e);
          resets = λ x. record { has = refl; get = refl };
          renews = λ x x' v e. cc;
        })
        (record {
          stores = λ v x x' e. keeps_authority x' x (
              store_keeps (λ t. t.authority) x.authority (vs.to_params v)
                (λ p. record x { params = p }) x' (λ p. refl) e);
          resets = λ x. record { has = refl; get = refl };
          renews = λ x x' v e. keeps_authority x' x (
              renewed_keeps vs (λ t. t.authority) (λ p t. record t { params = p }) x x' v x.params
                (λ p. refl) e);
        })
    where
      keeps_params :
          (x y : MsgUpdateParams)
          → x.params ≡ y.params
          → Same
              (params_field vs
                (codes "pointpay.pnp.MsgUpdateParams.params")
                (λ t. t.params)
                (λ p t. record t { params = p }))
              x
              y
      keeps_params x y e = record {
        has = ap (λ (p : Option Params). present p) e;
        get = ap vs.of_params e;
      }

      keeps_authority :
          (x y : MsgUpdateParams)
          → x.authority ≡ y.authority
          → Same
              (string_field vs
                (codes "pointpay.pnp.MsgUpdateParams.authority")
                (λ t. t.authority)
                (λ s t. record t { authority = s }))
              x
              y
      keeps_authority x y e = record {
        has = ap (λ (s : Bytes). ltb 0 (length s)) e;
        get = ap vs.of_string e;
      }

  -- From the name of a field to its value, and whether it is populated.
  abbrev pub view : MsgUpdateParams → View vs.Value
  view x = view_of (has vs) (get vs) x

  -- `Set` takes the value that `Get` gives of any message `y`, succeeds, and makes the field as it
  -- is in `y`; every other name keeps its state. This holds too where the parameters of `y` are unset
  -- and the value is an empty, read-only one, on which the documentation of `Set` says that it panics.
  pub set_msg_refines :
      (fd : Bytes) (x y : MsgUpdateParams) (v : vs.Value)
      → get vs fd (some y) ≡ ok v
      → (x' : MsgUpdateParams) × (set vs fd v (some x) ≡ ok x')
        × (view x' ≡ update (view x) fd (view y))
  unfolding get set has view_in
  set_msg_refines fd x y v e = view-set new_message (fields vs) fields-Laws fd x y v e

  -- `Clear` makes the field as it is in a new message; every other name keeps its state.
  pub clear_msg_refines :
      (fd : Bytes) (x x' : MsgUpdateParams)
      → clear vs fd (some x) ≡ ok x'
      → view x' ≡ update (view x) fd (view new_message)
  unfolding clear get has view_in
  clear_msg_refines fd x x' e = view-clear new_message (fields vs) fields-Laws fd x x' e

  -- `Mutable` leaves the field populated with the value that it gives; every other name keeps its
  -- state.
  pub mutable_msg_refines :
      (fd : Bytes) (x x' : MsgUpdateParams) (v : vs.Value)
      → mutable vs fd (some x) ≡ ok (x', v)
      → view x' ≡ update (view x) fd (λ name. ok (true, v))
  unfolding mutable get has view_in
  mutable_msg_refines fd x x' v e = view-mutable new_message (fields vs) fields-Laws fd x x' v e

  -- `Range`, with tests and values of its own, visits the fields that `Has` finds populated with the
  -- values of `Get`, in the order of the message, until its callback stops.
  pub range_msg_refines :
      {S : Type 0} (visit : Bytes → vs.Value → S → S × Bool) (x : MsgUpdateParams) (s : S)
      → range vs visit (some x) s ≡ walk (names_of (fields vs)) (view x) visit s
  unfolding range get has view_in fields case_of bytes_eq string_field params_field
  range_msg_refines visit x s = range_in-walk (fields vs) (fields vs) visit x s (
    refl,
    string_field-Agrees vs (codes "pointpay.pnp.MsgUpdateParams.authority") _
        (λ t y. record y { authority = t }),
    (
      refl,
      params_field-Agrees vs (codes "pointpay.pnp.MsgUpdateParams.params") _
          (λ p y. record y { params = p }),
      tt,
    ),
  )

get_unset :
    (vs : Values) (x : MsgUpdateParams)
    → x.params ≡ none
    → get vs (codes "pointpay.pnp.MsgUpdateParams.params") (some x) ≡ ok (vs.of_params none)
unfolding get get_in fields case_of bytes_eq string_field params_field receiver
get_unset vs x unset = ap (λ (p : Option Params). ok (vs.of_params p)) unset

-- For parameters that are not set, `Get` gives a nil message. It is not valid, and `Has`, `Get` and
-- `Range` of it panic for every field.
pub unset_params_panics :
    (vs : Values) (x : MsgUpdateParams) (fd : Bytes) {S : Type 0}
    (visit : Bytes → vs.Value → S → S × Bool) (s : S)
    → x.params ≡ none
    → (get vs (codes "pointpay.pnp.MsgUpdateParams.params") (some x) ≡ ok (vs.of_params none))
      × (ParamsApi.is_valid none ≡ false)
      × (ParamsApi.has vs fd none ≡ panic)
      × (ParamsApi.get vs fd none ≡ panic)
      × (ParamsApi.range vs visit none s ≡ panic)
unset_params_panics vs x fd visit s unset =
    let (invalid, has, get, range) = nil_params_panics vs fd visit s in
    (get_unset vs x unset, invalid, has, get, range)
