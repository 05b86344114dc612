-- ===== src/Api/Query/Response.antt =====
-- `QueryParamsResponse` of pointpay/api/pointpay/pnp/query.pulsar.go: its accessors, its reflection and its fast paths.
pub mod Laws
pub mod Codec
use pointpay_chain.Prelude.{
  Bool, List, [], ◌∷◌, ◌++◌, Option, none, some, ℕ, ◌+◌, ◌==◌, if◌then◌else◌, ok, ◌>>=◌,
}
use pointpay_chain.Prelude.Text.{Bytes, codes}
use pointpay_chain.Wire.Error.{Pb, query_params_response_msg}
use pointpay_chain.Wire.Message.{Handler, Switch}
use pointpay_chain.Api.Runtime.{Runtime}
use pointpay_chain.Api.Value.{Values, Params}
use pointpay_chain.Api.Reflect.{
  Field, has_in, clear_in, get_in, set_in, mutable_in, new_field_in, range_in, which_oneof_of,
  receiver, is_valid_of,
}
use pointpay_chain.Api.Reflect.Fields.{params_field}
use pointpay_chain.Api.Frame.{size_of, marshal_of, keep_unknown, decode, unmarshal_of}
use pointpay_chain.Api.Pointer.{Options, pointer_size, write_pointer, pointer_field}

pub record QueryParamsResponse : Type 0 where
  pub params : Option Params
  pub unknown_fields : List ℕ

-- `new(QueryParamsResponse)`
abbrev pub new_message : QueryParamsResponse
new_message = record { params = none; unknown_fields = [] }

-- `GetParams`
unfoldable pub get_params : Option QueryParamsResponse → Option Params
get_params none = none
get_params (some x) = x.params

module _ (vs : Values) where
  unfoldable pub fields : List (Field vs.Value QueryParamsResponse)
  fields =
      params_field vs (codes "pointpay.pnp.QueryParamsResponse.params") (λ x. x.params)
        (λ p x. record x { params = p })
      ∷ []

  unfoldable pub range :
      {S : Type 0} → (Bytes → vs.Value → S → S × Bool) → Option QueryParamsResponse → S → Pb S
  range visit x s = range_in fields visit x s

  unfoldable pub has : Bytes → Option QueryParamsResponse → Pb Bool
  has fd x = has_in fields fd x

  unfoldable pub clear : Bytes → Option QueryParamsResponse → Pb QueryParamsResponse
  clear fd x = clear_in fields fd x

  unfoldable pub get : Bytes → Option QueryParamsResponse → Pb vs.Value
  get fd x = get_in fields fd x

  unfoldable pub set : Bytes → vs.Value → Option QueryParamsResponse → Pb QueryParamsResponse
  set fd v x = set_in fields fd v x

  unfoldable pub mutable : Bytes → Option QueryParamsResponse → Pb (QueryParamsResponse × vs.Value)
  mutable fd x = mutable_in fields fd x

  unfoldable pub new_field : Bytes → Pb vs.Value
  new_field fd = new_field_in fields fd

unfoldable pub which_oneof : Bytes → Option QueryParamsResponse → Pb Bytes
which_oneof d x = which_oneof_of d x

unfoldable pub get_unknown : Option QueryParamsResponse → Pb (List ℕ)
get_unknown x = do m ← receiver x; ok m.unknown_fields

unfoldable pub set_unknown : List ℕ → Option QueryParamsResponse → Pb QueryParamsResponse
set_unknown raw x = do m ← receiver x; ok (record m { unknown_fields = raw })

unfoldable pub is_valid : Option QueryParamsResponse → Bool
is_valid x = is_valid_of x

module _ (rt : Runtime) (options : Options rt) where
  unfoldable pub fields_size : QueryParamsResponse → ℕ
  fields_size x = pointer_size rt options x.params

  unfoldable pub size : Option QueryParamsResponse → ℕ
  size x = size_of fields_size (λ m. m.unknown_fields) x

  -- The part of `marshal` between the unknown fields and the append.
  unfoldable pub write_fields : QueryParamsResponse → List ℕ → ℕ → Pb (List ℕ × ℕ)
  write_fields x dAtA i = write_pointer rt options 0xa x.params dAtA i

  unfoldable pub marshal :
      (QueryParamsResponse → ℕ) → List ℕ → Option QueryParamsResponse → Pb (List ℕ)
  marshal options_size buf x = marshal_of write_fields (λ m. m.unknown_fields) options_size buf x

  -- `case 1`
  unfoldable pub params_case : Handler QueryParamsResponse
  params_case =
      pointer_field rt options query_params_response_msg 1 (λ m. m.params)
        (λ p m. record m { params = some p })

  unfoldable pub switch : Switch QueryParamsResponse
  switch number = if number == 1 then some params_case else none

  unfoldable pub decode_message : List ℕ → QueryParamsResponse → Pb QueryParamsResponse
  decode_message dAtA x =
      decode query_params_response_msg switch
        (keep_unknown rt.skip (λ m raw. record m { unknown_fields = m.unknown_fields ++ raw })
          options.discard_unknown)
        dAtA x

  unfoldable pub unmarshal : List ℕ → Option QueryParamsResponse → Pb (Option QueryParamsResponse)
  unmarshal dAtA x = unmarshal_of decode_message dAtA x
