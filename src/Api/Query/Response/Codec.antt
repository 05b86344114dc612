-- ===== src/Api/Query/Response/Codec.antt =====
-- What the fast paths of `QueryParamsResponse` (pointpay/api/pointpay/pnp/query.pulsar.go) write and read.
use mathlib.Core.List.{append-nil}
use pointpay_chain.Prelude.{
  ℕ, suc, ◌^◌, ◌<◌, ◌≡◌, refl, sym, ap, ◌∙◌, ◌==◌, true, List, [], ◌++◌, length, none, some, ok,
  ◌>>=◌, returns, arith,
}
use pointpay_chain.Wire.Error.{runtime_pb, query_params_response_msg}
use pointpay_chain.Wire.Message as Message
use pointpay_chain.Wire.Message.Total.{IsHandler, IsSwitch, unmarshal-returns, each_case, no_case}
use pointpay_chain.Wire.Params.Encoding.{IsValid, encoding}
use pointpay_chain.Wire.Query as GogoPb
use pointpay_chain.Wire.Varint.Groups.{varint}
use pointpay_chain.Wire.Embedded.Writing.{field_bytes}
use pointpay_chain.Wire.Query.RoundTrip.{marshal-field_bytes}
use pointpay_chain.Api.Runtime.{Runtime}
use pointpay_chain.Api.Frame.Writing.{marshal_of_lem, size_of_lem}
use pointpay_chain.Api.Frame.Reading.{
  keep_unknown-IsUnknown, unmarshal_of-returns, unmarshal_of_lem,
}
use pointpay_chain.Api.Pointer.{Options}
use pointpay_chain.Api.Pointer.Laws.{
  IsPointer, pointer_bytes, pointer_size-length, write_pointer-Fills, pointer_field-IsHandler,
}
use pointpay_chain.Api.Pointer.Reading.{of_gogo, read_pointer_last}
use pointpay_chain.Api.Pointer.Gogo.{pointer_bytes-gogo, field_bytes_short, gogo-IsPointer}
use pointpay_chain.Api.Query.Response.{
  QueryParamsResponse, new_message, fields_size, size, write_fields, marshal, params_case, switch,
  decode_message, unmarshal,
}

-- A message that Go can hold.
abbrev pub IsMessage : QueryParamsResponse → Type 0
IsMessage x =
    IsPointer x.params × (length (pointer_bytes 0xa x.params ++ x.unknown_fields) < 2 ^ 63)

-- The message with the fields of the module's one.
abbrev pub from_gogo : GogoPb.QueryParamsResponse → QueryParamsResponse
from_gogo m = record { params = some (of_gogo m.params); unknown_fields = [] }

gogo_fits : (m : GogoPb.QueryParamsResponse) → IsValid m.params → IsMessage (from_gogo m)
gogo_fits m u = (
  gogo-IsPointer m.params u,
  omega (
    arith,
    field_bytes_short 0xa m.params,
    ap length (append-nil (pointer_bytes 0xa (some (of_gogo m.params)))),
    ap length (pointer_bytes-gogo 0xa m.params),
  ),
)

module _ (rt : Runtime) (options : Options rt) where
  -- `marshal` appends the parameters and then the unknown fields to the buffer, for every message
  -- that Go can hold, if the options give its size.
  pub marshal_response_lem :
      (options_size : QueryParamsResponse → ℕ) (buf : List ℕ) (x : QueryParamsResponse)
      → IsMessage x
      → options_size x ≡ size rt options (some x)
      → marshal rt options options_size buf (some x)
        ≡ ok (buf ++ (pointer_bytes 0xa x.params ++ x.unknown_fields))
  unfolding marshal write_fields size fields_size
  marshal_response_lem options_size buf x h e =
      marshal_of_lem (write_fields rt options) (λ m. m.unknown_fields) options_size buf x
        (pointer_bytes 0xa x.params) (write_pointer-Fills rt options 0xa x.params h.0)
        (e
          ∙ size_of_lem (fields_size rt options) (λ m. m.unknown_fields) x
              (pointer_bytes 0xa x.params) (pointer_size-length rt options 0xa x.params h.0))

  -- The codec of the module writes the same bytes: a message of this one that has its parameters and
  -- no unknown fields is marshalled as the module's `QueryParamsResponse` with the same fields.
  pub marshal_response-same :
      (options_size : QueryParamsResponse → ℕ) (m : GogoPb.QueryParamsResponse)
      → IsValid m.params
      → options_size (from_gogo m) ≡ size rt options (some (from_gogo m))
      → marshal rt options options_size [] (some (from_gogo m)) ≡ GogoPb.marshal m
  marshal_response-same options_size m u e =
      marshal_response_lem options_size [] (from_gogo m) (gogo_fits m u) e
      ∙ ap ok (
          append-nil (pointer_bytes 0xa (some (of_gogo m.params)))
          ∙ pointer_bytes-gogo 0xa m.params)
      ∙ sym (marshal-field_bytes m u)

  switch-IsSwitch : IsSwitch (switch rt options)
  unfolding switch params_case
  switch-IsSwitch number =
      each_case IsHandler (number == 1) _ none
        (pointer_field-IsHandler rt options query_params_response_msg 1 _ _) (no_case IsHandler)

  -- `unmarshal` ends with a message or an error on every slice of less than 2 ^ 63 bytes: it never
  -- panics, and its loop never runs out of fuel.
  pub decode_response-returns :
      (dAtA : List ℕ) (x : QueryParamsResponse)
      → length dAtA < 2 ^ 63
      → returns (unmarshal rt options dAtA (some x)) ≡ true
  unfolding unmarshal decode_message
  decode_response-returns dAtA x small = unmarshal_of-returns _ dAtA x (
      unmarshal-returns runtime_pb query_params_response_msg _ _ switch-IsSwitch
        (keep_unknown-IsUnknown rt _ options.discard_unknown) dAtA x small)

  read_only :
      (m : GogoPb.QueryParamsResponse)
      → IsValid m.params
      → decode_message rt options (field_bytes 0xa m.params) new_message ≡ ok (from_gogo m)
  unfolding decode_message Message.unmarshal switch params_case field_bytes
  read_only m u =
      let n = length (varint (length (encoding m.params)) ++ encoding m.params) in
      read_pointer_last rt options query_params_response_msg 1 (λ m. m.params)
        (λ p m. record m { params = some p }) _ _ 0xa n (suc n) 0 m.params new_message refl
        (omega arith) refl refl refl u (omega arith) (field_bytes_short 0xa m.params)

  -- `unmarshal` into a new message reads back what `marshal` wrote, for a message with parameters and
  -- without unknown fields.
  pub decode_response-marshal :
      (options_size : QueryParamsResponse → ℕ) (m : GogoPb.QueryParamsResponse)
      → IsValid m.params
      → options_size (from_gogo m) ≡ size rt options (some (from_gogo m))
      → (marshal rt options options_size [] (some (from_gogo m)) >>= λ bz.
          unmarshal rt options bz (some new_message))
        ≡ ok (some (from_gogo m))
  unfolding unmarshal
  decode_response-marshal options_size m u e =
      rw (marshal_response-same options_size m u e, marshal-field_bytes m u)
        (unmarshal_of_lem _ (field_bytes 0xa m.params) new_message (from_gogo m) (read_only m u))
