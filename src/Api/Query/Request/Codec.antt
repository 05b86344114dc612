-- ===== src/Api/Query/Request/Codec.antt =====
-- What the fast paths of `QueryParamsRequest` (pointpay/api/pointpay/pnp/query.pulsar.go) write and read: the
-- message has no fields of its own.
use pointpay_chain.Prelude.{
  ℕ, ◌^◌, ◌<◌, ◌≡◌, refl, ap, ◌∙◌, Bool, true, false, List, [], ◌++◌, length, some, ok, returns,
  if◌then◌else◌,
}
use pointpay_chain.Wire.Error.{runtime_pb, query_params_request_msg}
use pointpay_chain.Wire.Message.Total.{IsHandler, unmarshal-returns, no_case}
use pointpay_chain.Api.Runtime.{Runtime}
use pointpay_chain.Api.Frame.Writing.{nothing-Fills, marshal_of_lem, size_of_lem}
use pointpay_chain.Api.Frame.Reading.{
  keep_unknown-IsUnknown, decode_keeps_all, unmarshal_of-returns, unmarshal_of_reads,
}
use pointpay_chain.Api.Query.Request.{
  QueryParamsRequest, new_message, fields_size, size, write_fields, marshal, switch, decode_message,
  unmarshal,
}

-- `marshal` appends the unknown fields to the buffer, if the options give the size of the message.
pub marshal_request_lem :
    (options_size : QueryParamsRequest → ℕ) (buf : List ℕ) (x : QueryParamsRequest)
    → options_size x ≡ size (some x)
    → marshal options_size buf (some x) ≡ ok (buf ++ x.unknown_fields)
unfolding marshal write_fields size fields_size
marshal_request_lem options_size buf x e =
    marshal_of_lem write_fields (λ m. m.unknown_fields) options_size buf x [] nothing-Fills
      (e ∙ size_of_lem fields_size (λ m. m.unknown_fields) x [] refl)

module _ (rt : Runtime) where
  -- `unmarshal` ends with a message or an error on every slice of less than 2 ^ 63 bytes: it never
  -- panics, and its loop never runs out of fuel.
  pub decode_request-returns :
      (discard : Bool) (dAtA : List ℕ) (x : QueryParamsRequest)
      → length dAtA < 2 ^ 63
      → returns (unmarshal rt discard dAtA (some x)) ≡ true
  unfolding unmarshal decode_message switch
  decode_request-returns discard dAtA x small = unmarshal_of-returns _ dAtA x (
      unmarshal-returns runtime_pb query_params_request_msg _ _ (λ number. no_case IsHandler)
        (keep_unknown-IsUnknown rt _ discard) dAtA x small)

  -- A successful `unmarshal` adds every byte to the unknown fields, or none with `DiscardUnknown`.
  pub unmarshal_request_keeps :
      (discard : Bool) (dAtA : List ℕ) (x x' : QueryParamsRequest)
      → length dAtA < 2 ^ 63
      → unmarshal rt discard dAtA (some x) ≡ ok (some x')
      → x'.unknown_fields ≡ x.unknown_fields ++ (if discard then [] else dAtA)
  unfolding unmarshal decode_message switch
  unmarshal_request_keeps discard dAtA x x' small e =
      decode_keeps_all rt (λ m. m.unknown_fields)
        (λ m raw. record m { unknown_fields = m.unknown_fields ++ raw }) (λ m s. refl) discard
        query_params_request_msg dAtA x x' small (unmarshal_of_reads _ dAtA x x' e)

  -- What is unmarshalled into a new message is marshalled again byte by byte: fields that a later
  -- version of the message may have are not lost.
  pub marshal_request-unmarshal :
      (options_size : QueryParamsRequest → ℕ) (dAtA : List ℕ) (x : QueryParamsRequest)
      → length dAtA < 2 ^ 63
      → unmarshal rt false dAtA (some new_message) ≡ ok (some x)
      → options_size x ≡ size (some x)
      → marshal options_size [] (some x) ≡ ok dAtA
  marshal_request-unmarshal options_size dAtA x small e size =
      marshal_request_lem options_size [] x size
      ∙ ap ok (unmarshal_request_keeps false dAtA new_message x small e)
