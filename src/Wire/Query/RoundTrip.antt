-- ===== src/Wire/Query/RoundTrip.antt =====
-- Encoding and decoding `QueryParamsResponse`.
use pointpay_chain.Prelude.{
  ℕ, ◌^◌, ◌<◌, ◌≡◌, refl, true, List, none, ◌==◌, length, ok, ◌>>=◌, returns,
}
use pointpay_chain.Wire.Error.{query_pb, query_params_request_msg, query_params_response_msg}
use pointpay_chain.Wire.Message.{skip_unknown}
use pointpay_chain.Wire.Message.Total.{
  skip_unknown-IsUnknown, IsHandler, IsSwitch, unmarshal-returns, each_case, no_case,
}
use pointpay_chain.Wire.Params.Encoding.{IsValid}
use pointpay_chain.Wire.Embedded.Writing.{field_bytes}
use pointpay_chain.Wire.Embedded.Reading.{params_field-IsHandler}
use pointpay_chain.Wire.Embedded.Single.{marshal_single, unmarshal_single}
use pointpay_chain.Wire.Query.{
  QueryParamsResponse, no_response, marshal_to_sized_buffer, size, marshal, response_params_field,
  switch, unmarshal_response, QueryParamsRequest, request_switch, unmarshal_request,
}

pub marshal-field_bytes :
    (m : QueryParamsResponse) → IsValid m.params → marshal m ≡ ok (field_bytes 0xa m.params)
unfolding marshal marshal_to_sized_buffer size
marshal-field_bytes m u = marshal_single m.params u

response_params_field-IsHandler : IsHandler response_params_field
unfolding response_params_field
response_params_field-IsHandler =
    params_field-IsHandler query_pb query_params_response_msg 1 (λ m. m.params)
      (λ m p. record m { params = p })

switch-IsSwitch : IsSwitch switch
unfolding switch
switch-IsSwitch number =
    each_case IsHandler (number == 1) response_params_field none response_params_field-IsHandler
      (no_case IsHandler)

-- `QueryParamsResponse.Unmarshal` ends with a message or an error on every slice of less than
-- 2 ^ 63 bytes: it never panics, and its loop never runs out of fuel.
pub unmarshal_response-returns :
    (dAtA : List ℕ) (m : QueryParamsResponse)
    → length dAtA < 2 ^ 63
    → returns (unmarshal_response dAtA m) ≡ true
unfolding unmarshal_response
unmarshal_response-returns dAtA m small =
    unmarshal-returns query_pb query_params_response_msg switch (skip_unknown query_pb)
      switch-IsSwitch (skip_unknown-IsUnknown query_pb) dAtA m small

unmarshal_field_bytes :
    (m : QueryParamsResponse)
    → IsValid m.params
    → unmarshal_response (field_bytes 0xa m.params) no_response ≡ ok m
unfolding unmarshal_response switch response_params_field
unmarshal_field_bytes m u =
    unmarshal_single query_pb query_params_response_msg (λ x. x.params)
      (λ x p. record x { params = p }) switch (skip_unknown query_pb) refl m.params no_response u
      refl

-- `QueryParamsResponse.Unmarshal` into a fresh message reads back what `Marshal` wrote, for every
-- uint64.
pub unmarshal_response-marshal :
    (m : QueryParamsResponse)
    → IsValid m.params
    → (marshal m >>= λ bz. unmarshal_response bz no_response) ≡ ok m
unmarshal_response-marshal m u = rw (marshal-field_bytes m u) (unmarshal_field_bytes m u)

-- The empty request skips every field, and so ends too.
pub unmarshal_request-returns :
    (dAtA : List ℕ) (m : QueryParamsRequest)
    → length dAtA < 2 ^ 63
    → returns (unmarshal_request dAtA m) ≡ true
unfolding unmarshal_request request_switch
unmarshal_request-returns dAtA m small =
    unmarshal-returns query_pb query_params_request_msg request_switch (skip_unknown query_pb)
      (λ number handler e. no_case IsHandler handler e) (skip_unknown-IsUnknown query_pb) dAtA m
      small
