-- ===== src/Wire/Genesis/RoundTrip.antt =====
-- Encoding and decoding `GenesisState`.
use pointpay_chain.Prelude.{
  ℕ, ◌^◌, ◌<◌, ◌≡◌, refl, true, List, none, ◌==◌, length, ok, ◌>>=◌, returns,
}
use pointpay_chain.Wire.Error.{genesis_pb, genesis_state_msg}
use pointpay_chain.Wire.Message.{skip_unknown}
use pointpay_chain.Wire.Message.Total.{
  skip_unknown-IsUnknown, IsHandler, IsSwitch, unmarshal-returns, each_case, no_case,
}
use pointpay_chain.Wire.Params.Encoding.{IsValid}
use pointpay_chain.Wire.Embedded.Writing.{field_bytes}
use pointpay_chain.Wire.Embedded.Reading.{params_field-IsHandler}
use pointpay_chain.Wire.Embedded.Single.{marshal_single, unmarshal_single}
use pointpay_chain.Wire.Genesis.{
  GenesisState, no_genesis, marshal_to_sized_buffer, size, marshal, genesis_params_field, switch,
  unmarshal_genesis,
}

pub marshal-field_bytes :
    (m : GenesisState) → IsValid m.params → marshal m ≡ ok (field_bytes 0xa m.params)
unfolding marshal marshal_to_sized_buffer size
marshal-field_bytes m u = marshal_single m.params u

genesis_params_field-IsHandler : IsHandler genesis_params_field
unfolding genesis_params_field
genesis_params_field-IsHandler =
    params_field-IsHandler genesis_pb genesis_state_msg 1 (λ m. m.params)
      (λ m p. record m { params = p })

switch-IsSwitch : IsSwitch switch
unfolding switch
switch-IsSwitch number =
    each_case IsHandler (number == 1) genesis_params_field none genesis_params_field-IsHandler
      (no_case IsHandler)

-- `GenesisState.Unmarshal` ends with a message or an error on every slice of less than
-- 2 ^ 63 bytes: it never panics, and its loop never runs out of fuel.
pub unmarshal_genesis-returns :
    (dAtA : List ℕ) (m : GenesisState)
    → length dAtA < 2 ^ 63
    → returns (unmarshal_genesis dAtA m) ≡ true
unfolding unmarshal_genesis
unmarshal_genesis-returns dAtA m small =
    unmarshal-returns genesis_pb genesis_state_msg switch (skip_unknown genesis_pb) switch-IsSwitch
      (skip_unknown-IsUnknown genesis_pb) dAtA m small

unmarshal_field_bytes :
    (m : GenesisState)
    → IsValid m.params
    → unmarshal_genesis (field_bytes 0xa m.params) no_genesis ≡ ok m
unfolding unmarshal_genesis switch genesis_params_field
unmarshal_field_bytes m u =
    unmarshal_single genesis_pb genesis_state_msg (λ x. x.params) (λ x p. record x { params = p })
      switch (skip_unknown genesis_pb) refl m.params no_genesis u refl

-- `GenesisState.Unmarshal` into a fresh message reads back what `Marshal` wrote, for every uint64.
pub unmarshal_genesis-marshal :
    (m : GenesisState)
    → IsValid m.params
    → (marshal m >>= λ bz. unmarshal_genesis bz no_genesis) ≡ ok m
unmarshal_genesis-marshal m u = rw (marshal-field_bytes m u) (unmarshal_field_bytes m u)
