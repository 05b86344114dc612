-- ===== src/Api/Params/Codec.antt =====
-- What the fast paths of `Params` write and read. The fields are written as the codec of the module
-- (pointpay/x/pnp/types/params.pb.go) writes them.
use mathlib.Core.List.{append-nil}
use pointpay_chain.Prelude.{
  ℕ, suc, ◌+◌, ◌^◌, ◌<◌, ◌≡◌, refl, sym, ap, ◌∙◌, ◌==◌, not, true, Bool, Bool-cases, inl, inr, List,
  [], ◌∷◌, ◌++◌, length, ==→eq, none, some, ok, ◌>>=◌, on_ok, passed, returns, arith,
}
use pointpay_chain.Wire.Error.{runtime_pb, params_msg, wrong_wire_type}
use pointpay_chain.Wire.Varint.{IsU64, read_varint}
use pointpay_chain.Wire.Varint.Groups.{varint}
use pointpay_chain.Wire.Varint.Decoding.{read_varint-varint, read_varint-Takes, read_varint-returns}
use pointpay_chain.Wire.Message.{expect_wire_type, unmarshal}
use pointpay_chain.Wire.Message.Total.{IsHandler, unmarshal-returns, each_case, no_case}
use pointpay_chain.Wire.Message.Fields.{loop_known, loop_end}
use pointpay_chain.Wire.Params as ParamsPb
use pointpay_chain.Wire.Params.Encoding.{encoding, marshal-encoding, length-encoding}
use pointpay_chain.Api.Runtime.{Runtime}
use pointpay_chain.Api.Value.{Params, new_params}
use pointpay_chain.Api.Frame.Writing.{
  Fills, nothing-Fills, write_varint_field-Fills, marshal_of_lem, size_of_lem,
}
use pointpay_chain.Api.Frame.Reading.{keep_unknown-IsUnknown, unmarshal_of_lem}
use pointpay_chain.Api.Params as ParamsApi
use pointpay_chain.Api.Params.{fields_size, write_fields, max_supply_field, switch, decode_params}

-- The message of the module's codec with the same fields.
abbrev pub to_gogo : Params → ParamsPb.Params
to_gogo x = record { max_supply = x.max_supply }

-- The message with the field of the module's one.
abbrev pub from_gogo : ParamsPb.Params → Params
from_gogo m = record { max_supply = m.max_supply; unknown_fields = [] }

-- What the message is on the wire.
abbrev pub bytes_of : Params → List ℕ
bytes_of x = encoding (to_gogo x) ++ x.unknown_fields

-- A message that Go can hold.
abbrev pub IsValid : Params → Type 0
IsValid x = IsU64 x.max_supply × (length (bytes_of x) < 2 ^ 63)

module _ (rt : Runtime) where
  write_fields-Fills :
      (x : Params) → IsU64 x.max_supply → Fills (write_fields rt x) (encoding (to_gogo x))
  unfolding write_fields encoding
  write_fields-Fills x u = elim (Bool-cases (x.max_supply == 0)) [
    | inl z ↦ rw z nothing-Fills
    | inr z ↦ rw z (write_varint_field-Fills rt.encode_varint x.max_supply 0x8 rt.encodes u)
  ]

  fields_size-length :
      (x : Params) → IsU64 x.max_supply → fields_size rt x ≡ length (encoding (to_gogo x))
  unfolding fields_size encoding
  fields_size-length x u = ground (arith, rt.sov_bytes x.max_supply u)

  -- `size` is the number of bytes of the message.
  pub size-bytes_of : (x : Params) → IsValid x → ParamsApi.size rt (some x) ≡ length (bytes_of x)
  unfolding ParamsApi.size
  size-bytes_of x (u, _) =
      size_of_lem (fields_size rt) (λ m. m.unknown_fields) x (encoding (to_gogo x))
        (fields_size-length x u)

  -- `marshal` writes them behind the buffer.
  pub marshal-bytes_of :
      (options_size : Params → ℕ) (buf : List ℕ) (x : Params)
      → IsValid x
      → options_size x ≡ length (bytes_of x)
      → ParamsApi.marshal rt options_size buf (some x) ≡ ok (buf ++ bytes_of x)
  unfolding ParamsApi.marshal
  marshal-bytes_of options_size buf x (u, _) e =
      marshal_of_lem (write_fields rt) (λ m. m.unknown_fields) options_size buf x
        (encoding (to_gogo x)) (write_fields-Fills x u) e

  max_supply_field-IsHandler : IsHandler (max_supply_field rt)
  unfolding max_supply_field expect_wire_type
  max_supply_field-IsHandler = record {
    ends = λ wt l index bytes m place small.
        ground (arith, read_varint-returns runtime_pb bytes index);
    stays = λ wt l index bytes m m' index' rest place small e.
        let (_, e1) = passed (not (wt == 0)) (wrong_wire_type params_msg 1 wt) _ e in
        on_ok (read_varint runtime_pb index bytes) _ e1 λ (v, i, r) read done.
          let (t, _) = read_varint-Takes runtime_pb bytes index v i r read in
          let first : (index < i) × (i + length r ≡ l) = omega (arith, t.moves, t.keeps) in
          ground (arith, first, done);
  }

  -- The decoder ends with a message or an error, on every slice that Go can hold.
  pub decode_params-returns :
      (discard : Bool) (dAtA : List ℕ) (x : Params)
      → length dAtA < 2 ^ 63
      → returns (decode_params rt discard dAtA x) ≡ true
  unfolding decode_params switch
  decode_params-returns discard dAtA x small =
      unmarshal-returns runtime_pb params_msg _ _
        (λ number.
          each_case IsHandler (number == 1) (max_supply_field rt) none max_supply_field-IsHandler
            (no_case IsHandler))
        (keep_unknown-IsUnknown rt _ discard) dAtA x small

  read_max_supply :
      (v l index : ℕ) (rest : List ℕ) (m : Params)
      → IsU64 v
      → max_supply_field rt 0 l index (varint v ++ rest) m
        ≡ ok (record m { max_supply = v }, index + length (varint v), rest)
  unfolding max_supply_field expect_wire_type
  read_max_supply v l index rest m u = rw (read_varint-varint runtime_pb v index rest u) refl

  decode_nonzero :
      (discard : Bool) (v : ℕ)
      → IsU64 v
      → decode_params rt discard (0x8 ∷ varint v) new_params
        ≡ ok (record new_params { max_supply = v })
  unfolding decode_params unmarshal switch
  decode_nonzero discard v u =
      let n = length (varint v) in
      loop_known runtime_pb params_msg _ _ 0x8 (max_supply_field rt) n (suc n) 0 (varint v)
        new_params (record new_params { max_supply = v }) (0 + 1 + n) [] (omega arith) refl refl
        refl
        (ap (λ (t : List ℕ). max_supply_field rt 0 (suc n) (0 + 1) t new_params)
            (sym (append-nil (varint v)))
          ∙ read_max_supply v (suc n) (0 + 1) [] new_params u)
      ∙ loop_end runtime_pb params_msg _ _ n (suc n) (0 + 1 + n)
          (record new_params { max_supply = v }) (omega arith)

  -- The bytes of the fields decode to the message with these fields.
  pub decode_params-encoding :
      (discard : Bool) (m : ParamsPb.Params)
      → IsU64 m.max_supply
      → decode_params rt discard (encoding m) new_params
        ≡ ok (record new_params { max_supply = m.max_supply })
  unfolding encoding
  decode_params-encoding discard m u = elim (Bool-cases (m.max_supply == 0)) [
    | inl z ↦
        rw (z, ==→eq m.max_supply 0 z)
          (unfold decode_params unmarshal in
            loop_end runtime_pb params_msg _ _ 0 0 0 new_params refl)
    | inr z ↦ rw z (decode_nonzero discard m.max_supply u)
  ]

  -- The codec of the module writes the same bytes: a message of this one without unknown fields is
  -- marshalled as the `Params` of pointpay/x/pnp/types/params.pb.go with the same field.
  pub marshal_api_params-same :
      (options_size : Params → ℕ) (m : ParamsPb.Params)
      → IsU64 m.max_supply
      → options_size (from_gogo m) ≡ ParamsApi.size rt (some (from_gogo m))
      → ParamsApi.marshal rt options_size [] (some (from_gogo m)) ≡ ParamsPb.marshal m
  marshal_api_params-same options_size m u e =
      let fits : IsValid (from_gogo m) =
        (u, omega (arith, length-encoding m, ap length (append-nil (encoding m)))) in
      marshal-bytes_of options_size [] (from_gogo m) fits (e ∙ size-bytes_of (from_gogo m) fits)
      ∙ ap ok (append-nil (encoding m))
      ∙ sym (marshal-encoding m u)

  -- `unmarshal` into a new message reads back what `marshal` wrote, for every uint64 and a message
  -- without unknown fields.
  pub decode_api_params-marshal :
      (discard : Bool) (options_size : Params → ℕ) (m : ParamsPb.Params)
      → IsU64 m.max_supply
      → options_size (from_gogo m) ≡ ParamsApi.size rt (some (from_gogo m))
      → (ParamsApi.marshal rt options_size [] (some (from_gogo m)) >>= λ bz.
          ParamsApi.unmarshal rt discard bz (some new_params))
        ≡ ok (some (from_gogo m))
  unfolding ParamsApi.unmarshal
  decode_api_params-marshal discard options_size m u e =
      rw (marshal_api_params-same options_size m u e, marshal-encoding m u)
        (unmarshal_of_lem _ (encoding m) new_params (from_gogo m)
          (decode_params-encoding discard m u))
