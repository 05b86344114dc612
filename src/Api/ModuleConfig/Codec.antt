-- ===== src/Api/ModuleConfig/Codec.antt =====
-- What the fast paths of `Module` (pointpay/api/pointpay/pnp/module/module.pulsar.go) write and read.
use mathlib.Core.List.{append-nil}
use pointpay_chain.Prelude.{
  ℕ, suc, ◌+◌, ◌^◌, ◌<◌, ◌≡◌, refl, sym, ap, ◌∙◌, ◌==◌, true, Bool, List, [], ◌∷◌, ◌++◌, length,
  length-append, none, some, ok, ◌>>=◌, returns, arith,
}
use pointpay_chain.Wire.Error.{runtime_pb, module_msg}
use pointpay_chain.Wire.Varint.Groups.{varint}
use pointpay_chain.Wire.Message.{unmarshal_loop}
use pointpay_chain.Wire.Message as Message
use pointpay_chain.Wire.Message.Total.{IsHandler, IsSwitch, unmarshal-returns, each_case, no_case}
use pointpay_chain.Wire.Message.Fields.{loop_end}
use pointpay_chain.Wire.Tx.Encoding.{authority_bytes, length-authority_bytes}
use pointpay_chain.Api.Runtime.{Runtime}
use pointpay_chain.Api.Frame.{keep_unknown}
use pointpay_chain.Api.Frame.Writing.{slice_bytes, marshal_of_lem, size_of_lem}
use pointpay_chain.Api.Frame.Reading.{
  keep_unknown-IsUnknown, unmarshal_of-returns, unmarshal_of_lem,
}
use pointpay_chain.Api.Text.Laws.{write_text-Fills, text_size-length, text_field-IsHandler}
use pointpay_chain.Api.Text.Reading.{read_text}
use pointpay_chain.Api.ModuleConfig.{
  Module, new_message, fields_size, size, write_fields, marshal, authority_field, switch,
  decode_message, unmarshal,
}

-- A message that Go can hold.
abbrev pub IsMessage : Module → Type 0
IsMessage x = length (authority_bytes x.authority ++ x.unknown_fields) < 2 ^ 63

module _ (rt : Runtime) where
  -- `marshal` appends the authority and then the unknown fields to the buffer, for every message that
  -- Go can hold, if the options give its size.
  pub marshal_config_lem :
      (options_size : Module → ℕ) (buf : List ℕ) (x : Module)
      → IsMessage x
      → options_size x ≡ size rt (some x)
      → marshal rt options_size buf (some x)
        ≡ ok (buf ++ (authority_bytes x.authority ++ x.unknown_fields))
  unfolding marshal write_fields size fields_size
  marshal_config_lem options_size buf x h e =
      let fits : length x.authority < 2 ^ 64 = omega (
        arith,
        h,
        length-append (authority_bytes x.authority) x.unknown_fields,
        length-authority_bytes x.authority,
      ) in
      marshal_of_lem (write_fields rt) (λ m. m.unknown_fields) options_size buf x
        (authority_bytes x.authority) (write_text-Fills rt x.authority fits)
        (e
          ∙ size_of_lem (fields_size rt) (λ m. m.unknown_fields) x (authority_bytes x.authority)
              (text_size-length rt x.authority fits))

  switch-IsSwitch : IsSwitch (switch rt)
  unfolding switch authority_field
  switch-IsSwitch number =
      each_case IsHandler (number == 1) _ none (text_field-IsHandler module_msg _)
        (no_case IsHandler)

  -- `unmarshal` ends with a message or an error on every slice of less than 2 ^ 63 bytes: it never
  -- panics, and its loop never runs out of fuel.
  pub decode_config-returns :
      (discard : Bool) (dAtA : List ℕ) (x : Module)
      → length dAtA < 2 ^ 63
      → returns (unmarshal rt discard dAtA (some x)) ≡ true
  unfolding unmarshal decode_message
  decode_config-returns discard dAtA x small = unmarshal_of-returns _ dAtA x (
      unmarshal-returns runtime_pb module_msg _ _ switch-IsSwitch
        (keep_unknown-IsUnknown rt _ discard) dAtA x small)

  read_only :
      (discard : Bool) (s : List ℕ)
      → length (authority_bytes s) < 2 ^ 63
      → decode_message rt discard (authority_bytes s) new_message
        ≡ ok (record new_message { authority = s })
  unfolding decode_message Message.unmarshal switch authority_field authority_bytes
  read_only discard [] small = loop_end runtime_pb module_msg _ _ 0 0 0 new_message refl
  read_only discard (c ∷ cs) small =
      let k = length (varint (length (c ∷ cs)) ++ (c ∷ cs)) in
      let m = record new_message { authority = c ∷ cs } in
      ap
        (λ (t : List ℕ).
          unmarshal_loop runtime_pb module_msg (switch rt)
            (keep_unknown rt.skip (λ m raw. record m { unknown_fields = m.unknown_fields ++ raw })
              discard)
            (suc k) (suc k) 0 t new_message)
        (sym (append-nil (slice_bytes 0xa (c ∷ cs))))
      ∙ read_text module_msg (λ s m. record m { authority = s }) _ _ k (suc k) 0 (c ∷ cs) []
          new_message refl (omega (arith, ap length (append-nil (slice_bytes 0xa (c ∷ cs))))) small
      ∙ loop_end runtime_pb module_msg _ _ k (suc k) (0 + suc k) m (omega arith)

  -- `unmarshal` into a new message reads back what `marshal` wrote, for a message without unknown
  -- fields, with an empty authority too.
  pub decode_config-marshal :
      (discard : Bool) (options_size : Module → ℕ) (s : List ℕ)
      → length (authority_bytes s) < 2 ^ 63
      → options_size (record new_message { authority = s })
        ≡ size rt (some (record new_message { authority = s }))
      → (marshal rt options_size [] (some (record new_message { authority = s })) >>= λ bz.
          unmarshal rt discard bz (some new_message))
        ≡ ok (some (record new_message { authority = s }))
  unfolding unmarshal
  decode_config-marshal discard options_size s fits e =
      let m = record new_message { authority = s } in
      let short : IsMessage m = rw (append-nil (authority_bytes s)) fits in
      rw (marshal_config_lem options_size [] m short e, append-nil (authority_bytes s))
        (unmarshal_of_lem _ (authority_bytes s) new_message m (read_only discard s fits))
