-- ===== src/Api/Tx/Msg/Codec.antt =====
-- What the fast paths of `MsgUpdateParams` (pointpay/api/pointpay/pnp/tx.pulsar.go) write and read.
use mathlib.Core.List.{append-nil}
use pointpay_chain.Prelude.{
  ℕ, suc, ◌+◌, ◌-◌, ◌^◌, ◌<◌, ◌≡◌, refl, sym, ap, ap₂, ◌∙◌, ◌==◌, true, List, [], ◌∷◌, ◌++◌, length,
  length-append, none, some, ok, ◌>>=◌, returns, arith,
}
use pointpay_chain.Prelude.Text.{Bytes}
use pointpay_chain.Wire.Error.{Pb, runtime_pb, msg_update_params_msg}
use pointpay_chain.Wire.Varint.Groups.{varint}
use pointpay_chain.Wire.Message.{unmarshal_loop}
use pointpay_chain.Wire.Message as Message
use pointpay_chain.Wire.Message.Total.{IsHandler, IsSwitch, unmarshal-returns, each_case, no_case}
use pointpay_chain.Wire.Params.Encoding.{encoding}
use pointpay_chain.Wire.Tx as TxPb
use pointpay_chain.Wire.Tx.Encoding.{
  IsMsg, authority_bytes, msg_bytes, marshal-msg_bytes, length-authority_bytes,
}
use pointpay_chain.Wire.Embedded.Writing.{field_bytes}
use pointpay_chain.Api.Runtime.{Runtime}
use pointpay_chain.Api.Frame.{keep_unknown}
use pointpay_chain.Api.Frame.Writing.{seq-Fills, slice_bytes, marshal_of_lem, size_of_lem}
use pointpay_chain.Api.Frame.Reading.{
  keep_unknown-IsUnknown, unmarshal_of-returns, unmarshal_of_lem,
}
use pointpay_chain.Api.Text.{write_text}
use pointpay_chain.Api.Text.Laws.{write_text-Fills, text_size-length, text_field-IsHandler}
use pointpay_chain.Api.Text.Reading.{read_text}
use pointpay_chain.Api.Pointer.{Options, write_pointer}
use pointpay_chain.Api.Pointer.Laws.{
  IsPointer, pointer_bytes, pointer_size-length, write_pointer-Fills, pointer_field-IsHandler,
}
use pointpay_chain.Api.Pointer.Reading.{of_gogo, read_pointer_last}
use pointpay_chain.Api.Pointer.Gogo.{pointer_bytes-gogo, gogo-IsPointer}
use pointpay_chain.Api.Tx.Msg.{
  MsgUpdateParams, new_message, fields_size, size, write_fields, marshal, authority_field,
  params_case, switch, decode_message, unmarshal,
}

-- What the message is on the wire: its fields in order, and its unknown fields.
abbrev pub fields_bytes : MsgUpdateParams → List ℕ
fields_bytes x = authority_bytes x.authority ++ pointer_bytes 0x12 x.params

-- A message that Go can hold.
abbrev pub IsMessage : MsgUpdateParams → Type 0
IsMessage x = IsPointer x.params × (length (fields_bytes x ++ x.unknown_fields) < 2 ^ 63)

-- The message with the fields of the module's one.
abbrev pub from_gogo : TxPb.MsgUpdateParams → MsgUpdateParams
from_gogo m = record {
  authority = m.authority;
  params = some (of_gogo m.params);
  unknown_fields = [];
}

gogo_bytes : (m : TxPb.MsgUpdateParams) → fields_bytes (from_gogo m) ≡ msg_bytes m
gogo_bytes m =
    ap (λ (t : List ℕ). authority_bytes m.authority ++ t) (pointer_bytes-gogo 0x12 m.params)

gogo_fits : (m : TxPb.MsgUpdateParams) → IsMsg m → IsMessage (from_gogo m)
gogo_fits m (u, h) = (
  gogo-IsPointer m.params u,
  omega (arith, h, ap length (append-nil (fields_bytes (from_gogo m))), ap length (gogo_bytes m)),
)

module _ (rt : Runtime) (options : Options rt) where
  authority_fits : (x : MsgUpdateParams) → IsMessage x → length x.authority < 2 ^ 64
  authority_fits x (_, h) = omega (
    arith,
    h,
    length-append (fields_bytes x) x.unknown_fields,
    length-append (authority_bytes x.authority) (pointer_bytes 0x12 x.params),
    length-authority_bytes x.authority,
  )

  -- `size` is the number of bytes that `marshal` writes for the message.
  size-bytes :
      (x : MsgUpdateParams)
      → IsMessage x
      → size rt options (some x) ≡ length (fields_bytes x ++ x.unknown_fields)
  unfolding size fields_size
  size-bytes x h =
      size_of_lem (fields_size rt options) (λ m. m.unknown_fields) x (fields_bytes x)
        (ap₂ (λ (a b : ℕ). a + b) (text_size-length rt x.authority (authority_fits x h))
            (pointer_size-length rt options 0x12 x.params h.0)
          ∙ sym (length-append (authority_bytes x.authority) (pointer_bytes 0x12 x.params)))

  -- `marshal` appends the authority, the parameters and then the unknown fields to the buffer, for
  -- every message that Go can hold, if the options give its size.
  pub marshal_msg_lem :
      (options_size : MsgUpdateParams → ℕ) (buf : List ℕ) (x : MsgUpdateParams)
      → IsMessage x
      → options_size x ≡ size rt options (some x)
      → marshal rt options options_size buf (some x)
        ≡ ok (buf ++ (fields_bytes x ++ x.unknown_fields))
  unfolding marshal write_fields
  marshal_msg_lem options_size buf x h e =
      marshal_of_lem (write_fields rt options) (λ m. m.unknown_fields) options_size buf x
        (fields_bytes x)
        (seq-Fills (write_pointer rt options 0x12 x.params) (write_text rt x.authority)
          (pointer_bytes 0x12 x.params) (authority_bytes x.authority)
          (write_pointer-Fills rt options 0x12 x.params h.0)
          (write_text-Fills rt x.authority (authority_fits x h)))
        (e ∙ size-bytes x h)

  -- The codec of the module writes the same bytes: a message of this one that has its parameters and
  -- no unknown fields is marshalled as the message of pointpay/x/pnp/types/tx.pb.go with the same fields.
  pub marshal_msg-same :
      (options_size : MsgUpdateParams → ℕ) (m : TxPb.MsgUpdateParams)
      → IsMsg m
      → options_size (from_gogo m) ≡ size rt options (some (from_gogo m))
      → marshal rt options options_size [] (some (from_gogo m)) ≡ TxPb.marshal m
  marshal_msg-same options_size m h e =
      marshal_msg_lem options_size [] (from_gogo m) (gogo_fits m h) e
      ∙ ap ok (append-nil (fields_bytes (from_gogo m)) ∙ gogo_bytes m)
      ∙ sym (marshal-msg_bytes m h)

  switch-IsSwitch : IsSwitch (switch rt options)
  unfolding switch authority_field params_case
  switch-IsSwitch number =
      each_case IsHandler (number == 1) _ _ (text_field-IsHandler msg_update_params_msg _) (
        each_case IsHandler (number == 2) _ none
          (pointer_field-IsHandler rt options msg_update_params_msg 2 _ _) (no_case IsHandler))

  -- `unmarshal` ends with a message or an error on every slice of less than 2 ^ 63 bytes: it never
  -- panics, and its loop never runs out of fuel.
  pub decode_msg-returns :
      (dAtA : List ℕ) (x : MsgUpdateParams)
      → length dAtA < 2 ^ 63
      → returns (unmarshal rt options dAtA (some x)) ≡ true
  unfolding unmarshal decode_message
  decode_msg-returns dAtA x small = unmarshal_of-returns _ dAtA x (
      unmarshal-returns runtime_pb msg_update_params_msg _ _ switch-IsSwitch
        (keep_unknown-IsUnknown rt _ options.discard_unknown) dAtA x small)

  -- The loop of the decoder.
  abbrev loop : ℕ → ℕ → ℕ → List ℕ → MsgUpdateParams → Pb MsgUpdateParams
  loop = unmarshal_loop runtime_pb msg_update_params_msg (switch rt options) (
      keep_unknown rt.skip (λ m raw. record m { unknown_fields = m.unknown_fields ++ raw })
        options.discard_unknown)

  -- The parameters, behind the authority or alone.
  read_second :
      (fuel l index : ℕ) (m : TxPb.MsgUpdateParams)
      → IsMsg m
      → index + length (field_bytes 0x12 m.params) ≡ l
      → l < 2 ^ 63
      → loop
          (suc fuel)
          l
          index
          (field_bytes 0x12 m.params)
          (record new_message { authority = m.authority })
        ≡ ok (from_gogo m)
  unfolding switch params_case field_bytes
  read_second fuel l index m (u, _) place small =
      read_pointer_last rt options msg_update_params_msg 2 (λ m. m.params)
        (λ p m. record m { params = some p }) _ _ 0x12 fuel l index m.params
        (record new_message { authority = m.authority }) refl (omega arith) refl refl refl u place
        small

  -- The authority, in front of the parameters.
  read_first :
      (fuel l : ℕ) (s rest : List ℕ)
      → length (slice_bytes 0xa s ++ rest) ≡ l
      → l < 2 ^ 63
      → loop (suc fuel) l 0 (slice_bytes 0xa s ++ rest) new_message
        ≡ loop fuel l (0 + length (slice_bytes 0xa s)) rest (record new_message { authority = s })
  unfolding switch authority_field
  read_first fuel l s rest place small =
      read_text msg_update_params_msg (λ s m. record m { authority = s }) _ _ fuel l 0 s rest
        new_message refl (omega (arith, place)) small

  read_both :
      (m : TxPb.MsgUpdateParams) (s : List ℕ)
      → IsMsg m
      → m.authority ≡ s
      → length (authority_bytes s ++ field_bytes 0x12 m.params) < 2 ^ 63
      → decode_message rt options (authority_bytes s ++ field_bytes 0x12 m.params) new_message
        ≡ ok (from_gogo m)
  unfolding decode_message Message.unmarshal authority_bytes field_bytes
  read_both m [] h e fits =
      let n = length (varint (length (encoding m.params)) ++ encoding m.params) in
      ap
        (λ (t : Bytes).
          loop (suc n) (suc n) 0 (field_bytes 0x12 m.params) (record new_message { authority = t }))
        (sym e)
      ∙ read_second n (suc n) 0 m h (omega arith) fits
  read_both m (c ∷ cs) h e fits =
      let fb = field_bytes 0x12 m.params in
      let v = varint (length (c ∷ cs)) in
      let k = length ((v ++ (c ∷ cs)) ++ fb) in
      let total = length-append (v ++ (c ∷ cs)) fb in
      let start = 0 + length (slice_bytes 0xa (c ∷ cs)) in
      let more : k ≡ suc (k - 1) = omega (arith, total, length-append v (c ∷ cs)) in
      read_first k (suc k) (c ∷ cs) fb refl fits
      ∙ ap₂ (λ (f : ℕ) (t : Bytes). loop f (suc k) start fb (record new_message { authority = t }))
          more (sym e)
      ∙ read_second (k - 1) (suc k) start m h (omega (arith, total)) fits

  -- `unmarshal` into a new message reads back what `marshal` wrote, for a message with parameters and
  -- without unknown fields, with an empty authority too.
  pub decode_msg-marshal :
      (options_size : MsgUpdateParams → ℕ) (m : TxPb.MsgUpdateParams)
      → IsMsg m
      → options_size (from_gogo m) ≡ size rt options (some (from_gogo m))
      → (marshal rt options options_size [] (some (from_gogo m)) >>= λ bz.
          unmarshal rt options bz (some new_message))
        ≡ ok (some (from_gogo m))
  unfolding unmarshal
  decode_msg-marshal options_size m h e =
      rw (marshal_msg-same options_size m h e, marshal-msg_bytes m h)
        (unmarshal_of_lem _ (msg_bytes m) new_message (from_gogo m)
          (read_both m m.authority h refl h.1))
