-- ===== src/Wire/Embedded/Writing.antt =====
-- What the embedded field looks like in the buffer.
use mathlib.Core.List.{append_assoc, append-nil}
use pointpay_chain.Prelude.{
  ℕ, suc, ◌+◌, ◌≡◌, sym, ap, ap₂, ◌∙◌, List, [], ◌∷◌, ◌++◌, length, length-append, ok, arith,
}
use pointpay_chain.Wire.Varint.Groups.{varint}
use pointpay_chain.Wire.Varint.{encode_varint}
use pointpay_chain.Wire.Buffer.{
  encode_varint-Encodes, fill_hole, marshal_before_lem, write_varint_field, write_varint_field_hole,
}
use pointpay_chain.Wire.Params.{Params, marshal_to_sized_buffer}
use pointpay_chain.Wire.Params.Encoding.{
  IsValid, encoding, length-encoding, marshal_to_sized_buffer-Writes,
}
use pointpay_chain.Wire.Embedded.{write_params_field}

-- The tag, the length and the message.
unfoldable pub field_bytes : ℕ → Params → List ℕ
field_bytes tag params = tag ∷ (varint (length (encoding params)) ++ encoding params)

write_split :
    (params : Params) (tag : ℕ) (front left right back : List ℕ)
    → IsValid params
    → length left ≡ suc (length (varint (length (encoding params))))
    → length right ≡ length (encoding params)
    → write_params_field params tag
        ((front ++ left) ++ (right ++ back))
        (length (front ++ left) + length right)
      ≡ ok (
        front ++ (tag ∷ (varint (length (encoding params)) ++ (encoding params ++ back))),
        length front,
      )
unfolding write_params_field
write_split params tag front left right back u el er =
    rw
      (marshal_before_lem (marshal_to_sized_buffer params) (encoding params) (front ++ left) right
        back (marshal_to_sized_buffer-Writes params u) er)
      (ap₂
          (λ (d : List ℕ) (t : ℕ).
            write_varint_field encode_varint d t (length (encoding params)) tag)
          (append_assoc front left (encoding params ++ back)) (length-append front left)
        ∙ write_varint_field_hole encode_varint (length (encoding params)) tag front left
            (encoding params ++ back) encode_varint-Encodes (omega (arith, length-encoding params))
            el)

-- The field goes into a hole of its size.
pub write_params_field_lem :
    (params : Params) (tag : ℕ) (front hole back : List ℕ)
    → IsValid params
    → length hole ≡ length (field_bytes tag params)
    → write_params_field params tag (front ++ (hole ++ back)) (length front + length hole)
      ≡ ok (front ++ (field_bytes tag params ++ back), length front)
unfolding field_bytes
write_params_field_lem params tag front hole back u e =
    fill_hole (write_params_field params tag) _ front hole back
      (suc (length (varint (length (encoding params))))) (length (encoding params))
      (omega (arith, e, length-append (varint (length (encoding params))) (encoding params)))
      (λ left right el er. write_split params tag front left right back u el er)
    ∙ ap (λ (t : List ℕ). ok (front ++ (tag ∷ t), length front))
        (sym (append_assoc (varint (length (encoding params))) (encoding params) back))

-- At the end of the buffer.
pub write_params_field_end :
    (params : Params) (tag : ℕ) (front hole : List ℕ)
    → IsValid params
    → length hole ≡ length (field_bytes tag params)
    → write_params_field params tag (front ++ hole) (length (front ++ hole))
      ≡ ok (front ++ field_bytes tag params, length front)
write_params_field_end params tag front hole u e =
    ap₂ (λ (d : List ℕ) (t : ℕ). write_params_field params tag d t)
      (ap (λ (t : List ℕ). front ++ t) (sym (append-nil hole))) (length-append front hole)
    ∙ write_params_field_lem params tag front hole [] u e
    ∙ ap (λ (t : List ℕ). ok (front ++ t, length front)) (append-nil (field_bytes tag params))
