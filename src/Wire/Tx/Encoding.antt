-- ===== src/Wire/Tx/Encoding.antt =====
-- What `MsgUpdateParams.Marshal` writes.
use mathlib.Core.List.{append-nil, append_assoc}
use native.Mathlib.Nat.{add-zero}
use pointpay_chain.Prelude.{
  ℕ, suc, ◌+◌, ◌-◌, ◌^◌, ◌≤◌, ◌<◌, ◌≡◌, refl, sym, ap, ap₂, ◌∙◌, List, [], ◌∷◌, ◌++◌, ltb, lt→ltb,
  if◌then◌else◌, length, length-append, ok, arith,
}
use pointpay_chain.Wire.Varint.{IsU64, sov, encode_varint}
use pointpay_chain.Wire.Varint.Groups.{varint, sov-varint}
use pointpay_chain.Wire.Buffer.{
  Writes, encode_varint-Encodes, fill_hole, marshal_sized-Writes, copy_before_lem,
  write_varint_field, write_varint_field_hole,
}
use pointpay_chain.Wire.Params.Encoding.{IsValid, encoding, size-encoding, length-encoding}
use pointpay_chain.Wire.Embedded.Writing.{field_bytes, write_params_field_lem}
use pointpay_chain.Wire.Tx.{
  MsgUpdateParams, write_authority, write_fields, marshal_to_sized_buffer, size, marshal,
}

-- An empty string is left out.
unfoldable pub authority_bytes : List ℕ → List ℕ
authority_bytes [] = []
authority_bytes (c ∷ cs) = 0xa ∷ (varint (length (c ∷ cs)) ++ (c ∷ cs))

abbrev pub msg_bytes : MsgUpdateParams → List ℕ
msg_bytes m = authority_bytes m.authority ++ field_bytes 0x12 m.params

-- A message that Go can hold: `MaxSupply` is a uint64, and the whole encoding fits an `int`.
abbrev pub IsMsg : MsgUpdateParams → Type 0
IsMsg m = IsValid m.params × (length (msg_bytes m) < 2 ^ 63)

write_authority_split :
    (c : ℕ) (cs front left right back : List ℕ)
    → IsU64 (length (c ∷ cs))
    → length left ≡ suc (length (varint (length (c ∷ cs))))
    → length right ≡ length (c ∷ cs)
    → write_authority
        (c ∷ cs)
        ((front ++ left) ++ (right ++ back))
        (length (front ++ left) + length right)
      ≡ ok (front ++ (0xa ∷ (varint (length (c ∷ cs)) ++ ((c ∷ cs) ++ back))), length front)
unfolding write_authority
write_authority_split c cs front left right back u el er =
    rw
      (
        lt→ltb 0 (length (c ∷ cs)) (omega arith),
        copy_before_lem (front ++ left) right back (c ∷ cs) er,
      )
      (ap₂ (λ (d : List ℕ) (t : ℕ). write_varint_field encode_varint d t (suc (length cs)) 0xa)
          (append_assoc front left ((c ∷ cs) ++ back)) (length-append front left)
        ∙ write_varint_field_hole encode_varint (length (c ∷ cs)) 0xa front left ((c ∷ cs) ++ back)
            encode_varint-Encodes u el)

write_authority_lem :
    (authority front hole back : List ℕ)
    → IsU64 (length authority)
    → length hole ≡ length (authority_bytes authority)
    → write_authority authority (front ++ (hole ++ back)) (length front + length hole)
      ≡ ok (front ++ (authority_bytes authority ++ back), length front)
unfolding authority_bytes
write_authority_lem [] front [] back u e =
    unfold write_authority in ap (λ (t : ℕ). ok (front ++ back, t)) (add-zero (length front))
write_authority_lem [] front (y ∷ hole) back u e = absurd (omega arith)
write_authority_lem (c ∷ cs) front hole back u e =
    fill_hole (write_authority (c ∷ cs)) _ front hole back (suc (length (varint (length (c ∷ cs)))))
      (length (c ∷ cs)) (omega (arith, e, length-append (varint (length (c ∷ cs))) (c ∷ cs)))
      (λ left right el er. write_authority_split c cs front left right back u el er)
    ∙ ap (λ (t : List ℕ). ok (front ++ (0xa ∷ t), length front))
        (sym (append_assoc (varint (length (c ∷ cs))) (c ∷ cs) back))

pub length-authority_bytes : (s : List ℕ) → length s ≤ length (authority_bytes s)
unfolding authority_bytes
length-authority_bytes [] = omega arith
length-authority_bytes (c ∷ cs) = omega (arith, length-append (varint (length (c ∷ cs))) (c ∷ cs))

pub length-authority-le : (m : MsgUpdateParams) → length m.authority ≤ length (msg_bytes m)
length-authority-le m = omega (
  arith,
  length-authority_bytes m.authority,
  length-append (authority_bytes m.authority) (field_bytes 0x12 m.params),
)

write_fields_split :
    (m : MsgUpdateParams) (front left right : List ℕ)
    → IsMsg m
    → length left ≡ length (authority_bytes m.authority)
    → length right ≡ length (field_bytes 0x12 m.params)
    → write_fields m ((front ++ left) ++ (right ++ [])) (length (front ++ left) + length right)
      ≡ ok (
        front ++ (authority_bytes m.authority ++ (field_bytes 0x12 m.params ++ [])),
        length front,
      )
unfolding write_fields
write_fields_split m front left right (u, fits) el er =
    rw (write_params_field_lem m.params 0x12 (front ++ left) right [] u er) (
      ap₂ (λ (d : List ℕ) (t : ℕ). write_authority m.authority d t)
        (append_assoc front left (field_bytes 0x12 m.params ++ [])) (length-append front left)
      ∙ write_authority_lem m.authority front left (field_bytes 0x12 m.params ++ [])
          (omega (arith, length-authority-le m)) el)

write_fields_end :
    (m : MsgUpdateParams) (front hole : List ℕ)
    → IsMsg m
    → length hole ≡ length (msg_bytes m)
    → write_fields m (front ++ hole) (length (front ++ hole))
      ≡ ok (front ++ msg_bytes m, length front)
write_fields_end m front hole h e =
    ap₂ (λ (d : List ℕ) (t : ℕ). write_fields m d t)
      (ap (λ (t : List ℕ). front ++ t) (sym (append-nil hole))) (length-append front hole)
    ∙ fill_hole (write_fields m) _ front hole [] (length (authority_bytes m.authority))
        (length (field_bytes 0x12 m.params))
        (omega (arith, e, length-append (authority_bytes m.authority) (field_bytes 0x12 m.params)))
        (λ left right el er. write_fields_split m front left right h el er)
    ∙ ap (λ (t : List ℕ). ok (front ++ (authority_bytes m.authority ++ t), length front))
        (append-nil (field_bytes 0x12 m.params))

marshal_to_sized_buffer-Writes :
    (m : MsgUpdateParams) → IsMsg m → Writes (marshal_to_sized_buffer m) (msg_bytes m)
unfolding marshal_to_sized_buffer
marshal_to_sized_buffer-Writes m h front hole e =
    rw (write_fields_end m front hole h e) (ap (λ (t : ℕ). ok (front ++ msg_bytes m, t)) count)
  where
    count : length (front ++ hole) - length front ≡ length (msg_bytes m)
    count = omega (arith, length-append front hole)

size_authority :
    (s : List ℕ)
    → IsU64 (length s)
    → (if ltb 0 (length s) then 1 + length s + sov (length s) else 0) ≡ length (authority_bytes s)
unfolding authority_bytes
size_authority [] u = refl
size_authority (c ∷ cs) u = rw (lt→ltb 0 (length (c ∷ cs)) (omega arith)) (
    omega
      (arith, sov-varint (length (c ∷ cs)) u, length-append (varint (length (c ∷ cs))) (c ∷ cs)))

size-msg_bytes : (m : MsgUpdateParams) → IsMsg m → size m ≡ length (msg_bytes m)
unfolding size field_bytes
size-msg_bytes m (u, fits) = omega (
  arith,
  size_authority m.authority (omega (arith, length-authority-le m)),
  size-encoding m.params u,
  ap sov (size-encoding m.params u),
  sov-varint (length (encoding m.params)) (omega (arith, length-encoding m.params)),
  length-append (varint (length (encoding m.params))) (encoding m.params),
  length-append (authority_bytes m.authority) (field_bytes 0x12 m.params),
)

-- `Marshal` returns the authority, if it is not empty, and the parameters.
pub marshal-msg_bytes : (m : MsgUpdateParams) → IsMsg m → marshal m ≡ ok (msg_bytes m)
unfolding marshal
marshal-msg_bytes m h =
    marshal_sized-Writes (marshal_to_sized_buffer m) (msg_bytes m) (size m)
      (marshal_to_sized_buffer-Writes m h) (size-msg_bytes m h)
