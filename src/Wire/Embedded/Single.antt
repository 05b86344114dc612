-- ===== src/Wire/Embedded/Single.antt =====
-- A message whose only field is number 1 of type `Params`: `GenesisState` and `QueryParamsResponse`.
use mathlib.Core.List.{append-nil}
use pointpay_chain.Prelude.{
  ℕ, suc, ◌+◌, ◌-◌, ◌≡◌, refl, sym, ap, ◌∙◌, List, [], ◌++◌, some, length, length-append, ok, ◌>>=◌,
  arith,
}
use pointpay_chain.Wire.Error.{PbFile, Message, Pb}
use pointpay_chain.Wire.Varint.{sov}
use pointpay_chain.Wire.Varint.Groups.{varint, sov-varint, length-groups}
use pointpay_chain.Wire.Message.{Switch, Unknown, unmarshal}
use pointpay_chain.Wire.Message.Fields.{loop_known, loop_end}
use pointpay_chain.Wire.Buffer.{Writes, marshal_sized, marshal_sized-Writes}
use pointpay_chain.Wire.Params.{Params, no_params, size}
use pointpay_chain.Wire.Params.Encoding.{IsValid, encoding, size-encoding, length-encoding}
use pointpay_chain.Wire.Params.Decoding.{unmarshal_fresh}
use pointpay_chain.Wire.Embedded.{write_params_field, params_field}
use pointpay_chain.Wire.Embedded.Writing.{field_bytes, write_params_field_end}
use pointpay_chain.Wire.Embedded.Reading.{read_params_field}

-- The body of such a `MarshalToSizedBuffer`.
abbrev single_buffer : Params → List ℕ → Pb (List ℕ × ℕ)
single_buffer p dAtA = do
  (dAtA', i) ← write_params_field p 0xa dAtA (length dAtA)
  ok (dAtA', length dAtA - i)

single_buffer-Writes : (p : Params) → IsValid p → Writes (single_buffer p) (field_bytes 0xa p)
single_buffer-Writes p u front hole e =
    rw (write_params_field_end p 0xa front hole u e)
      (ap (λ (t : ℕ). ok (front ++ field_bytes 0xa p, t)) count)
  where
    count : length (front ++ hole) - length front ≡ length (field_bytes 0xa p)
    count = omega (arith, length-append front hole)

single_size : (p : Params) → IsValid p → 1 + size p + sov (size p) ≡ length (field_bytes 0xa p)
unfolding field_bytes
single_size p u = omega (
  arith,
  size-encoding p u,
  ap sov (size-encoding p u),
  sov-varint (length (encoding p)) (omega (arith, length-encoding p)),
  length-append (varint (length (encoding p))) (encoding p),
)

pub marshal_single :
    (p : Params)
    → IsValid p
    → marshal_sized (single_buffer p) (1 + size p + sov (size p)) ≡ ok (field_bytes 0xa p)
marshal_single p u =
    marshal_sized-Writes (single_buffer p) (field_bytes 0xa p) (1 + size p + sov (size p))
      (single_buffer-Writes p u) (single_size p u)

module _ {M : Type 0} (file : PbFile) (msg : Message) (get : M → Params) (set : M → Params → M)
    (switch : Switch M) (unknown : Unknown M)
    (known : switch 1 ≡ some (params_field file msg 1 get set)) where
  pub unmarshal_single :
      (p : Params) (m : M)
      → IsValid p
      → get m ≡ no_params
      → unmarshal file msg switch unknown (field_bytes 0xa p) m ≡ ok (set m p)
  unfolding unmarshal field_bytes
  unmarshal_single p m u fresh =
      let e = encoding p in
      let h = varint (length e) in
      let n = length (h ++ e) in
      let total : n ≡ length h + length e = length-append h e in
      let short = length-encoding p in
      let short' = length-groups 9 (length e) in
      loop_known file msg switch unknown 0xa (params_field file msg 1 get set) n (suc n) 0 (h ++ e)
        m (set m p) (0 + 1 + length h + length e) [] (omega arith) refl refl known
        (ap (λ (t : List ℕ). params_field file msg 1 get set 2 (suc n) (0 + 1) (h ++ t) m)
            (sym (append-nil e))
          ∙ read_params_field file msg 1 get set (suc n) (0 + 1) e [] m p (omega arith)
              (omega arith) (rw fresh (unmarshal_fresh p u)))
      ∙ loop_end file msg switch unknown n (suc n) (0 + 1 + length h + length e) (set m p)
          (omega arith)
