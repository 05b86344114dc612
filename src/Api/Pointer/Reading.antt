-- ===== src/Api/Pointer/Reading.antt =====
-- A message `Params` that was written last is read back through the pointer.
use mathlib.Core.List.{append-nil}
use pointpay_chain.Prelude.{
  ℕ, suc, ◌+◌, ◌^◌, ◌≤◌, ◌<◌, ◌≡◌, refl, sym, ap, ◌∙◌, true, false, Bool, List, [], ◌++◌, length,
  length-append, Option, none, some, if◌then◌else◌, ok, bit_and, arith,
}
use pointpay_chain.Wire.Error.{Message, runtime_pb}
use pointpay_chain.Wire.Varint.{IsU64}
use pointpay_chain.Wire.Varint.Groups.{varint}
use pointpay_chain.Wire.Message.{
  Switch, Unknown, expect_wire_type, field_number, not_positive, unmarshal_loop,
}
use pointpay_chain.Wire.Message.Fields.{loop_known, loop_end, read_slice_lem}
use pointpay_chain.Wire.Params as ParamsPb
use pointpay_chain.Wire.Params.Encoding.{encoding}
use pointpay_chain.Api.Runtime.{Runtime}
use pointpay_chain.Api.Value.{Params, new_params}
use pointpay_chain.Api.Frame.Writing.{slice_bytes}
use pointpay_chain.Api.Params.Codec.{decode_params-encoding}
use pointpay_chain.Api.Pointer.{Options, allocated, pointer_field}

-- The message of the fast paths with the fields of the module's one.
abbrev pub of_gogo : ParamsPb.Params → Params
of_gogo m = record { max_supply = m.max_supply; unknown_fields = [] }

module _ (rt : Runtime) (options : Options rt) where
  unmarshal-encoding :
      (m : ParamsPb.Params)
      → IsU64 m.max_supply
      → options.unmarshal (encoding m) new_params ≡ ok (of_gogo m)
  unmarshal-encoding m u =
      options.unmarshal_calls (encoding m) new_params
      ∙ rw (either options.merge) (decode_params-encoding rt options.discard_unknown m u)
    where
      either : (b : Bool) → (if b then new_params else new_params) ≡ new_params
      either true = refl
      either false = refl

  module _ {M : Type 0} (msg : Message) (number : ℕ) (get : M → Option Params)
      (set : Params → M → M) where
    -- The payload: a length, and a message that decodes.
    read_pointer_field :
        (l index : ℕ) (s rest : List ℕ) (m : M) (p : Params)
        → index + length (varint (length s)) + length s ≤ l
        → l < 2 ^ 63
        → options.unmarshal s (allocated (get m)) ≡ ok p
        → pointer_field rt options msg number get set 2 l index (varint (length s) ++ (s ++ rest)) m
          ≡ ok (set p m, index + length (varint (length s)) + length s, rest)
    unfolding pointer_field expect_wire_type
    read_pointer_field l index s rest m p fits small sub =
        rw (read_slice_lem runtime_pb l index s rest fits small, sub) refl

    -- The last rounds of the loop: a field that was not set yet, and the end.
    pub read_pointer_last :
        (switch : Switch M) (unknown : Unknown M) (tag fuel l index : ℕ) (p : ParamsPb.Params)
        (m : M)
        → switch (field_number tag) ≡ some (pointer_field rt options msg number get set)
        → tag < 128
        → bit_and tag 0x7 ≡ 2
        → not_positive (field_number tag) ≡ false
        → get m ≡ none
        → IsU64 p.max_supply
        → index + length (slice_bytes tag (encoding p)) ≡ l
        → l < 2 ^ 63
        → unmarshal_loop runtime_pb msg switch unknown
            (suc fuel)
            l
            index
            (slice_bytes tag (encoding p))
            m
          ≡ ok (set (of_gogo p) m)
    read_pointer_last switch unknown tag fuel l index p m known low slice_type positive unset u
          place small =
        let e = encoding p in
        let h = varint (length e) in
        let head = length-append h e in
        loop_known runtime_pb msg switch unknown tag (pointer_field rt options msg number get set)
          fuel l index (h ++ e) m (set (of_gogo p) m) (index + 1 + length h + length e) [] low
          (rw slice_type refl) positive known
          (rw slice_type (
            ap
              (λ (t : List ℕ).
                pointer_field rt options msg number get set 2 l (index + 1) (h ++ t) m)
              (sym (append-nil e))
            ∙ read_pointer_field l (index + 1) e [] m (of_gogo p) (omega (arith, head, place)) small
                (rw unset (unmarshal-encoding p u))))
        ∙ loop_end runtime_pb msg switch unknown fuel l (index + 1 + length h + length e)
            (set (of_gogo p) m) (omega (arith, head, place))
