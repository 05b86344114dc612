-- ===== src/Api/Pointer/Laws.antt =====
-- What the field of type `*Params` writes and reads, and first what a message `Params` does.
use pointpay_chain.Prelude.{
  ℕ, ◌^◌, ◌<◌, ◌≡◌, refl, ◌∙◌, ◌==◌, not, true, List, [], length, length-append, Option, none, some,
  ok, on_ok, passed, returns, returns->>=, returns-fail_if, arith,
}
use pointpay_chain.Wire.Error.{Message, runtime_pb, wrong_wire_type}
use pointpay_chain.Wire.Varint.Groups.{varint}
use pointpay_chain.Wire.Message.{expect_wire_type, read_slice}
use pointpay_chain.Wire.Message.Total.{IsHandler}
use pointpay_chain.Wire.Message.Fields.{read_slice-returns, read_slice_stays}
use pointpay_chain.Api.Runtime.{Runtime}
use pointpay_chain.Api.Value.{Params}
use pointpay_chain.Api.Frame.Writing.{Fills, nothing-Fills, slice_bytes, write_slice-Fills}
use pointpay_chain.Api.Params.Codec.{
  IsValid, bytes_of, size-bytes_of, marshal-bytes_of, decode_params-returns,
}
use pointpay_chain.Api.Pointer.{Options, pointer_size, write_pointer, allocated, pointer_field}

-- The bytes of the field: a tag, a length and the whole message, or nothing for a nil pointer.
unfoldable pub pointer_bytes : ℕ → Option Params → List ℕ
pointer_bytes tag none = []
pointer_bytes tag (some p) = slice_bytes tag (bytes_of p)

-- A pointer to a message that Go can hold.
abbrev pub IsPointer : Option Params → Type 0
IsPointer none = Unit
IsPointer (some p) = IsValid p

module _ (rt : Runtime) (options : Options rt) where
  size_lem : (p : Params) → IsValid p → options.size p ≡ length (bytes_of p)
  size_lem p u = options.size_calls p ∙ size-bytes_of rt p u

  marshal_lem : (p : Params) → IsValid p → options.marshal p ≡ ok (bytes_of p)
  marshal_lem p u = options.marshal_calls p ∙ marshal-bytes_of rt options.size [] p u (size_lem p u)

  pub pointer_size-length :
      (tag : ℕ) (x : Option Params)
      → IsPointer x
      → pointer_size rt options x ≡ length (pointer_bytes tag x)
  unfolding pointer_size pointer_bytes
  pointer_size-length tag none u = refl
  pointer_size-length tag (some p) u = rw (size_lem p u) (
      omega (
        arith,
        rt.sov_bytes (length (bytes_of p)) (omega (arith, u.1)),
        length-append (varint (length (bytes_of p))) (bytes_of p),
      ))

  pub write_pointer-Fills :
      (tag : ℕ) (x : Option Params)
      → IsPointer x
      → Fills (write_pointer rt options tag x) (pointer_bytes tag x)
  unfolding write_pointer pointer_bytes
  write_pointer-Fills tag none u = nothing-Fills
  write_pointer-Fills tag (some p) u =
      rw (marshal_lem p u)
        (write_slice-Fills rt.encode_varint (bytes_of p) tag rt.encodes (omega (arith, u.1)))

  unmarshal-returns :
      (bytes : List ℕ) (p : Params)
      → length bytes < 2 ^ 63
      → returns (options.unmarshal bytes p) ≡ true
  unmarshal-returns bytes p small =
      rw (options.unmarshal_calls bytes p)
        (decode_params-returns rt options.discard_unknown bytes _ small)

  module _ {M : Type 0} (msg : Message) (number : ℕ) (get : M → Option Params)
      (set : Params → M → M) where
    pub pointer_field-IsHandler : IsHandler (pointer_field rt options msg number get set)
    unfolding pointer_field expect_wire_type
    pointer_field-IsHandler = record {
      ends = λ wt l index bytes m place small.
          returns-fail_if (not (wt == 2)) (wrong_wire_type msg number wt) _ (
            returns->>= (read_slice runtime_pb l index bytes) _
              (read_slice-returns runtime_pb l index bytes place small)
              λ (slice, index', rest) read.
                let (_, _, short) =
                  read_slice_stays runtime_pb l index bytes slice index' rest place small read in
                returns->>= (options.unmarshal slice (allocated (get m))) _
                  (unmarshal-returns slice (allocated (get m)) (omega (arith, short, small)))
                  (λ p e. refl));
      stays = λ wt l index bytes m m' index' rest place small e.
          let (_, e1) = passed (not (wt == 2)) (wrong_wire_type msg number wt) _ e in
          on_ok (read_slice runtime_pb l index bytes) _ e1 λ (slice, j, r) read e2.
            on_ok (options.unmarshal slice (allocated (get m))) _ e2 λ p sub done.
              let (ahead, there, _) =
                read_slice_stays runtime_pb l index bytes slice j r place small read in
              ground (arith, ahead, there, done);
    }
