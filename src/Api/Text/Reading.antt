-- ===== src/Api/Text/Reading.antt =====
-- A string that was written in front is read back.
use mathlib.Core.List.{append_assoc}
use pointpay_chain.Prelude.{
  ℕ, suc, ◌+◌, ◌^◌, ◌≤◌, ◌<◌, ◌≡◌, refl, List, ◌++◌, some, length, length-append, ok, arith,
}
use pointpay_chain.Prelude.Text.{Bytes}
use pointpay_chain.Wire.Error.{Message, runtime_pb}
use pointpay_chain.Wire.Varint.Groups.{varint}
use pointpay_chain.Wire.Message.{Switch, Unknown, expect_wire_type, unmarshal_loop}
use pointpay_chain.Wire.Message.Fields.{loop_known, read_slice_lem}
use pointpay_chain.Api.Frame.Writing.{slice_bytes}
use pointpay_chain.Api.Text.{text_field}

module _ {M : Type 0} (msg : Message) (set : Bytes → M → M) where
  -- The payload: a length and the bytes of the string.
  read_text_field :
      (l index : ℕ) (s rest : List ℕ) (m : M)
      → index + length (varint (length s)) + length s ≤ l
      → l < 2 ^ 63
      → text_field msg set 2 l index (varint (length s) ++ (s ++ rest)) m
        ≡ ok (set s m, index + length (varint (length s)) + length s, rest)
  unfolding text_field expect_wire_type
  read_text_field l index s rest m fits small =
      rw (read_slice_lem runtime_pb l index s rest fits small) refl

  -- One round of the loop reads the field.
  pub read_text :
      (switch : Switch M) (unknown : Unknown M) (fuel l index : ℕ) (s rest : List ℕ) (m : M)
      → switch 1 ≡ some (text_field msg set)
      → index + length (slice_bytes 0xa s ++ rest) ≡ l
      → l < 2 ^ 63
      → unmarshal_loop runtime_pb msg switch unknown
          (suc fuel)
          l
          index
          (slice_bytes 0xa s ++ rest)
          m
        ≡ unmarshal_loop runtime_pb msg switch unknown fuel l
            (index + length (slice_bytes 0xa s))
            rest
            (set s m)
  read_text switch unknown fuel l index s rest m known place small =
      let h = varint (length s) in
      let total = length-append (h ++ s) rest in
      let head = length-append h s in
      let at : index + 1 + length h + length s ≡ index + suc (length (h ++ s)) =
        omega (arith, head) in
      loop_known runtime_pb msg switch unknown 0xa (text_field msg set) fuel l index
        ((h ++ s) ++ rest) m (set s m) (index + suc (length (h ++ s))) rest (omega arith) refl refl
        known
        (rw (← at, append_assoc h s rest)
          (read_text_field l (index + 1) s rest m (omega (arith, total, head, place)) small))
