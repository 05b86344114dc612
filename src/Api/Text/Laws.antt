-- ===== src/Api/Text/Laws.antt =====
-- What the string field writes and reads.
use pointpay_chain.Prelude.{
  suc, ◌≡◌, refl, ◌==◌, not, [], ◌∷◌, length, length-append, lt→ltb, on_ok, passed, returns->>=,
  returns-fail_if, arith,
}
use pointpay_chain.Prelude.Text.{Bytes}
use pointpay_chain.Wire.Error.{Message, runtime_pb, wrong_wire_type}
use pointpay_chain.Wire.Varint.{IsU64}
use pointpay_chain.Wire.Varint.Groups.{varint}
use pointpay_chain.Wire.Message.{expect_wire_type, read_slice}
use pointpay_chain.Wire.Message.Total.{IsHandler}
use pointpay_chain.Wire.Message.Fields.{read_slice-returns, read_slice_stays}
use pointpay_chain.Wire.Tx.Encoding.{authority_bytes}
use pointpay_chain.Api.Runtime.{Runtime}
use pointpay_chain.Api.Frame.Writing.{Fills, nothing-Fills, write_slice-Fills}
use pointpay_chain.Api.Text.{text_size, write_text, text_field}

pub write_text-Fills :
    (rt : Runtime) (s : Bytes) → IsU64 (length s) → Fills (write_text rt s) (authority_bytes s)
unfolding write_text authority_bytes
write_text-Fills rt [] u = nothing-Fills
write_text-Fills rt (c ∷ cs) u =
    rw (lt→ltb 0 (suc (length cs)) (omega arith))
      (write_slice-Fills rt.encode_varint (c ∷ cs) 0xa rt.encodes u)

pub text_size-length :
    (rt : Runtime) (s : Bytes) → IsU64 (length s) → text_size rt s ≡ length (authority_bytes s)
unfolding text_size authority_bytes
text_size-length rt [] u = refl
text_size-length rt (c ∷ cs) u = rw (lt→ltb 0 (suc (length cs)) (omega arith)) (
    omega
      (arith, rt.sov_bytes (length (c ∷ cs)) u, length-append (varint (length (c ∷ cs))) (c ∷ cs)))

module _ {M : Type 0} (msg : Message) (set : Bytes → M → M) where
  pub text_field-IsHandler : IsHandler (text_field msg set)
  unfolding text_field expect_wire_type
  text_field-IsHandler = record {
    ends = λ wt l index bytes m place small.
        returns-fail_if (not (wt == 2)) (wrong_wire_type msg 1 wt) _ (
          returns->>= (read_slice runtime_pb l index bytes) _
            (read_slice-returns runtime_pb l index bytes place small) (λ s e. refl));
    stays = λ wt l index bytes m m' index' rest place small e.
        let (_, e1) = passed (not (wt == 2)) (wrong_wire_type msg 1 wt) _ e in
        on_ok (read_slice runtime_pb l index bytes) _ e1 λ (slice, j, r) read done.
          let (ahead, there, _) =
            read_slice_stays runtime_pb l index bytes slice j r place small read in
          ground (arith, ahead, there, done);
  }
