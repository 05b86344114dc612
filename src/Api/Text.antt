-- ===== src/Api/Text.antt =====
-- The string field number 1 of `MsgUpdateParams` and of the module's configuration in the fast paths of
-- pointpay/api/pointpay/pnp, with the tag 0xa.
pub mod Laws
pub mod Reading
use pointpay_chain.Prelude.{ℕ, ◌+◌, if◌then◌else◌, ltb, List, length, ok, ◌>>=◌, ◌>>◌}
use pointpay_chain.Prelude.Text.{Bytes}
use pointpay_chain.Wire.Error.{Message, Pb, runtime_pb}
use pointpay_chain.Wire.Message.{Handler, expect_wire_type, read_slice}
use pointpay_chain.Wire.Buffer.{copy_before, write_varint_field}
use pointpay_chain.Api.Runtime.{Runtime}

-- `if l > 0 { n += 1 + l + runtime.Sov(uint64(l)) }`
unfoldable pub text_size : Runtime → Bytes → ℕ
text_size rt s = if ltb 0 (length s) then 1 + length s + rt.sov (length s) else 0

-- The part of `marshal` under `if len(s) > 0`.
unfoldable pub write_text : Runtime → Bytes → List ℕ → ℕ → Pb (List ℕ × ℕ)
write_text rt s dAtA i =
    let present = do
      (dAtA', i') ← copy_before dAtA i s
      write_varint_field rt.encode_varint dAtA' i' (length s) 0xa
    in if ltb 0 (length s) then present else ok (dAtA, i)

-- `case 1`
unfoldable pub text_field : {M : Type 0} → Message → (Bytes → M → M) → Handler M
text_field msg set wire_type l index bytes m = do
  expect_wire_type msg 1 2 wire_type
  (slice, index', rest) ← read_slice runtime_pb l index bytes
  ok (set slice m, index', rest)
