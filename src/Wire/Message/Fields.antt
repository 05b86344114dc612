-- ===== src/Wire/Message/Fields.antt =====
-- One round of the decoding loop on a field that stands in front, known or unknown, and the slices
-- of strings and embedded messages.
use pointpay_chain.Prelude.{
  ◌-◌, refl, ap, le→leb, take, drop, returns_guarded, ℕ, suc, ◌+◌, ◌^◌, ◌≤◌, ◌<◌, ◌≡◌, bit_and,
  true, false, List, [], ◌∷◌, ◌++◌, some, le→ltb-false, ◌==◌, length, length-take, length-drop,
  take-length-append, drop-length-append, ok, on_ok, passed, returns, returns->>=, arith,
}
use pointpay_chain.Wire.Error.{PbFile, Message, invalid_length, unexpected_eof}
use pointpay_chain.Wire.Varint.{read_varint, is_negative}
use pointpay_chain.Wire.Varint.Groups.{varint, groups_small}
use pointpay_chain.Wire.Varint.Decoding.{read_varint-varint, read_varint-Takes, read_varint-returns}
use pointpay_chain.Wire.Skip.{add_int, beyond}
use pointpay_chain.Wire.Skip.Moves.{not_negative, beyond-false}
use pointpay_chain.Wire.Message.{
  Handler, Switch, Unknown, field_number, not_positive, slice, read_slice, unmarshal_loop,
}

-- A tag below 128 is one byte.
pub read_tag :
    (file : PbFile) (tag index : ℕ) (rest : List ℕ)
    → tag < 128
    → read_varint file index (tag ∷ rest) ≡ ok (tag, index + 1, rest)
read_tag file tag index rest h =
    rw (groups_small 9 tag h) at (read_varint-varint file tag index rest (omega arith))

module _ {M : Type 0} (file : PbFile) (msg : Message) (switch : Switch M)
    (unknown : Unknown M) where
  -- The tag of a known field, whose case reads the payload.
  pub loop_known :
      (tag : ℕ) (handler : Handler M) (fuel l index : ℕ) (payload : List ℕ) (m m' : M) (index' : ℕ)
      (rest : List ℕ)
      → tag < 128
      → (bit_and tag 0x7 == 4) ≡ false
      → not_positive (field_number tag) ≡ false
      → switch (field_number tag) ≡ some handler
      → handler (bit_and tag 0x7) l (index + 1) payload m ≡ ok (m', index', rest)
      → unmarshal_loop file msg switch unknown (suc fuel) l index (tag ∷ payload) m
        ≡ unmarshal_loop file msg switch unknown fuel l index' rest m'
  unfolding unmarshal_loop
  loop_known tag handler fuel l index payload m m' index' rest small no_group positive known read =
      rw (read_tag file tag index payload small, no_group, positive, known, read)

  -- The end of the slice.
  pub loop_end :
      (fuel l index : ℕ) (m : M)
      → index ≡ l
      → unmarshal_loop file msg switch unknown fuel l index [] m ≡ ok m
  unfolding unmarshal_loop
  loop_end fuel l index m e = rw (le→ltb-false l index (omega arith))

-- A slice within its bounds.
pub slice_lem :
    (l start post : ℕ) (bytes : List ℕ)
    → start ≤ post
    → post ≤ l
    → slice l start post bytes ≡ ok (take (post - start) bytes)
unfolding slice
slice_lem l start post bytes h h' = rw (le→leb start post h, le→leb post l h') refl

-- A length and its bytes, in front of `rest`.
pub read_slice_lem :
    (file : PbFile) (l index : ℕ) (s rest : List ℕ)
    → index + length (varint (length s)) + length s ≤ l
    → l < 2 ^ 63
    → read_slice file l index (varint (length s) ++ (s ++ rest))
      ≡ ok (s, index + length (varint (length s)) + length s, rest)
unfolding read_slice
read_slice_lem file l index s rest fits small =
    let start = index + length (varint (length s)) in
    let sum : add_int start (length s) ≡ start + length s = omega arith in
    let back : start + length s - start ≡ length s = omega arith in
    rw
      (
        read_varint-varint file (length s) index (s ++ rest) (omega arith),
        not_negative (length s) (omega arith),
        sum,
        not_negative (start + length s) (omega arith),
        le→ltb-false l (start + length s) fits,
        slice_lem l start (start + length s) (s ++ rest) (omega arith) fits,
        back,
        take-length-append s rest,
        drop-length-append s rest,
      )
      refl

-- What the guards in front of a slice leave to it.
guarded :
    (l start len : ℕ)
    → start ≤ l
    → l < 2 ^ 63
    → is_negative len ≡ false
    → is_negative (add_int start len) ≡ false
    → beyond (add_int start len) l ≡ false
    → (add_int start len ≡ start + len) × (start + len ≤ l)
guarded l start len inside small sign sign' fits =
    let sum : add_int start len ≡ start + len = ground arith in
    let low : start + len < 2 ^ 63 = ground arith in
    (sum, beyond-false (start + len) l low (rw sum at fits))

pub read_slice-returns :
    (file : PbFile) (l index : ℕ) (bytes : List ℕ)
    → index + length bytes ≡ l
    → l < 2 ^ 63
    → returns (read_slice file l index bytes) ≡ true
unfolding read_slice
read_slice-returns file l index bytes place small =
    returns->>= (read_varint file index bytes) _ (read_varint-returns file bytes index)
      λ (len, start, rest) read.
        let (t, _) = read_varint-Takes file bytes index len start rest read in
        returns_guarded (is_negative len) (invalid_length file) _ λ sign.
          returns_guarded (is_negative (add_int start len)) (invalid_length file) _ λ sign'.
            returns_guarded (beyond (add_int start len) l) unexpected_eof _ λ fits.
              let (sum, within) =
                guarded l start len (omega (arith, t.moves, t.keeps)) small sign sign' fits in
              rw (slice_lem l start (add_int start len) rest (omega arith) (omega arith)) refl

-- A slice lies within the bytes, and what follows it is what is left.
pub read_slice_stays :
    (file : PbFile) (l index : ℕ) (bytes s : List ℕ) (index' : ℕ) (rest : List ℕ)
    → index + length bytes ≡ l
    → l < 2 ^ 63
    → read_slice file l index bytes ≡ ok (s, index', rest)
    → (index < index') × (index' + length rest ≡ l) × (length s ≤ l)
unfolding read_slice
read_slice_stays file l index bytes s index' rest place small e =
    on_ok (read_varint file index bytes) _ e λ (len, start, behind) read e1.
      let (t, _) = read_varint-Takes file bytes index len start behind read in
      let (sign, e2) = passed (is_negative len) (invalid_length file) _ e1 in
      let (sign', e3) = passed (is_negative (add_int start len)) (invalid_length file) _ e2 in
      let (fits, e4) = passed (beyond (add_int start len) l) unexpected_eof _ e3 in
      let first : (index < start) × (start + length behind ≡ l) = omega (arith, t.moves, t.keeps) in
      let (sum, within) = guarded l start len (omega arith) small sign sign' fits in
      let back : start + len - start ≡ len = omega arith in
      let found = slice_lem l start (start + len) behind (omega arith) within in
      let e5 : ok (take len behind, start + len, drop len behind) ≡ ok (s, index', rest) =
        rw (sum, found, back) at e4 in
      let text : take len behind ≡ s = cc in
      let at : start + len ≡ index' = cc in
      let left : drop len behind ≡ rest = cc in
      omega (
        arith,
        first,
        ap length text,
        ap length left,
        length-drop len behind,
        length-take len behind,
      )
