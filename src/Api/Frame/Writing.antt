-- ===== src/Api/Frame/Writing.antt =====
-- A message is written behind the buffer, its fields in front of its unknown fields.
use mathlib.Core.List.{append-nil, append_assoc}
use native.Mathlib.Nat.{add-zero}
use pointpay_chain.Prelude.{
  ℕ, ◌+◌, ◌≡◌, sym, ap, ap₂, ◌∙◌, List, [], ◌∷◌, ◌++◌, some, length, length-append, replicate,
  length-replicate, ok, ◌>>=◌, arith,
}
use pointpay_chain.Wire.Error.{Pb}
use pointpay_chain.Wire.Varint.{IsU64}
use pointpay_chain.Wire.Varint.Groups.{varint}
use pointpay_chain.Wire.Buffer.{
  Encoder, Encodes, write_varint_field, copy_before, copy_before_lem, write_varint_field_hole,
  fill_hole,
}
use pointpay_chain.Api.Frame.{size_of, write_message, marshal_of}

-- A step that writes `bytes` in front of its offset.
abbrev pub Fills : (List ℕ → ℕ → Pb (List ℕ × ℕ)) → List ℕ → Type 0
Fills run bytes =
    (front hole back : List ℕ)
    → length hole ≡ length bytes
    → run (front ++ (hole ++ back)) (length front + length hole)
      ≡ ok (front ++ (bytes ++ back), length front)

pub nothing-Fills : Fills (λ dAtA i. ok (dAtA, i)) []
nothing-Fills front [] back e = ap (λ (t : ℕ). ok (front ++ back, t)) (add-zero (length front))
nothing-Fills front (y ∷ hole) back e = absurd (omega arith)

pub copy_before-Fills : (s : List ℕ) → Fills (λ dAtA i. copy_before dAtA i s) s
copy_before-Fills s front hole back e = copy_before_lem front hole back s e

-- One step after another: the second one writes in front of the first.
pub seq-Fills :
    (first second : List ℕ → ℕ → Pb (List ℕ × ℕ)) (a b : List ℕ)
    → Fills first a
    → Fills second b
    → Fills (λ dAtA i. first dAtA i >>= λ t. second t.0 t.1) (b ++ a)
seq-Fills first second a b fa fb front hole back e =
    fill_hole (λ dAtA i. first dAtA i >>= λ t. second t.0 t.1)
      (ok (front ++ ((b ++ a) ++ back), length front)) front hole back (length b) (length a)
      (e ∙ length-append b a)
      λ left right el er. rw (fa (front ++ left) right back er) (
        ap₂ second (append_assoc front left (a ++ back)) (length-append front left)
        ∙ fb front left (a ++ back) el
        ∙ ap (λ (t : List ℕ). ok (front ++ t, length front)) (sym (append_assoc b a back)))

pub write_varint_field-Fills :
    (encode : Encoder) (v tag : ℕ)
    → Encodes encode
    → IsU64 v
    → Fills (λ dAtA i. write_varint_field encode dAtA i v tag) (tag ∷ varint v)
write_varint_field-Fills encode v tag law u front hole back e =
    write_varint_field_hole encode v tag front hole back law u e

-- A tag, a length and the bytes of a string or an embedded message.
abbrev pub slice_bytes : ℕ → List ℕ → List ℕ
slice_bytes tag s = (tag ∷ varint (length s)) ++ s

pub write_slice-Fills :
    (encode : Encoder) (s : List ℕ) (tag : ℕ)
    → Encodes encode
    → IsU64 (length s)
    → Fills
        (λ dAtA i. copy_before dAtA i s >>= λ t. write_varint_field encode t.0 t.1 (length s) tag)
        (slice_bytes tag s)
write_slice-Fills encode s tag law u =
    seq-Fills (λ dAtA i. copy_before dAtA i s)
      (λ dAtA i. write_varint_field encode dAtA i (length s) tag) s (tag ∷ varint (length s))
      (copy_before-Fills s) (write_varint_field-Fills encode (length s) tag law u)

module _ {M : Type 0} (fields : M → List ℕ → ℕ → Pb (List ℕ × ℕ)) (unknown : M → List ℕ) where
  pub write_message-Fills :
      (x : M) (bytes : List ℕ)
      → Fills (fields x) bytes
      → Fills (write_message fields unknown x) (bytes ++ unknown x)
  unfolding write_message
  write_message-Fills x bytes f =
      seq-Fills (λ dAtA i. copy_before dAtA i (unknown x)) (fields x) (unknown x) bytes
        (copy_before-Fills (unknown x)) f

  -- A whole message, if the options give its size.
  pub marshal_of_lem :
      (options_size : M → ℕ) (buf : List ℕ) (x : M) (bytes : List ℕ)
      → Fills (fields x) bytes
      → options_size x ≡ length (bytes ++ unknown x)
      → marshal_of fields unknown options_size buf (some x) ≡ ok (buf ++ (bytes ++ unknown x))
  unfolding marshal_of
  marshal_of_lem options_size buf x bytes f e =
      let n = options_size x in
      let zeros = replicate n 0 in
      let count : length zeros ≡ n = length-replicate n 0 in
      ap (λ r. r >>= λ t. ok (buf ++ t.0))
        (ap₂ (write_message fields unknown x) (sym (append-nil zeros)) (sym count)
          ∙ ap (write_message fields unknown x (zeros ++ [])) (omega arith)
          ∙ write_message-Fills x bytes f [] zeros [] (count ∙ e))
      ∙ ap (λ (t : List ℕ). ok (buf ++ t)) (append-nil (bytes ++ unknown x))

-- The size of a message whose fields have that many bytes.
pub size_of_lem :
    {M : Type 0} (fields : M → ℕ) (unknown : M → List ℕ) (x : M) (bytes : List ℕ)
    → fields x ≡ length bytes
    → size_of fields unknown (some x) ≡ length (bytes ++ unknown x)
unfolding size_of
size_of_lem fields unknown x bytes e = omega (arith, e, length-append bytes (unknown x))
