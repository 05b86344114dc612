-- ===== src/Wire/Buffer.antt =====
-- How the generated `MarshalToSizedBuffer` methods fill a buffer from its end (pointpay/x/pnp/types/*.pb.go).
-- Every step takes the buffer and the offset `i`, and gives both back.
use mathlib.Core.List.{append_assoc, append-nil}
use pointpay_chain.Prelude.{
  ℕ, zero, suc, ◌+◌, ◌-◌, ◌≤◌, ◌≡◌, sym, ap, ap₂, ◌∙◌, List, [], ◌∷◌, ◌++◌, ltb, le→ltb-false,
  if◌then◌else◌, length, length-append, length-take, take, drop, take-append-drop,
  take-length-append, drop-length-append, replicate, length-replicate, ok, panic, ◌>>=◌, arith,
}
use pointpay_chain.Wire.Error.{Pb}
use pointpay_chain.Wire.Varint.{IsU64, write, encode_varint}
use pointpay_chain.Wire.Varint.Groups.{varint, sov-varint}
use pointpay_chain.Wire.Varint.Encoding.{write-append, encode_varint-varint}

-- `i--; dAtA[i] = b`
pub write_before : List ℕ → ℕ → ℕ → Pb (List ℕ × ℕ)
write_before dAtA zero b = panic
write_before dAtA (suc i) b = do dAtA' ← write dAtA i b; ok (dAtA', i)

-- `i = encodeVarint(dAtA, i, v); i--; dAtA[i] = tag`, for the `encodeVarint*` of the file.
abbrev pub Encoder : Type 0
Encoder = List ℕ → ℕ → ℕ → Pb (List ℕ × ℕ)

pub write_varint_field : Encoder → List ℕ → ℕ → ℕ → ℕ → Pb (List ℕ × ℕ)
write_varint_field encode dAtA i v tag = do (dAtA', i') ← encode dAtA i v; write_before dAtA' i' tag

-- `i -= len(s); copy(dAtA[i:], s)`: the slice expression panics at a negative offset. `i` is at most
-- the buffer's length, so that all of `s` is copied.
pub copy_before : List ℕ → ℕ → List ℕ → Pb (List ℕ × ℕ)
copy_before dAtA i s =
    if ltb i (length s)
    then panic
    else ok (take (i - length s) dAtA ++ (s ++ drop i dAtA), i - length s)

-- `size, err := m.MarshalToSizedBuffer(dAtA[:i]); i -= size`, where the method shares the buffer.
pub marshal_before : (List ℕ → Pb (List ℕ × ℕ)) → List ℕ → ℕ → Pb (List ℕ × ℕ × ℕ)
marshal_before marshal_to dAtA i = do
  (front, size) ← marshal_to (take i dAtA)
  if ltb i size then panic else ok (front ++ drop i dAtA, i - size, size)

-- `Marshal`: a zeroed buffer of `size` bytes, filled from its end and cut to what was written.
pub marshal_sized : (List ℕ → Pb (List ℕ × ℕ)) → ℕ → Pb (List ℕ)
marshal_sized marshal_to size = do (dAtA, n) ← marshal_to (replicate size 0); ok (take n dAtA)

-- `marshal_to` writes `bytes` at the end of a buffer that has exactly the room for them.
abbrev pub Writes : (List ℕ → Pb (List ℕ × ℕ)) → List ℕ → Type 0
Writes marshal_to bytes =
    (front hole : List ℕ)
    → length hole ≡ length bytes
    → marshal_to (front ++ hole) ≡ ok (front ++ bytes, length bytes)

pub marshal_sized-Writes :
    (marshal_to : List ℕ → Pb (List ℕ × ℕ)) (bytes : List ℕ) (size : ℕ)
    → Writes marshal_to bytes
    → size ≡ length bytes
    → marshal_sized marshal_to size ≡ ok bytes
unfolding marshal_sized
marshal_sized-Writes marshal_to bytes size w e =
    rw (w [] (replicate size 0) (length-replicate size 0 ∙ e))
      (ap ok (ap (take (length bytes)) (sym (append-nil bytes)) ∙ take-length-append bytes []))

pub write_before-append :
    (front : List ℕ) (y b : ℕ) (tail : List ℕ)
    → write_before (front ++ (y ∷ tail)) (suc (length front)) b
      ≡ ok (front ++ (b ∷ tail), length front)
unfolding write_before
write_before-append front y b tail = rw (write-append front y b tail)

-- An encoder writes the varint of a uint64 into a hole of its size, right before the offset.
abbrev pub Encodes : Encoder → Type 0
Encodes encode =
    (v : ℕ) (front hole back : List ℕ)
    → IsU64 v
    → length hole ≡ length (varint v)
    → encode (front ++ (hole ++ back)) (length front + length hole) v
      ≡ ok (front ++ (varint v ++ back), length front)

pub encode_varint-Encodes : Encodes encode_varint
encode_varint-Encodes v front hole back u e =
    encode_varint-varint v front hole back u (e ∙ sym (sov-varint v u))

-- A tagged varint goes into a hole of its size.
pub write_varint_field_lem :
    (encode : Encoder) (v tag : ℕ) (front : List ℕ) (y : ℕ) (hole back : List ℕ)
    → Encodes encode
    → IsU64 v
    → length hole ≡ length (varint v)
    → write_varint_field encode
        (front ++ (y ∷ (hole ++ back)))
        (suc (length front) + length hole)
        v
        tag
      ≡ ok (front ++ (tag ∷ (varint v ++ back)), length front)
unfolding write_varint_field
write_varint_field_lem encode v tag front y hole back law u e =
    rw
      (
        sym (append_assoc front (y ∷ []) (hole ++ back)),
        ap (λ (t : ℕ). t + length hole) at_front,
        law v (front ++ (y ∷ [])) hole back u e,
      )
      (ap (λ (t : ℕ). write_before ((front ++ (y ∷ [])) ++ (varint v ++ back)) t tag) (sym at_front)
        ∙ ap (λ (t : List ℕ). write_before t (suc (length front)) tag)
            (append_assoc front (y ∷ []) (varint v ++ back))
        ∙ write_before-append front y tag (varint v ++ back))
  where
    at_front : suc (length front) ≡ length (front ++ (y ∷ []))
    at_front = omega (arith, length-append front (y ∷ []))

-- The same for a hole that has room for the tag too.
pub write_varint_field_hole :
    (encode : Encoder) (v tag : ℕ) (front hole back : List ℕ)
    → Encodes encode
    → IsU64 v
    → length hole ≡ suc (length (varint v))
    → write_varint_field encode (front ++ (hole ++ back)) (length front + length hole) v tag
      ≡ ok (front ++ (tag ∷ (varint v ++ back)), length front)
write_varint_field_hole encode v tag front [] back law u e = absurd (omega arith)
write_varint_field_hole encode v tag front (y ∷ hole) back law u e =
    ap (λ (t : ℕ). write_varint_field encode (front ++ (y ∷ (hole ++ back))) t v tag) moved
    ∙ write_varint_field_lem encode v tag front y hole back law u (omega arith)
  where
    moved : length front + suc (length hole) ≡ suc (length front) + length hole
    moved = omega arith

-- At the end of the buffer.
pub write_varint_field_end :
    (encode : Encoder) (v tag : ℕ) (front hole : List ℕ)
    → Encodes encode
    → IsU64 v
    → length hole ≡ suc (length (varint v))
    → write_varint_field encode (front ++ hole) (length (front ++ hole)) v tag
      ≡ ok (front ++ (tag ∷ varint v), length front)
write_varint_field_end encode v tag front hole law u e =
    ap₂ (λ (d : List ℕ) (t : ℕ). write_varint_field encode d t v tag)
      (ap (λ t. front ++ t) (sym (append-nil hole))) (length-append front hole)
    ∙ write_varint_field_hole encode v tag front hole [] law u e
    ∙ ap (λ (t : List ℕ). ok (front ++ (tag ∷ t), length front)) (append-nil (varint v))

-- The parts of a buffer at the end of a hole.
take_hole :
    (front hole back : List ℕ)
    → take (length front + length hole) (front ++ (hole ++ back)) ≡ front ++ hole
take_hole front hole back =
    rw (sym (append_assoc front hole back), sym (length-append front hole))
      (take-length-append (front ++ hole) back)

drop_hole :
    (front hole back : List ℕ) → drop (length front + length hole) (front ++ (hole ++ back)) ≡ back
drop_hole front hole back =
    rw (sym (append_assoc front hole back), sym (length-append front hole))
      (drop-length-append (front ++ hole) back)

pub copy_before_lem :
    (front hole back s : List ℕ)
    → length hole ≡ length s
    → copy_before (front ++ (hole ++ back)) (length front + length hole) s
      ≡ ok (front ++ (s ++ back), length front)
unfolding copy_before
copy_before_lem front hole back s e = rw (
  le→ltb-false (length front + length hole) (length s) (omega arith),
  offset,
  take-length-append front (hole ++ back),
  drop_hole front hole back,
)
  where
    offset : length front + length hole - length s ≡ length front
    offset = omega arith

pub marshal_before_lem :
    (marshal_to : List ℕ → Pb (List ℕ × ℕ)) (body front hole back : List ℕ)
    → Writes marshal_to body
    → length hole ≡ length body
    → marshal_before marshal_to (front ++ (hole ++ back)) (length front + length hole)
      ≡ ok (front ++ (body ++ back), length front, length body)
unfolding marshal_before
marshal_before_lem marshal_to body front hole back w e = rw (
  take_hole front hole back,
  w front hole e,
  le→ltb-false (length front + length hole) (length body) (omega arith),
  offset,
  drop_hole front hole back,
  append_assoc front body back,
)
  where
    offset : length front + length hole - length body ≡ length front
    offset = omega arith

-- A hole of known length has two parts of known length.
record Split (xs : List ℕ) (n : ℕ) : Type 0 where
  left : List ℕ
  right : List ℕ
  whole : xs ≡ left ++ right
  size : length left ≡ n

Split-at : (xs : List ℕ) (n : ℕ) → n ≤ length xs → Split xs n
Split-at xs n h = record {
  left = take n xs;
  right = drop n xs;
  whole = sym (take-append-drop n xs);
  size = length-take n xs h;
}

-- A step that fills a hole in two parts, the right one first.
pub fill_hole :
    (run : List ℕ → ℕ → Pb (List ℕ × ℕ)) (result : Pb (List ℕ × ℕ)) (front hole back : List ℕ)
    (n k : ℕ)
    → length hole ≡ n + k
    → ((left right : List ℕ)
        → length left ≡ n
        → length right ≡ k
        → run ((front ++ left) ++ (right ++ back)) (length (front ++ left) + length right) ≡ result)
    → run (front ++ (hole ++ back)) (length front + length hole) ≡ result
fill_hole run result front hole back n k e fill =
    let s = Split-at hole n (omega (arith, e)) in
    let parts : length hole ≡ length s.left + length s.right =
      ap length s.whole ∙ length-append s.left s.right in
    ap₂ run
      (ap (λ (t : List ℕ). front ++ (t ++ back)) s.whole
        ∙ ap (λ (t : List ℕ). front ++ t) (append_assoc s.left s.right back)
        ∙ sym (append_assoc front s.left (s.right ++ back)))
      (omega (arith, parts, length-append front s.left))
    ∙ fill s.left s.right s.size (omega (arith, parts, e, s.size))
