-- ===== src/Api/Pointer/Gogo.antt =====
-- The field of a message without unknown fields is what the codec of the module writes
-- (pointpay/x/pnp/types/{genesis,tx,query}.pb.go).
use mathlib.Core.List.{append-nil}
use pointpay_chain.Prelude.{ℕ, ◌^◌, ◌<◌, ◌≡◌, ap, List, some, length, length-append, arith}
use pointpay_chain.Wire.Varint.Groups.{varint, length-groups}
use pointpay_chain.Wire.Params as ParamsPb
use pointpay_chain.Wire.Params.Encoding.{encoding, length-encoding}
use pointpay_chain.Wire.Params.Encoding as ParamsEncoding
use pointpay_chain.Wire.Embedded.Writing.{field_bytes}
use pointpay_chain.Api.Frame.Writing.{slice_bytes}
use pointpay_chain.Api.Pointer.Laws.{IsPointer, pointer_bytes}
use pointpay_chain.Api.Pointer.Reading.{of_gogo}

pub pointer_bytes-gogo :
    (tag : ℕ) (p : ParamsPb.Params) → pointer_bytes tag (some (of_gogo p)) ≡ field_bytes tag p
unfolding pointer_bytes field_bytes
pointer_bytes-gogo tag p = ap (λ (t : List ℕ). slice_bytes tag t) (append-nil (encoding p))

pub field_bytes_short : (tag : ℕ) (p : ParamsPb.Params) → length (field_bytes tag p) < 2 ^ 63
unfolding field_bytes
field_bytes_short tag p = omega (
  arith,
  length-encoding p,
  length-groups 9 (length (encoding p)),
  length-append (varint (length (encoding p))) (encoding p),
)

pub gogo-IsPointer : (p : ParamsPb.Params) → ParamsEncoding.IsValid p → IsPointer (some (of_gogo p))
gogo-IsPointer p u = (u, omega (arith, length-encoding p, ap length (append-nil (encoding p))))
