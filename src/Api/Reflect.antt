-- ===== src/Api/Reflect.antt =====
-- The reflection that every message of pointpay/api/pointpay/pnp has: methods that switch on the full
-- name of a field. A nil receiver is `none`; where a method reads through it, it panics. The errors
-- that the panics carry are not kept.
pub mod Fields
pub mod Kinds
pub mod Laws
pub mod Contract
use pointpay_chain.Prelude.{
  Bool, true, false, if◌then◌else◌, List, [], ◌∷◌, Option, none, some, ok, panic, ◌>>=◌,
}
use pointpay_chain.Prelude.Text.{Bytes, bytes_eq}
use pointpay_chain.Wire.Error.{Pb}

-- What the methods do in the case of one field: its full name, the test of `Has`, the value of `Get`, the
-- value that `Range` visits if its own test passes, and what `Set`, `Clear`, `Mutable` and `NewField` do.
pub record Field (V : Type 0) (M : Type 0) : Type 0 where
  pub name : Bytes
  pub populated : M → Bool
  pub read : M → V
  pub visits : M → Option V
  pub store : V → M → Pb M
  pub reset : M → M
  pub renew : M → Pb (M × V)
  pub fresh : V

-- To read or write a field through a pointer.
unfoldable pub receiver : {M : Type 0} → Option M → Pb M
receiver none = panic
receiver (some x) = ok x

-- The block of `Range` for one field, with what the blocks behind it do: the callback changes a
-- state, and says whether to go on.
unfoldable pub visit_one :
    {V S : Type 0} → Bytes → (Bytes → V → S → S × Bool) → (S → Pb S) → Option V → S → Pb S
visit_one name visit next none s = next s
visit_one name visit next (some v) s =
    let seen = visit name v s in let more = next seen.0 in if seen.1 then more else ok seen.0

module _ {V M : Type 0} where
  -- `switch fd.FullName()`, whose default case panics, for an extension too.
  unfoldable pub case_of : List (Field V M) → Bytes → Pb (Field V M)
  case_of [] fd = panic
  case_of (f ∷ fields) fd =
      let more = case_of fields fd in if bytes_eq f.name fd then ok f else more

  unfoldable pub has_in : List (Field V M) → Bytes → Option M → Pb Bool
  has_in fields fd x = do f ← case_of fields fd; m ← receiver x; ok (f.populated m)

  unfoldable pub get_in : List (Field V M) → Bytes → Option M → Pb V
  get_in fields fd x = do f ← case_of fields fd; m ← receiver x; ok (f.read m)

  unfoldable pub clear_in : List (Field V M) → Bytes → Option M → Pb M
  clear_in fields fd x = do f ← case_of fields fd; m ← receiver x; ok (f.reset m)

  unfoldable pub set_in : List (Field V M) → Bytes → V → Option M → Pb M
  set_in fields fd v x = do f ← case_of fields fd; m ← receiver x; f.store v m

  -- The message afterwards, and the value returned.
  unfoldable pub mutable_in : List (Field V M) → Bytes → Option M → Pb (M × V)
  mutable_in fields fd x = do f ← case_of fields fd; m ← receiver x; f.renew m

  -- The receiver is not read.
  unfoldable pub new_field_in : List (Field V M) → Bytes → Pb V
  new_field_in fields fd = do f ← case_of fields fd; ok f.fresh

  -- `Range`
  unfoldable pub range_in :
      {S : Type 0} → List (Field V M) → (Bytes → V → S → S × Bool) → Option M → S → Pb S
  range_in [] visit x s = ok s
  range_in (f ∷ fields) visit x s = do
    m ← receiver x
    visit_one f.name visit (λ t. range_in fields visit x t) (f.visits m) s

-- No message has a oneof, so that the switch of `WhichOneof` has no case but the default one.
unfoldable pub which_oneof_of : {M : Type 0} → Bytes → Option M → Pb Bytes
which_oneof_of d x = panic

-- `IsValid`
unfoldable pub is_valid_of : {M : Type 0} → Option M → Bool
is_valid_of none = false
is_valid_of (some x) = true
