-- ===== src/Wire/Varint/Groups.antt =====
-- The bytes of a varint in plain arithmetic, and how many of them there are.
use native.Mathlib.Nat.{pow-suc}
use pointpay_chain.Prelude.{
  ℕ, zero, suc, ◌+◌, ◌*◌, ◌/◌, ◌%◌, ◌^◌, ◌≤◌, ◌<◌, ◌≡◌, ap, List, [], ◌∷◌, refl, ltb, lt→ltb,
  le→ltb-false, if◌then◌else◌, length, All, arith,
}
use pointpay_chain.Prelude.Bits.{bit_or-one}
use pointpay_chain.Wire.Varint.{IsU64, IsByte, bit_len, len64, sov}

-- The groups of seven bits of `v`, lowest first, for `v` below 128 ^ (k + 1): every byte but the
-- last has its top bit set.
unfoldable pub groups : ℕ → ℕ → List ℕ
groups zero v = v ∷ []
groups (suc k) v =
    let rest = groups k (v / 128) in if ltb v 128 then v ∷ [] else (v % 128 + 128) ∷ rest

-- A uint64 has at most ten groups.
abbrev pub varint : ℕ → List ℕ
varint v = groups 9 v

pub groups_small : (k v : ℕ) → v < 128 → groups k v ≡ v ∷ []
unfolding groups
groups_small zero v h = refl
groups_small (suc k) v h = rw (lt→ltb v 128 h)

pub groups_large : (k v : ℕ) → 128 ≤ v → groups (suc k) v ≡ (v % 128 + 128) ∷ groups k (v / 128)
unfolding groups
groups_large k v h = rw (le→ltb-false v 128 h)

pub length-groups : (k v : ℕ) → (1 ≤ length (groups k v)) × (length (groups k v) ≤ k + 1)
unfolding groups
length-groups zero v = omega arith
length-groups (suc k) v = ground (arith, length-groups k (v / 128))

pub groups-IsByte : (k v : ℕ) → v < 128 ^ suc k → All IsByte (groups k v)
unfolding groups
groups-IsByte zero v h = omega arith
groups-IsByte (suc k) v h =
    ground (arith, groups-IsByte k (v / 128) (omega (arith, pow-suc 128 (suc k))))

bit_len_step : (f x : ℕ) → 0 < x → bit_len (suc f) x ≡ bit_len f (x / 2) + 1
unfolding bit_len
bit_len_step f x h = ground arith

bit_len-le : (n m x : ℕ) → x < 2 ^ m → bit_len n x ≤ m
unfolding bit_len
bit_len-le zero m x h = omega arith
bit_len-le (suc n) zero x h = ground arith
bit_len-le (suc n) (suc m) x h = ground (arith, bit_len-le n m (x / 2) (omega (arith, pow-suc 2 m)))

bit_len-zero : (n : ℕ) → bit_len n 0 ≡ 0
unfolding bit_len
bit_len-zero zero = omega arith
bit_len-zero (suc n) = ground arith

bit_len_fuel : (n m x : ℕ) → x < 2 ^ n → x < 2 ^ m → bit_len n x ≡ bit_len m x
unfolding bit_len
bit_len_fuel zero m x p q = ground (arith, ap (bit_len m) zero_x, bit_len-zero m)
  where
    zero_x : x ≡ 0
    zero_x = omega arith
bit_len_fuel (suc n) zero x p q = ground arith
bit_len_fuel (suc n) (suc m) x p q =
    ground
      (arith, bit_len_fuel n m (x / 2) (omega (arith, pow-suc 2 n)) (omega (arith, pow-suc 2 m)))

-- Seven halvings of a number that is long enough.
bit_len_seven :
    (f x : ℕ)
    → 64 ≤ x
    → bit_len (suc (suc (suc (suc (suc (suc (suc f))))))) x ≡ bit_len f (x / 128) + 7
bit_len_seven f x h = omega (
  arith,
  bit_len_step (suc (suc (suc (suc (suc (suc f)))))) x (omega arith),
  bit_len_step (suc (suc (suc (suc (suc f))))) (x / 2) (omega arith),
  bit_len_step (suc (suc (suc (suc f)))) (x / 2 / 2) (omega arith),
  bit_len_step (suc (suc (suc f))) (x / 2 / 2 / 2) (omega arith),
  bit_len_step (suc (suc f)) (x / 2 / 2 / 2 / 2) (omega arith),
  bit_len_step (suc f) (x / 2 / 2 / 2 / 2 / 2) (omega arith),
  bit_len_step f (x / 2 / 2 / 2 / 2 / 2 / 2) (omega arith),
  ap (bit_len f) same,
)
  where
    same : x / 2 / 2 / 2 / 2 / 2 / 2 / 2 ≡ x / 128
    same = omega arith

-- `sov` through the bits above the lowest.
sov_bits : (v : ℕ) → sov v ≡ (bit_len 63 (v / 2) + 7) / 7
unfolding sov len64
sov_bits v = omega (
  arith,
  ap (bit_len 64) (bit_or-one v),
  bit_len_step 63 (v / 2 * 2 + 1) (omega arith),
  ap (bit_len 63) same,
)
  where
    same : (v / 2 * 2 + 1) / 2 ≡ v / 2
    same = omega arith

sov_small : (v : ℕ) → v < 128 → sov v ≡ 1
sov_small v h = omega (arith, sov_bits v, bit_len-le 63 6 (v / 2) (omega arith))

sov_large : (v : ℕ) → 128 ≤ v → IsU64 v → sov v ≡ sov (v / 128) + 1
sov_large v h u = omega (
  arith,
  sov_bits v,
  sov_bits (v / 128),
  bit_len_seven 56 (v / 2) (omega arith),
  bit_len_fuel 56 63 (v / 2 / 128) (omega arith) (omega arith),
  ap (bit_len 63) same,
)
  where
    same : v / 2 / 128 ≡ v / 128 / 2
    same = omega arith

-- `sov` counts the groups.
pub sov-groups : (k v : ℕ) → v < 128 ^ suc k → IsU64 v → sov v ≡ length (groups k v)
unfolding groups
sov-groups zero v h u = sov_small v (omega arith)
sov-groups (suc k) v h u = ground (
  arith,
  sov_small v,
  sov_large v,
  sov-groups k (v / 128) (omega (arith, pow-suc 128 (suc k))) (omega arith),
)

-- `sov*` of a uint64 is the number of bytes of its varint.
pub sov-varint : (v : ℕ) → IsU64 v → sov v ≡ length (varint v)
sov-varint v u = sov-groups 9 v (omega arith) u
