-- ===== src/Testnet/Nodes/RpcPorts.antt =====
-- The ports of the RPC servers.
use pointpay_chain.Prelude.{
  ℕ, zero, suc, ◌+◌, ◌-◌, ◌<◌, ◌≤◌, ◌≡◌, refl, ap, ◌∙◌, inl, inr, true, false, Bool-cases, List, [],
  ◌∷◌, Option, none, some, ltb, ltb→lt, lt→ltb, ltb-false→le, le→ltb-false, ==→eq, ◌==◌,
  if◌then◌else◌, arith,
}
use pointpay_chain.Prelude.Text.{Bytes, bytes_eq}
use pointpay_chain.Testnet.{split, lookup, rpc, port}
use pointpay_chain.Testnet.Nodes.{decimal, default_ports, listed_ports, read_ports}

-- The text at an index, or another one.
abbrev pub get_or : Option Bytes → List Bytes → ℕ → Option Bytes
get_or other [] i = other
get_or other (p ∷ ps) zero = some p
get_or other (p ∷ ps) (suc i) = get_or other ps i

-- The default ports from node `top` on.
abbrev pub defaults : ℕ → ℕ → List Bytes
defaults top zero = []
defaults top (suc n) = decimal (port rpc top) ∷ defaults (top + 1) n

default_ports-listed :
    (top n : ℕ) (ports : List (ℕ × Bytes))
    → default_ports top n ports ≡ listed_ports top (defaults top n) ports
unfolding default_ports listed_ports
default_ports-listed top zero ports = refl
default_ports-listed top (suc n) ports = default_ports-listed (top + 1) n _

lookup-listed :
    (i top : ℕ) (ps : List Bytes) (ports : List (ℕ × Bytes))
    → lookup i (listed_ports top ps ports)
      ≡ (if ltb i top then lookup i ports else get_or (lookup i ports) ps (i - top))
unfolding listed_ports lookup
lookup-listed i top [] ports = elim (Bool-cases (ltb i top)) [
  | inl h ↦ rw h refl
  | inr h ↦ rw h refl
]
lookup-listed i top (p ∷ ps) ports =
    lookup-listed i (top + 1) ps ((top, p) ∷ ports) ∙ elim (Bool-cases (ltb i top)) [
      | inl before ↦
          let h : i < top = ltb→lt i top before in
          let wider : ltb i (top + 1) ≡ true = lt→ltb i (top + 1) (omega arith) in
          let other : (i == top) ≡ false = ground arith in rw (before, wider, other) refl
      | inr behind ↦ elim (Bool-cases (i == top)) [
        | inl here ↦
            let e : i ≡ top = ==→eq i top here in
            let wider : ltb i (top + 1) ≡ true = lt→ltb i (top + 1) (omega arith) in
            let first : i - top ≡ 0 = omega arith in rw (behind, here, wider, first) refl
        | inr later ↦
            let h : top ≤ i = ltb-false→le i top behind in
            let far : ltb i (top + 1) ≡ false = ground arith in
            let next : i - top ≡ suc (i - (top + 1)) = ground arith in
            rw (behind, later, far, next) refl
      ]
    ]

get-defaults :
    (i top n : ℕ)
    → get_or none (defaults top n) i
      ≡ (if ltb i n then some (decimal (port rpc (top + i))) else none)
get-defaults i top zero = rw (le→ltb-false i 0 (omega arith)) refl
get-defaults zero top (suc n) =
    let first : top + 0 ≡ top = omega arith in rw (lt→ltb 0 (suc n) (omega arith), first) refl
get-defaults (suc i) top (suc n) =
    let same : ltb (suc i) (suc n) ≡ ltb i n = ground arith in
    let index : top + suc i ≡ top + 1 + i = omega arith in
    get-defaults i (top + 1) n ∙ rw (same, index) refl

-- The RPC port of node `i`: without a text in the flag each of the nodes has the default port of its
-- index, and otherwise node `i` has the entry of that index, as far as the list goes, and no port
-- beyond it, however many validators there are.
pub lookup-read_ports :
    (s : Bytes) (num_validators i : ℕ)
    → lookup i (read_ports s num_validators) ≡ (
        if bytes_eq s []
        then (if ltb i num_validators then some (decimal (port rpc i)) else none)
        else get_or none (split s) i)
unfolding read_ports lookup
lookup-read_ports s num_validators i = elim (Bool-cases (bytes_eq s [])) [
  | inl empty ↦ rw empty (
      ap (lookup i) (default_ports-listed 0 num_validators [])
      ∙ listed (defaults 0 num_validators)
      ∙ get-defaults i 0 num_validators
      ∙ ap (λ (k : ℕ). if ltb i num_validators then some (decimal (port rpc k)) else none)
          (omega arith))
  | inr given ↦ rw given (listed (split s))
]
  where
    listed : (ps : List Bytes) → lookup i (listed_ports 0 ps []) ≡ get_or none ps i
    listed ps =
        let first : ltb i 0 ≡ false = le→ltb-false i 0 (omega arith) in
        lookup-listed i 0 ps [] ∙ rw first (ap (get_or none ps) (omega arith))
