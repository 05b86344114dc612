-- ===== src/Testnet/Nodes/Peers.antt =====
-- The persistent peers, read back by their commas.
use mathlib.Core.List.{append_assoc, append-nil}
use pointpay_chain.Prelude.{
  ℕ, zero, suc, ◌+◌, ◌/◌, ◌%◌, ◌≡◌, refl, sym, ap, ◌∙◌, false, Bool-cases, inl, inr, List, [], ◌∷◌,
  ◌++◌, All, ltb, ◌==◌, arith,
}
use pointpay_chain.Prelude.Text.{Bytes, codes, bytes_eq}
use pointpay_chain.Prelude.Int.{ℤ, pos, negsuc}
use pointpay_chain.Testnet.{split, onto_first, p2p, port}
use pointpay_chain.Testnet.Nodes.{
  digits, decimal, memo, memos, add_peer, peers_loop, persistent_peers,
}

-- No character is a comma.
abbrev pub Plain : Bytes → Type 0
Plain text = All (λ c. (c == b',') ≡ false) text

Plain-append : (a b : Bytes) → Plain a → Plain b → Plain (a ++ b)
Plain-append [] b pa pb = pb
Plain-append (c ∷ a) b (pc, pa) pb = (pc, Plain-append a b pa pb)

digits-Plain : (room n : ℕ) (written : Bytes) → Plain written → Plain (digits room n written)
unfolding digits
digits-Plain zero n written plain = plain
digits-Plain (suc room) n written plain =
    let here : (b'0' + n % 10 == b',') ≡ false = ground arith in
    elim (Bool-cases (ltb n 10)) [
      | inl small ↦ rw small (here, plain)
      | inr large ↦ rw large (digits-Plain room (n / 10) ((b'0' + n % 10) ∷ written) (here, plain))
    ]

decimal-Plain : (n : ℤ) → Plain (decimal n)
unfolding decimal
decimal-Plain (pos n) = digits-Plain 20 n [] tt
decimal-Plain (negsuc n) = (refl, digits-Plain 20 (n + 1) [] tt)

memo-Plain : (ip : Bytes) (i : ℕ) (id : Bytes) → Plain ip → Plain id → Plain (memo ip i id)
unfolding memo
memo-Plain ip i id pip pid =
    Plain-append id _ pid (refl, Plain-append ip _ pip (refl, decimal-Plain (port p2p i)))

-- A text without a comma in front of another one.
split-Plain : (a : Bytes) → Plain a → split a ≡ a ∷ []
unfolding split onto_first
split-Plain [] plain = refl
split-Plain (c ∷ a) (pc, plain) = rw (pc, split-Plain a plain) refl

split-comma : (a b : Bytes) → Plain a → split (a ++ (codes "," ++ b)) ≡ a ∷ split b
unfolding split onto_first
split-comma [] b plain = refl
split-comma (c ∷ a) b (pc, plain) = rw (pc, split-comma a b plain) refl

-- Texts with a comma before each one.
abbrev tails : List Bytes → Bytes
tails [] = []
tails (m ∷ ms) = codes "," ++ (m ++ tails ms)

split-tails :
    (m : Bytes) (ms : List Bytes) → Plain m → All Plain ms → split (m ++ tails ms) ≡ m ∷ ms
split-tails m [] plain all = ap split (append-nil m) ∙ split-Plain m plain
split-tails m (n ∷ ms) plain (one, all) =
    split-comma m (n ++ tails ms) plain ∙ ap (λ t. m ∷ t) (split-tails n ms one all)

some_text : (a b : Bytes) → bytes_eq a [] ≡ false → bytes_eq (a ++ b) [] ≡ false
unfolding bytes_eq
some_text [] b e = cc
some_text (c ∷ a) b e = refl

memo_text : (ip : Bytes) (i : ℕ) (id : Bytes) → bytes_eq (memo ip i id) [] ≡ false
unfolding memo bytes_eq
memo_text ip i [] = refl
memo_text ip i (c ∷ id) = refl

peers_loop-tails :
    (ip : Bytes) (i : ℕ) (ids : List Bytes) (peers : Bytes)
    → bytes_eq peers [] ≡ false
    → peers_loop ip i ids peers ≡ peers ++ tails (memos ip i ids)
unfolding peers_loop memos add_peer
peers_loop-tails ip i [] peers given = sym (append-nil peers)
peers_loop-tails ip i (id ∷ ids) peers given =
    let more = codes "," ++ memo ip i id in
    rw given (
      peers_loop-tails ip (i + 1) ids (peers ++ more) (some_text peers more given)
      ∙ append_assoc peers more (tails (memos ip (i + 1) ids)))

memos-Plain :
    (ip : Bytes) (i : ℕ) (ids : List Bytes) → Plain ip → All Plain ids → All Plain (memos ip i ids)
unfolding memos
memos-Plain ip i [] pip all = tt
memos-Plain ip i (id ∷ ids) pip (one, all) =
    (memo-Plain ip i id pip one, memos-Plain ip (i + 1) ids pip all)

-- If neither the address nor an id has a comma, and there is a node, the persistent peers are read
-- back by their commas: they are the memos of all nodes, in their order, each with the port of its node.
pub split-persistent_peers :
    (ip id : Bytes) (ids : List Bytes)
    → Plain ip
    → Plain id
    → All Plain ids
    → split (persistent_peers ip (id ∷ ids)) ≡ memos ip 0 (id ∷ ids)
unfolding persistent_peers peers_loop add_peer memos bytes_eq
split-persistent_peers ip id ids pip one all =
    ap split (peers_loop-tails ip 1 ids (memo ip 0 id) (memo_text ip 0 id))
    ∙ split-tails (memo ip 0 id) (memos ip 1 ids) (memo-Plain ip 0 id pip one)
        (memos-Plain ip 1 ids pip all)
