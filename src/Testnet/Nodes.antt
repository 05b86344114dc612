-- ===== src/Testnet/Nodes.antt =====
-- What `initTestnetFiles` and its caller of pointpay/cmd/pointpayd/cmd/testnet_multi_node.go compute for
-- the nodes: the ports of the RPC servers, the memos and the persistent peers, and a random chain id.
-- Writing files, keys and transactions is left out.
pub mod Peers
pub mod Random
pub mod RpcPorts
pub mod Decimal
mod Tests
use pointpay_chain.Prelude.{
  ℕ, zero, suc, ◌+◌, ◌*◌, ◌/◌, ◌%◌, List, [], ◌∷◌, ◌++◌, Option, none, some, Outcome, ok, panic,
  ◌>>=◌, ltb, if◌then◌else◌,
}
use pointpay_chain.Prelude.Text.{Bytes, codes, bytes_eq}
use pointpay_chain.Prelude.Int.{ℤ, pos, negsuc}
use pointpay_chain.Testnet.{NoError, split, p2p, rpc, port}

-- `strconv.Itoa`: an int has at most twenty digits.
unfoldable pub digits : ℕ → ℕ → Bytes → Bytes
digits zero n written = written
digits (suc room) n written =
    let here = (b'0' + n % 10) ∷ written in
    let more = digits room (n / 10) here in if ltb n 10 then here else more

unfoldable pub decimal : ℤ → Bytes
decimal (pos n) = digits 20 n []
decimal (negsuc n) = b'-' ∷ digits 20 (n + 1) []

-- `fmt.Sprintf("%s@%s:"+strconv.Itoa(26656-3*i), nodeIDs[i], args.startingIPAddress)`
unfoldable pub memo : Bytes → ℕ → Bytes → Bytes
memo ip i id = id ++ (codes "@" ++ (ip ++ (codes ":" ++ decimal (port p2p i))))

-- The memos of nodes with these ids, from node `i` on.
unfoldable pub memos : Bytes → ℕ → List Bytes → List Bytes
memos ip i [] = []
memos ip i (id ∷ ids) = memo ip i id ∷ memos ip (i + 1) ids

unfoldable pub add_peer : Bytes → Bytes → Bytes
add_peer peers m = if bytes_eq peers [] then m else peers ++ (codes "," ++ m)

-- The loop over the nodes, for `persistentPeers`.
unfoldable pub peers_loop : Bytes → ℕ → List Bytes → Bytes → Bytes
peers_loop ip i [] peers = peers
peers_loop ip i (id ∷ ids) peers = peers_loop ip (i + 1) ids (add_peer peers (memo ip i id))

unfoldable pub persistent_peers : Bytes → List Bytes → Bytes
persistent_peers ip ids = peers_loop ip 0 ids []

-- A Go map from int to string, and `ports[top] = port; top += 1`.
unfoldable pub default_ports : ℕ → ℕ → List (ℕ × Bytes) → List (ℕ × Bytes)
default_ports top zero ports = ports
default_ports top (suc n) ports = default_ports (top + 1) n ((top, decimal (port rpc top)) ∷ ports)

unfoldable pub listed_ports : ℕ → List Bytes → List (ℕ × Bytes) → List (ℕ × Bytes)
listed_ports top [] ports = ports
listed_ports top (p ∷ ps) ports = listed_ports (top + 1) ps ((top, p) ∷ ports)

-- The ports for the text of the flag, which is defined, and the number of validators.
unfoldable pub read_ports : Bytes → ℕ → List (ℕ × Bytes)
read_ports s num_validators =
    if bytes_eq s [] then default_ports 0 num_validators [] else listed_ports 0 (split s) []

-- `generateRandomString`, with `Intn` of the random numbers as a parameter.
abbrev pub charset : Bytes
charset = codes "abcdefghijklmnopqrstuvwxyz0123456789"

-- `charset[k]`, which panics out of range.
unfoldable pub at : Bytes → ℕ → Outcome NoError ℕ
at [] k = panic
at (c ∷ cs) zero = ok c
at (c ∷ cs) (suc k) = at cs k

module _ {Rand : Type 0} (intn : ℕ → Rand → ℕ × Rand) where
  unfoldable pub generate_random_string : ℕ → Rand → Outcome NoError Bytes
  generate_random_string zero r = ok []
  generate_random_string (suc n) r = do
    c ← at charset (intn 36 r).0
    rest ← generate_random_string n (intn 36 r).1
    ok (c ∷ rest)

  -- The chain id, of which an empty one is made anew.
  unfoldable pub chain_id : Bytes → Rand → Outcome NoError Bytes
  chain_id given r =
      let made = generate_random_string 6 r in
      if bytes_eq given [] then (do s ← made; ok (codes "chain-" ++ s)) else ok given
