-- ===== src/Testnet/Nodes/Tests.antt =====
-- The theorems on the nodes of a testnet at concrete inputs.
use pointpay_chain.Prelude.{ℕ, ◌≡◌, refl, true, [], ◌∷◌, All, none, ok, length}
use pointpay_chain.Prelude.Text.{Bytes, codes, bytes_eq}
use pointpay_chain.Testnet.{split, lookup, onto_first}
use pointpay_chain.Testnet.Nodes.{memos, persistent_peers, read_ports, generate_random_string}
use pointpay_chain.Testnet.Nodes.Peers.{split-persistent_peers}
use pointpay_chain.Testnet.Nodes.RpcPorts.{lookup-read_ports}
use pointpay_chain.Testnet.Nodes.Random.{alphanumeric, generate_random_string_lem}

-- Two nodes.
split-persistent_peers_example :
    split (persistent_peers (codes "ip") (codes "a1" ∷ codes "b2" ∷ []))
    ≡ memos (codes "ip") 0 (codes "a1" ∷ codes "b2" ∷ [])
split-persistent_peers_example =
    split-persistent_peers (codes "ip") (codes "a1") (codes "b2" ∷ []) (refl, (refl, tt))
      (refl, (refl, tt)) ((refl, (refl, tt)), tt)

-- Two ports for four nodes: the third node has none.
lookup-read_ports_example : lookup 2 (read_ports (codes "47222,50434") 4) ≡ none
unfolding bytes_eq split onto_first
lookup-read_ports_example = lookup-read_ports (codes "47222,50434") 4 2

-- Random numbers that are zero.
generate_random_string_lem_example :
    (s : Bytes) × (generate_random_string {Rand = ℕ} (λ n r. (0, r)) 6 1 ≡ ok s)
    × (length s ≡ 6)
    × All (λ c. alphanumeric c ≡ true) s
generate_random_string_lem_example =
    generate_random_string_lem {Rand = ℕ} (λ n r. (0, r)) (λ n r h. h) 6 1
