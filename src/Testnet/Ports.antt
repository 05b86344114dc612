-- ===== src/Testnet/Ports.antt =====
-- No two servers of a testnet share a port, as long as all ports are positive.
use pointpay_chain.Prelude.{ℕ, ◌+◌, ◌-◌, ◌*◌, ◌<◌, ◌≡◌, refl, ap, sym, ◌∙◌, arith}
use pointpay_chain.Prelude.Int.{pos, pos_part, ◌<ℤ◌}
use pointpay_chain.Testnet.{Service, rpc, p2p, proxy, prometheus, grpc, api, port}

-- The port as a natural number.
abbrev number : Service → ℕ → ℕ
number rpc i = 26657 - 3 * i
number p2p i = 26656 - 3 * i
number proxy i = 26658 - 3 * i
number prometheus i = 26660 + i
number grpc i = 9090 - 2 * i
number api i = 1317 - i

port-number : (s : Service) (i : ℕ) → i < 1317 → port s i ≡ pos (number s i)
unfolding port
port-number rpc i h = ground arith
port-number p2p i h = ground arith
port-number proxy i h = ground arith
port-number prometheus i h = ground arith
port-number grpc i h = ground arith
port-number api i h = ground arith

same_number :
    (a b : Service) (i j : ℕ) → i < 1317 → j < 1317 → number a i ≡ number b j → (a ≡ b) × (i ≡ j)
same_number rpc rpc i j hi hj e = (refl, omega arith)
same_number rpc p2p i j hi hj e = absurd (omega arith)
same_number rpc proxy i j hi hj e = absurd (omega arith)
same_number rpc prometheus i j hi hj e = absurd (omega arith)
same_number rpc grpc i j hi hj e = absurd (omega arith)
same_number rpc api i j hi hj e = absurd (omega arith)
same_number p2p rpc i j hi hj e = absurd (omega arith)
same_number p2p p2p i j hi hj e = (refl, omega arith)
same_number p2p proxy i j hi hj e = absurd (omega arith)
same_number p2p prometheus i j hi hj e = absurd (omega arith)
same_number p2p grpc i j hi hj e = absurd (omega arith)
same_number p2p api i j hi hj e = absurd (omega arith)
same_number proxy rpc i j hi hj e = absurd (omega arith)
same_number proxy p2p i j hi hj e = absurd (omega arith)
same_number proxy proxy i j hi hj e = (refl, omega arith)
same_number proxy prometheus i j hi hj e = absurd (omega arith)
same_number proxy grpc i j hi hj e = absurd (omega arith)
same_number proxy api i j hi hj e = absurd (omega arith)
same_number prometheus rpc i j hi hj e = absurd (omega arith)
same_number prometheus p2p i j hi hj e = absurd (omega arith)
same_number prometheus proxy i j hi hj e = absurd (omega arith)
same_number prometheus prometheus i j hi hj e = (refl, omega arith)
same_number prometheus grpc i j hi hj e = absurd (omega arith)
same_number prometheus api i j hi hj e = absurd (omega arith)
same_number grpc rpc i j hi hj e = absurd (omega arith)
same_number grpc p2p i j hi hj e = absurd (omega arith)
same_number grpc proxy i j hi hj e = absurd (omega arith)
same_number grpc prometheus i j hi hj e = absurd (omega arith)
same_number grpc grpc i j hi hj e = (refl, omega arith)
same_number grpc api i j hi hj e = absurd (omega arith)
same_number api rpc i j hi hj e = absurd (omega arith)
same_number api p2p i j hi hj e = absurd (omega arith)
same_number api proxy i j hi hj e = absurd (omega arith)
same_number api prometheus i j hi hj e = absurd (omega arith)
same_number api grpc i j hi hj e = absurd (omega arith)
same_number api api i j hi hj e = (refl, omega arith)

positive : (s : Service) (i : ℕ) → i < 1317 → 0 < number s i
positive rpc i h = omega arith
positive p2p i h = omega arith
positive proxy i h = omega arith
positive prometheus i h = omega arith
positive grpc i h = omega arith
positive api i h = omega arith

-- For up to 1317 validators every port is positive.
pub port_positive : (s : Service) (i : ℕ) → i < 1317 → pos 0 <ℤ port s i
port_positive s i h = rw (port-number s i h) (ground (arith, positive s i h))

-- With the default ports and up to 1317 validators, two servers with one port are one service of
-- one node.
pub port_injective :
    (a b : Service) (i j : ℕ) → i < 1317 → j < 1317 → port a i ≡ port b j → (a ≡ b) × (i ≡ j)
port_injective a b i j hi hj e =
    same_number a b i j hi hj (ap pos_part (sym (port-number a i hi) ∙ e ∙ port-number b j hj))
