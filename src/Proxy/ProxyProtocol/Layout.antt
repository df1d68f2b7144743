-- ===== src/Proxy/ProxyProtocol/Layout.antt =====
-- The header's size, its length field, and that it is made of bytes.
use oxiduct.Base.{ℕ, ◌+◌, ◌<◌, ◌^◌, ◌≡◌, refl, List, ◌++◌, arith, length, take, drop, All}
use oxiduct.Net.{
  IpAddr, v4, v6, SocketAddr, to_be_bytes, to_canonical, to_canonical-IsIp, IsIp, IsSocketAddr,
}
use oxiduct.Base.Words.{u16_mod}
use oxiduct.Proxy.ProxyProtocol.{signature, v2_header, after_signature}

-- The size of the address block.
abbrev pub block : IpAddr → IpAddr → ℕ
block (v4 s) (v4 d) = 12
block (v6 s) (v6 d) = 36
block _ _ = 0

abbrev pub IsByte : ℕ → Type 0
IsByte b = b < 2 ^ 8

abbrev pub Layout : List ℕ → ℕ → Type 0
Layout header n =
    (length header ≡ 16 + n) × (drop 14 (take 16 header) ≡ to_be_bytes n) × All IsByte header

after_signature-Layout :
    (s d : IpAddr) (src_port dst_port : ℕ)
    → IsIp s
    → IsIp d
    → src_port < u16_mod
    → dst_port < u16_mod
    → Layout (signature ++ after_signature s d src_port dst_port) (block s d)
unfolding after_signature
after_signature-Layout (v4 s) (v4 d) src_port dst_port hs hd p q = (refl, refl, omega arith)
after_signature-Layout (v6 s) (v6 d) src_port dst_port hs hd p q = (refl, refl, omega arith)
after_signature-Layout s d src_port dst_port hs hd p q = (refl, refl, omega arith)

-- The header of two socket addresses in range is 16 bytes and an address block of 12, 36 or 0 bytes
-- by the family that both share, its two length bytes hold the size of that block, and every
-- element is a byte.
pub v2_header-Layout :
    (src dst : SocketAddr)
    → IsSocketAddr src
    → IsSocketAddr dst
    → Layout (v2_header src dst) (block (to_canonical src.ip) (to_canonical dst.ip))
unfolding v2_header
v2_header-Layout src dst hs hd =
    after_signature-Layout _ _ _ _ (to_canonical-IsIp _ hs.ip) (to_canonical-IsIp _ hd.ip) hs.port
      hd.port
