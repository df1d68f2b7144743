-- ===== src/Proxy/ProxyProtocol.antt =====
-- src/proxy/proxy_protocol.rs: the PROXY protocol v2 header, as a list of bytes.
pub mod Decode
mod Tests
pub mod Layout
use oxiduct.Base.{ℕ, List, [], ◌∷◌, ◌++◌}
use oxiduct.Net.{IpAddr, v4, v6, SocketAddr, octets_v4, octets_v6, to_be_bytes, to_canonical}

abbrev pub signature : List ℕ
signature = 0x0D ∷ 0x0A ∷ 0x0D ∷ 0x0A ∷ 0x00 ∷ 0x0D ∷ 0x0A ∷ 0x51 ∷ 0x55 ∷ 0x49 ∷ 0x54 ∷ 0x0A ∷ []

abbrev pub ver_cmd_proxy : ℕ
ver_cmd_proxy = 0x21

abbrev pub ver_cmd_local : ℕ
ver_cmd_local = 0x20

abbrev pub tp_tcp4 : ℕ
tp_tcp4 = 0x11

abbrev pub tp_tcp6 : ℕ
tp_tcp6 = 0x21

abbrev pub tp_unspec : ℕ
tp_unspec = 0x00

-- The `match` on the two canonical addresses; the ports are those of the socket addresses.
unfoldable pub after_signature : IpAddr → IpAddr → (src_port dst_port : ℕ) → List ℕ
after_signature (v4 s) (v4 d) src_port dst_port =
    ver_cmd_proxy ∷ tp_tcp4 ∷ to_be_bytes 12
    ++ (octets_v4 s ++ (octets_v4 d ++ (to_be_bytes src_port ++ to_be_bytes dst_port)))
after_signature (v6 s) (v6 d) src_port dst_port =
    ver_cmd_proxy ∷ tp_tcp6 ∷ to_be_bytes 36
    ++ (octets_v6 s ++ (octets_v6 d ++ (to_be_bytes src_port ++ to_be_bytes dst_port)))
after_signature _ _ src_port dst_port = ver_cmd_local ∷ tp_unspec ∷ to_be_bytes 0

unfoldable pub v2_header : SocketAddr → SocketAddr → List ℕ
unfolding after_signature
v2_header src dst =
    signature ++ after_signature (to_canonical src.ip) (to_canonical dst.ip) src.port dst.port
