-- ===== src/Proxy/ProxyProtocol/Tests.antt =====
-- Headers at concrete addresses, after the unit tests of src/proxy/proxy_protocol.rs.
use oxiduct.Base.{◌≡◌, ◌+◌, ◌++◌, refl, [], ◌∷◌, some, arith, length, drop}
use oxiduct.Net.{Ipv6Addr, SocketAddr, v4, v6, to_canonical, IsSocketAddr}
use oxiduct.Proxy.ProxyProtocol.{v2_header}
use oxiduct.Proxy.ProxyProtocol.Decode.{decode, decode-v2_header, announced}
use oxiduct.Proxy.ProxyProtocol.Layout.{v2_header-Layout}

abbrev client : SocketAddr
client = record { ip = v4 (record { a = 192; b = 0; c = 2; d = 1 }); port = 51000 }

abbrev server : SocketAddr
server = record { ip = v4 (record { a = 198; b = 51; c = 100; d = 2 }); port = 25 }

-- ::ffff:192.0.2.1
abbrev mapped : SocketAddr
mapped = record {
  ip =
      v6 (record { s0 = 0; s1 = 0; s2 = 0; s3 = 0; s4 = 0; s5 = 0xffff; s6 = 0xc000; s7 = 0x0201 });
  port = 51000;
}

client-IsSocketAddr : IsSocketAddr client
client-IsSocketAddr = omega arith

server-IsSocketAddr : IsSocketAddr server
server-IsSocketAddr = omega arith

ipv4_layout_is_exact :
    drop 12 (v2_header client server)
    ≡ 0x21 ∷ 0x11 ∷ 0 ∷ 12 ∷ 192 ∷ 0 ∷ 2 ∷ 1 ∷ 198 ∷ 51 ∷ 100 ∷ 2 ∷ 199 ∷ 56 ∷ 0 ∷ 25 ∷ []
unfolding v2_header to_canonical
ipv4_layout_is_exact = refl

ipv4_mapped_v6_collapses_to_v4 : v2_header mapped server ≡ v2_header client server
unfolding v2_header to_canonical
ipv4_mapped_v6_collapses_to_v4 = refl

family_mismatch_emits_local :
    (s : Ipv6Addr)
    → s.s0 ≡ 0x2001
    → drop 12 (v2_header (record { ip = v6 s; port = 1234 }) server) ≡ 0x20 ∷ 0 ∷ 0 ∷ 0 ∷ []
unfolding v2_header to_canonical
family_mismatch_emits_local s h = ground arith

decode-v2_header_example :
    decode (v2_header client server ++ 71 ∷ 69 ∷ []) ≡ some (announced client server, 71 ∷ 69 ∷ [])
unfolding to_canonical
decode-v2_header_example =
    decode-v2_header client server (71 ∷ 69 ∷ []) client-IsSocketAddr server-IsSocketAddr

v2_header-Layout_example : length (v2_header client server) ≡ 16 + 12
unfolding to_canonical
v2_header-Layout_example =
    (v2_header-Layout client server client-IsSocketAddr server-IsSocketAddr).0
