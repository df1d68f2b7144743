-- ===== src/Proxy/ProxyProtocol/Decode.antt =====
-- What a receiver of the header reads, after the PROXY protocol's document and not after the code:
-- the signature, a version with a command, a family, a length, and that many bytes of addresses.
-- Bytes after the header are the connection's own.
use oxiduct.Base.{
  ℕ, ◌+◌, ◌*◌, ◌/◌, ◌%◌, ◌<◌, ◌≡◌, refl, List, [], ◌∷◌, ◌++◌, Option, none, some, arith, ◌==◌, ◌&&◌,
  if◌then◌else◌,
}
use oxiduct.Net.{
  IpAddr, v4, v6, Ipv6Addr, SocketAddr, to_canonical, to_canonical-IsIp, IsIp, IsIpv6, IsSocketAddr,
}
use oxiduct.Base.Words.{u16_mod}
use oxiduct.Proxy.ProxyProtocol.{signature, v2_header, after_signature}

-- What a header says of the connection's ends.
pub data Ends : Type 0 where
  -- Nothing: the receiver keeps the real peer.
  unannounced : Ends
  announced : (src dst : SocketAddr) → Ends

-- A reader takes bytes off the front, or fails.
abbrev Reader : Type 0 → Type 0
Reader A = List ℕ → Option (A × List ℕ)

infixl 5 ◌>>=◌ ◌>>◌
abbrev ◌>>=◌ : {A B : Type 0} → Reader A → (A → Reader B) → Reader B
◌>>=◌ m f bytes = elim (m bytes) [ none ↦ none | some (a, rest) ↦ f a rest ]

abbrev ◌>>◌ : {B : Type 0} → Reader (Unit {0}) → Reader B → Reader B
m >> k = m >>= λ _. k

abbrev done : {A : Type 0} → A → Reader A
done a bytes = some (a, bytes)

abbrev fail : {A : Type 0} → Reader A
fail bytes = none

abbrev byte : Reader ℕ
byte [] = none
byte (b ∷ rest) = some (b, rest)

abbrev expect : ℕ → Reader (Unit {0})
expect b = do c ← byte; if c == b then done tt else fail

abbrev be16 : Reader ℕ
be16 = do hi ← byte; lo ← byte; done (256 * hi + lo)

abbrev ipv4 : Reader IpAddr
ipv4 = do a ← byte; b ← byte; c ← byte; d ← byte; done (v4 (record { a = a; b = b; c = c; d = d }))

abbrev ipv6 : Reader IpAddr
ipv6 = do
  s0 ← be16
  s1 ← be16
  s2 ← be16
  s3 ← be16
  s4 ← be16
  s5 ← be16
  s6 ← be16
  s7 ← be16
  done (v6 (record { s0 = s0; s1 = s1; s2 = s2; s3 = s3; s4 = s4; s5 = s5; s6 = s6; s7 = s7 }))

abbrev ends : Reader IpAddr → Reader Ends
ends ip = do
  src ← ip
  dst ← ip
  src_port ← be16
  dst_port ← be16
  done (announced (record { ip = src; port = src_port }) (record { ip = dst; port = dst_port }))

abbrev magic : Reader (Unit {0})
magic = do
  expect 0x0D
  expect 0x0A
  expect 0x0D
  expect 0x0A
  expect 0x00
  expect 0x0D
  expect 0x0A
  expect 0x51
  expect 0x55
  expect 0x49
  expect 0x54
  expect 0x0A

-- Commands LOCAL and PROXY of version 2; families TCP over IPv4 and IPv6 with their lengths.
abbrev body : ℕ → ℕ → ℕ → Reader Ends
body command family length =
    if command == 0x20 && length == 0
    then done unannounced
    else if command == 0x21 && (family == 0x11 && length == 12)
    then ends ipv4
    else if command == 0x21 && (family == 0x21 && length == 36)
    then ends ipv6
    else fail

unfoldable pub decode : Reader Ends
decode = do magic; command ← byte; family ← byte; length ← be16; body command family length

-- What the proxy means to announce: canonical addresses of one family, or nothing.
abbrev pub meant : IpAddr → IpAddr → (src_port dst_port : ℕ) → Ends
meant (v4 s) (v4 d) src_port dst_port =
    announced (record { ip = v4 s; port = src_port }) (record { ip = v4 d; port = dst_port })
meant (v6 s) (v6 d) src_port dst_port =
    announced (record { ip = v6 s; port = src_port }) (record { ip = v6 d; port = dst_port })
meant _ _ src_port dst_port = unannounced

be16_lem : (x : ℕ) → x < u16_mod → 256 * (x / 256 % 256) + x % 256 ≡ x
be16_lem x h = omega arith

-- The segments read back from the octets.
abbrev rejoined : Ipv6Addr → Ipv6Addr
rejoined x = record {
  s0 = 256 * (x.s0 / 256 % 256) + x.s0 % 256;
  s1 = 256 * (x.s1 / 256 % 256) + x.s1 % 256;
  s2 = 256 * (x.s2 / 256 % 256) + x.s2 % 256;
  s3 = 256 * (x.s3 / 256 % 256) + x.s3 % 256;
  s4 = 256 * (x.s4 / 256 % 256) + x.s4 % 256;
  s5 = 256 * (x.s5 / 256 % 256) + x.s5 % 256;
  s6 = 256 * (x.s6 / 256 % 256) + x.s6 % 256;
  s7 = 256 * (x.s7 / 256 % 256) + x.s7 % 256;
}

rejoined_lem : (x : Ipv6Addr) → IsIpv6 x → rejoined x ≡ x
rejoined_lem x h = ground (
  arith,
  be16_lem x.s0 h.s0,
  be16_lem x.s1 h.s1,
  be16_lem x.s2 h.s2,
  be16_lem x.s3 h.s3,
  be16_lem x.s4 h.s4,
  be16_lem x.s5 h.s5,
  be16_lem x.s6 h.s6,
  be16_lem x.s7 h.s7,
)

decode-after_signature :
    (s d : IpAddr) (src_port dst_port : ℕ) (payload : List ℕ)
    → IsIp s
    → IsIp d
    → src_port < u16_mod
    → dst_port < u16_mod
    → decode (signature ++ after_signature s d src_port dst_port ++ payload)
      ≡ some (meant s d src_port dst_port, payload)
unfolding decode after_signature
decode-after_signature (v4 s) (v4 d) src_port dst_port payload hs hd p q =
    ground (arith, be16_lem src_port, be16_lem dst_port)
decode-after_signature (v6 s) (v6 d) src_port dst_port payload hs hd p q =
    cc (rejoined_lem s hs, rejoined_lem d hd, be16_lem src_port p, be16_lem dst_port q)
decode-after_signature s d src_port dst_port payload hs hd p q = refl

-- Whatever follows it on the connection, a receiver reads from the header the canonical addresses
-- and the ports of both ends when those addresses are of one family, and nothing otherwise, and
-- finds the payload behind it untouched. (For socket addresses whose octets, segments and ports are
-- in range.)
pub decode-v2_header :
    (src dst : SocketAddr) (payload : List ℕ)
    → IsSocketAddr src
    → IsSocketAddr dst
    → decode (v2_header src dst ++ payload)
      ≡ some (meant (to_canonical src.ip) (to_canonical dst.ip) src.port dst.port, payload)
unfolding v2_header
decode-v2_header src dst payload hs hd =
    decode-after_signature _ _ _ _ payload (to_canonical-IsIp _ hs.ip) (to_canonical-IsIp _ hd.ip)
      hs.port hd.port
