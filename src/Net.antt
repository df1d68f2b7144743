-- ===== src/Net.antt =====
-- The addresses of `std::net` that the proxy handles: IP addresses by their octets or segments,
-- socket addresses, and the collapse of IPv4-mapped IPv6 addresses.
use oxiduct.Base.{
  ℕ, ◌/◌, ◌%◌, ◌^◌, ◌<◌, ◌≡◌, refl, inl, inr, Bool, ◌&&◌, List, [], ◌∷◌, ◌++◌, arith, ℕ_discrete,
  ◌==◌, if◌then◌else◌, Bool-cases,
}
use oxiduct.Base.Words.{u16_mod}

pub record Ipv4Addr : Type 0 where
  pub a : ℕ
  pub b : ℕ
  pub c : ℕ
  pub d : ℕ

-- Eight 16-bit segments.
pub record Ipv6Addr : Type 0 where
  pub s0 : ℕ
  pub s1 : ℕ
  pub s2 : ℕ
  pub s3 : ℕ
  pub s4 : ℕ
  pub s5 : ℕ
  pub s6 : ℕ
  pub s7 : ℕ

pub data IpAddr : Type 0 where
  v4 : Ipv4Addr → IpAddr
  v6 : Ipv6Addr → IpAddr

pub record SocketAddr : Type 0 where
  pub ip : IpAddr
  pub port : ℕ

unfoldable pub IpAddr-discrete : Discrete IpAddr
unfolding ℕ_discrete
IpAddr-discrete = hlevel ℕ_discrete

unfoldable pub SocketAddr-discrete : Discrete SocketAddr
unfolding ℕ_discrete
SocketAddr-discrete = hlevel ℕ_discrete

abbrev pub octets_v4 : Ipv4Addr → List ℕ
octets_v4 x = x.a ∷ x.b ∷ x.c ∷ x.d ∷ []

-- `u16::to_be_bytes`.
abbrev pub to_be_bytes : ℕ → List ℕ
to_be_bytes x = x / 256 % 256 ∷ x % 256 ∷ []

abbrev pub octets_v6 : Ipv6Addr → List ℕ
octets_v6 x =
    to_be_bytes x.s0
    ++ to_be_bytes x.s1
    ++ to_be_bytes x.s2
    ++ to_be_bytes x.s3
    ++ to_be_bytes x.s4
    ++ to_be_bytes x.s5
    ++ to_be_bytes x.s6
    ++ to_be_bytes x.s7

-- `::ffff:a.b.c.d`.
abbrev pub is_v4_mapped : Ipv6Addr → Bool
is_v4_mapped x = x.s0 == 0 && x.s1 == 0 && x.s2 == 0 && x.s3 == 0 && x.s4 == 0 && x.s5 == 0xffff

-- `IpAddr::to_canonical`.
unfoldable pub to_canonical : IpAddr → IpAddr
to_canonical (v4 x) = v4 x
to_canonical (v6 x) =
    if is_v4_mapped x
    then v4 (record { a = x.s6 / 256 % 256; b = x.s6 % 256; c = x.s7 / 256 % 256; d = x.s7 % 256 })
    else v6 x

-- Octets below 2^8, segments and ports below 2^16.
pub record IsIpv4 (x : Ipv4Addr) : Type 0 where
  pub a : x.a < 2 ^ 8
  pub b : x.b < 2 ^ 8
  pub c : x.c < 2 ^ 8
  pub d : x.d < 2 ^ 8

pub record IsIpv6 (x : Ipv6Addr) : Type 0 where
  pub s0 : x.s0 < u16_mod
  pub s1 : x.s1 < u16_mod
  pub s2 : x.s2 < u16_mod
  pub s3 : x.s3 < u16_mod
  pub s4 : x.s4 < u16_mod
  pub s5 : x.s5 < u16_mod
  pub s6 : x.s6 < u16_mod
  pub s7 : x.s7 < u16_mod

abbrev pub IsIp : IpAddr → Type 0
IsIp (v4 x) = IsIpv4 x
IsIp (v6 x) = IsIpv6 x

pub record IsSocketAddr (x : SocketAddr) : Type 0 where
  pub ip : IsIp x.ip
  pub port : x.port < u16_mod

pub to_canonical-IsIp : (x : IpAddr) → IsIp x → IsIp (to_canonical x)
unfolding to_canonical
to_canonical-IsIp (v4 x) h = h
to_canonical-IsIp (v6 x) h = elim (Bool-cases (is_v4_mapped x)) [
  | inl mapped ↦ rw mapped (omega arith)
  | inr plain ↦ rw plain h
]

pub to_canonical-to_canonical : (x : IpAddr) → to_canonical (to_canonical x) ≡ to_canonical x
unfolding to_canonical
to_canonical-to_canonical (v4 x) = refl
to_canonical-to_canonical (v6 x) = elim (Bool-cases (is_v4_mapped x)) [
  | inl mapped ↦ rw (mapped, to_canonical)
  | inr plain ↦ rw (plain, to_canonical) (rw plain)
]
