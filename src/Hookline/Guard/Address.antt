-- ===== src/Hookline/Guard/Address.antt =====
-- hookline/src/guard.rs: IP addresses, and why one is not a place to send a webhook to.
-- The tests of the standard library on addresses are written out by their documented ranges.
use Prim.Native.String.{String}
use aiiiia.Prelude.{
  ℕ, ◌*◌, ◌/◌, ◌^◌, ◌%◌, Option, none, some, Bool, ◌&&◌, ◌||◌, if◌then◌else◌, ltb, leb, ◌==◌,
}

-- Four octets.
pub record Ipv4Addr : Type 0 where
  pub a : ℕ
  pub b : ℕ
  pub c : ℕ
  pub d : ℕ

-- Eight segments of 16 bits.
pub record Ipv6Addr : Type 0 where
  pub s0 : ℕ
  pub s1 : ℕ
  pub s2 : ℕ
  pub s3 : ℕ
  pub s4 : ℕ
  pub s5 : ℕ
  pub s6 : ℕ
  pub s7 : ℕ

pub data IpAddr : Type 0 where
  v4 : Ipv4Addr → IpAddr
  v6 : Ipv6Addr → IpAddr

unfoldable pub is_unspecified_v4 : Ipv4Addr → Bool
is_unspecified_v4 ip = ip.a == 0 && (ip.b == 0 && (ip.c == 0 && ip.d == 0))

unfoldable pub is_loopback_v4 : Ipv4Addr → Bool
is_loopback_v4 ip = ip.a == 127

unfoldable pub is_link_local_v4 : Ipv4Addr → Bool
is_link_local_v4 ip = ip.a == 169 && ip.b == 254

unfoldable pub is_private_v4 : Ipv4Addr → Bool
is_private_v4 ip =
    ip.a == 10 || ((ip.a == 172 && (leb 16 ip.b && leb ip.b 31)) || (ip.a == 192 && ip.b == 168))

unfoldable pub is_broadcast_v4 : Ipv4Addr → Bool
is_broadcast_v4 ip = ip.a == 255 && (ip.b == 255 && (ip.c == 255 && ip.d == 255))

unfoldable pub is_multicast_v4 : Ipv4Addr → Bool
is_multicast_v4 ip = leb 224 ip.a && leb ip.a 239

unfoldable pub is_documentation_v4 : Ipv4Addr → Bool
is_documentation_v4 ip =
    (ip.a == 192 && (ip.b == 0 && ip.c == 2))
    || ((ip.a == 198 && (ip.b == 51 && ip.c == 100)) || (ip.a == 203 && (ip.b == 0 && ip.c == 113)))

unfoldable pub forbidden_v4 : Ipv4Addr → Option String
forbidden_v4 ip =
    if is_unspecified_v4 ip
    then some "the unspecified address"
    else if is_loopback_v4 ip
    then some "loopback"
    else if is_link_local_v4 ip
    then some "link-local, where cloud metadata lives"
    else if is_private_v4 ip
    then some "a private network"
    else if is_broadcast_v4 ip
    then some "the broadcast address"
    else if is_multicast_v4 ip
    then some "multicast"
    else if is_documentation_v4 ip
    then some "reserved for documentation"
    else if ip.a == 100 && (leb 64 ip.b && ltb ip.b 128)
    then some "carrier-grade NAT space"
    else if ip.a == 192 && (ip.b == 0 && ip.c == 0)
    then some "reserved for IETF protocol assignments"
    else if ip.a == 192 && (ip.b == 88 && ip.c == 99)
    then some "the deprecated 6to4 relay range"
    else if ip.a == 198 && (ip.b == 18 || ip.b == 19)
    then some "reserved for benchmarking"
    else if leb 240 ip.a
    then some "reserved"
    else none

-- `x & m` for the mask that clears the low `k` bits of a segment.
abbrev pub clear_low : ℕ → ℕ → ℕ
clear_low x k = x / 2 ^ k * 2 ^ k

pub all_zero_to_s6 : Ipv6Addr → Bool
all_zero_to_s6 ip =
    ip.s0 == 0
    && (ip.s1 == 0 && (ip.s2 == 0 && (ip.s3 == 0 && (ip.s4 == 0 && (ip.s5 == 0 && ip.s6 == 0)))))

pub is_unspecified_v6 : Ipv6Addr → Bool
unfolding all_zero_to_s6
is_unspecified_v6 ip = all_zero_to_s6 ip && ip.s7 == 0

pub is_loopback_v6 : Ipv6Addr → Bool
unfolding all_zero_to_s6
is_loopback_v6 ip = all_zero_to_s6 ip && ip.s7 == 1

unfoldable pub is_multicast_v6 : Ipv6Addr → Bool
is_multicast_v6 ip = clear_low ip.s0 8 == 0xff00

unfoldable pub forbidden_v6 : Ipv6Addr → Option String
unfolding is_unspecified_v6 is_loopback_v6 is_multicast_v6
forbidden_v6 ip =
    if is_unspecified_v6 ip
    then some "the unspecified address"
    else if is_loopback_v6 ip
    then some "loopback"
    else if is_multicast_v6 ip
    then some "multicast"
    else if clear_low ip.s0 9 == 0xfc00
    then some "a unique local address"
    else if clear_low ip.s0 6 == 0xfe80
    then some "link-local"
    else if ip.s0 == 0x2001 && ip.s1 == 0x0db8
    then some "reserved for documentation"
    else if ip.s0 == 0x0100 && (ip.s1 == 0 && (ip.s2 == 0 && ip.s3 == 0))
    then some "the discard-only range"
    else if ip.s0 == 0x0064 && ip.s1 == 0xff9b
    then some "the NAT64 prefix"
    else none

unfoldable pub is_mapped : Ipv6Addr → Bool
is_mapped ip =
    ip.s0 == 0 && (ip.s1 == 0 && (ip.s2 == 0 && (ip.s3 == 0 && (ip.s4 == 0 && ip.s5 == 0xffff))))

-- `(s[6] >> 8) as u8`, `(s[6] & 0xff) as u8` and so for s[7]
unfoldable pub to_ipv4_mapped : Ipv6Addr → Option Ipv4Addr
unfolding is_mapped
to_ipv4_mapped ip =
    if is_mapped ip
    then some (record {
      a = ip.s6 / 2 ^ 8 % 2 ^ 8;
      b = ip.s6 % 2 ^ 8;
      c = ip.s7 / 2 ^ 8 % 2 ^ 8;
      d = ip.s7 % 2 ^ 8;
    })
    else none

unfoldable pub forbidden : IpAddr → Option String
forbidden (v4 ip) = forbidden_v4 ip
forbidden (v6 ip) = elim (to_ipv4_mapped ip) [
  | some ip4 ↦ forbidden_v4 ip4
  | none ↦ forbidden_v6 ip
]
