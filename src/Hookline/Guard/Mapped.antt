-- ===== src/Hookline/Guard/Mapped.antt =====
-- hookline/src/guard.rs: IPv4 addresses inside IPv6 addresses.
use aiiiia.Prelude.{◌+◌, ◌*◌, ◌^◌, ◌<◌, ◌≡◌, ◌↔◌, ◌⊎◌, none, some, false, arith}
use aiiiia.Hookline.Guard.Address.{Ipv4Addr, Ipv6Addr, v6, to_ipv4_mapped, forbidden_v6, forbidden}
use aiiiia.Hookline.Guard.Ranges.{IsOctets, number, reserved, forbidden_v4-blocked}

pub record IsSegments (ip : Ipv6Addr) : Type 0 where
  pub s6_segment : ip.s6 < 2 ^ 16
  pub s7_segment : ip.s7 < 2 ^ 16

-- `::ffff:a.b.c.d`
abbrev pub mapped : Ipv4Addr → Ipv6Addr
mapped ip = record {
  s0 = 0;
  s1 = 0;
  s2 = 0;
  s3 = 0;
  s4 = 0;
  s5 = 0xffff;
  s6 = ip.a * 256 + ip.b;
  s7 = ip.c * 256 + ip.d;
}

-- `::a.b.c.d`
abbrev pub compatible : Ipv4Addr → Ipv6Addr
compatible ip = record {
  s0 = 0;
  s1 = 0;
  s2 = 0;
  s3 = 0;
  s4 = 0;
  s5 = 0;
  s6 = ip.a * 256 + ip.b;
  s7 = ip.c * 256 + ip.d;
}

to_ipv4_mapped-mapped : (ip : Ipv4Addr) → IsOctets ip → to_ipv4_mapped (mapped ip) ≡ some ip
unfolding to_ipv4_mapped
to_ipv4_mapped-mapped ip o = ground arith

mapped-to_ipv4_mapped :
    (ip : Ipv6Addr) (ip4 : Ipv4Addr)
    → IsSegments ip
    → to_ipv4_mapped ip ≡ some ip4
    → (ip ≡ mapped ip4) × IsOctets ip4
unfolding to_ipv4_mapped
mapped-to_ipv4_mapped ip ip4 o h = ground arith

-- Unwrapping is exact: over segments of 16 bits and octets, an IPv6 address unwraps to an IPv4 address
-- exactly when it is that address behind the prefix `::ffff:`.
pub to_ipv4_mapped_iff :
    (ip : Ipv6Addr) (ip4 : Ipv4Addr)
    → IsSegments ip
    → IsOctets ip4
    → (to_ipv4_mapped ip ≡ some ip4) ↔ (ip ≡ mapped ip4)
to_ipv4_mapped_iff ip ip4 o p =
    ((λ h. (mapped-to_ipv4_mapped ip ip4 o h).0), (λ e. rw e (to_ipv4_mapped-mapped ip4 p)))

-- Over octets below 256, an IPv4-mapped IPv6 address is let through exactly when the IPv4 address
-- inside is in none of the reserved blocks, of which 0.0.0.0/8 is the first, or is one of 0.0.0.1 to
-- 0.255.255.255, which are reserved and let through all the same.
pub forbidden-mapped :
    (ip : Ipv4Addr)
    → IsOctets ip
    → (forbidden (v6 (mapped ip)) ≡ none)
      ↔ ((reserved (number ip) ≡ false) ⊎ ((0 < number ip) × (number ip < 2 ^ 24)))
unfolding forbidden
forbidden-mapped ip o = rw (to_ipv4_mapped-mapped ip o, forbidden) (forbidden_v4-blocked ip o)

-- An address `::a.b.c.d` without the prefix `ffff:` is let through, whatever the IPv4 address inside,
-- unless it is `::` or `::1`.
pub forbidden-compatible :
    (ip : Ipv4Addr) → IsOctets ip → 1 < number ip → forbidden (v6 (compatible ip)) ≡ none
unfolding forbidden forbidden_v6 to_ipv4_mapped
forbidden-compatible ip o h = ground arith
