-- ===== src/Hookline/Guard/Ranges.antt =====
-- The IPv4 addresses that are refused, as blocks of 32-bit numbers.
use aiiiia.Prelude.{
  ℕ, ◌+◌, ◌*◌, ◌^◌, ◌<◌, ◌≡◌, ◌↔◌, none, Bool, false, ◌&&◌, ◌||◌, ◌⊎◌, dec_lt, ltb, leb, ◌==◌,
  arith,
}
use aiiiia.Hookline.Guard.Address.{
  Ipv4Addr, is_unspecified_v4, is_loopback_v4, is_link_local_v4, is_private_v4, is_broadcast_v4,
  is_multicast_v4, is_documentation_v4, forbidden_v4,
}

pub record IsOctets (ip : Ipv4Addr) : Type 0 where
  pub a_octet : ip.a < 256
  pub b_octet : ip.b < 256
  pub c_octet : ip.c < 256
  pub d_octet : ip.d < 256

-- The address as a number, most significant octet first.
abbrev pub number : Ipv4Addr → ℕ
number ip = ((ip.a * 256 + ip.b) * 256 + ip.c) * 256 + ip.d

-- `n` lies in the block of `size` addresses from `a.b.c.d` on.
abbrev pub in_block : ℕ → ℕ → ℕ → ℕ → ℕ → ℕ → Bool
in_block a b c d size n =
    let start : ℕ = ((a * 256 + b) * 256 + c) * 256 + d in leb start n && ltb n (start + size)

-- The reserved blocks of the IPv4 address space that must not be sent to, but for 0.0.0.0/8.
reserved_above : ℕ → Bool
reserved_above n =
    (in_block 127 0 0 0 (2 ^ 24) n
      || (in_block 169 254 0 0 (2 ^ 16) n
          || ((in_block 10 0 0 0 (2 ^ 24) n
                || (in_block 172 16 0 0 (2 ^ 20) n || in_block 192 168 0 0 (2 ^ 16) n))
              || (in_block 255 255 255 255 1 n
                  || (in_block 224 0 0 0 (2 ^ 28) n
                      || ((in_block 192 0 2 0 (2 ^ 8) n
                            || (in_block 198 51 100 0 (2 ^ 8) n || in_block 203 0 113 0 (2 ^ 8) n))
                          || (in_block 100 64 0 0 (2 ^ 22) n
                              || (in_block 192 0 0 0 (2 ^ 8) n
                                  || (in_block 192 88 99 0 (2 ^ 8) n
                                      || (in_block 198 18 0 0 (2 ^ 17) n
                                          || in_block 240 0 0 0 (2 ^ 28) n))))))))))

-- The reserved blocks with 0.0.0.0/8, "this network", as the IANA registry lists it.
pub reserved : ℕ → Bool
reserved n = in_block 0 0 0 0 (2 ^ 24) n || reserved_above n

-- What the code refuses: of the block 0.0.0.0/8 the first address only.
blocked : ℕ → Bool
blocked n = in_block 0 0 0 0 1 n || reserved_above n

above_zero : (n : ℕ) → n < 2 ^ 24 → reserved_above n ≡ false
unfolding reserved_above
above_zero n h = ground arith

blocked_iff : (n : ℕ) → (blocked n ≡ false) ↔ ((reserved n ≡ false) ⊎ ((0 < n) × (n < 2 ^ 24)))
unfolding blocked reserved
blocked_iff n = elim (dec_lt n (2 ^ 24)) [
  | yes lt ↦ rw (above_zero n lt) ((λ h. ground arith), (λ h. ground arith))
  | no ge ↦ ((λ h. ground arith), (λ h. ground arith))
]

module _ (ip : Ipv4Addr) (o : IsOctets ip) where
  unspecified_block : is_unspecified_v4 ip ≡ in_block 0 0 0 0 1 (number ip)
  unfolding is_unspecified_v4
  unspecified_block = ground arith

  loopback_block : is_loopback_v4 ip ≡ in_block 127 0 0 0 (2 ^ 24) (number ip)
  unfolding is_loopback_v4
  loopback_block = ground arith

  link_local_block : is_link_local_v4 ip ≡ in_block 169 254 0 0 (2 ^ 16) (number ip)
  unfolding is_link_local_v4
  link_local_block = ground arith

  private_block : is_private_v4 ip ≡ (
      in_block 10 0 0 0 (2 ^ 24) (number ip)
      || (in_block 172 16 0 0 (2 ^ 20) (number ip) || in_block 192 168 0 0 (2 ^ 16) (number ip)))
  unfolding is_private_v4
  private_block = ground arith

  broadcast_block : is_broadcast_v4 ip ≡ in_block 255 255 255 255 1 (number ip)
  unfolding is_broadcast_v4
  broadcast_block = ground arith

  multicast_block : is_multicast_v4 ip ≡ in_block 224 0 0 0 (2 ^ 28) (number ip)
  unfolding is_multicast_v4
  multicast_block = ground arith

  documentation_block : is_documentation_v4 ip ≡ (
      in_block 192 0 2 0 (2 ^ 8) (number ip)
      || (in_block 198 51 100 0 (2 ^ 8) (number ip) || in_block 203 0 113 0 (2 ^ 8) (number ip)))
  unfolding is_documentation_v4
  documentation_block = ground arith

  nat_block :
      (ip.a == 100 && (leb 64 ip.b && ltb ip.b 128)) ≡ in_block 100 64 0 0 (2 ^ 22) (number ip)
  nat_block = ground arith

  protocol_block :
      (ip.a == 192 && (ip.b == 0 && ip.c == 0)) ≡ in_block 192 0 0 0 (2 ^ 8) (number ip)
  protocol_block = ground arith

  relay_block :
      (ip.a == 192 && (ip.b == 88 && ip.c == 99)) ≡ in_block 192 88 99 0 (2 ^ 8) (number ip)
  relay_block = ground arith

  benchmark_block :
      (ip.a == 198 && (ip.b == 18 || ip.b == 19)) ≡ in_block 198 18 0 0 (2 ^ 17) (number ip)
  benchmark_block = ground arith

  reserved_block : leb 240 ip.a ≡ in_block 240 0 0 0 (2 ^ 28) (number ip)
  reserved_block = ground arith

  -- The number of a let through address is in none of the blocks the code tests.
  forbidden_v4_tests : (forbidden_v4 ip ≡ none) ↔ (blocked (number ip) ≡ false)
  unfolding blocked reserved_above forbidden_v4
  forbidden_v4_tests =
      rw
        (
          ← unspecified_block,
          ← loopback_block,
          ← link_local_block,
          ← private_block,
          ← broadcast_block,
          ← multicast_block,
          ← documentation_block,
          ← nat_block,
          ← protocol_block,
          ← relay_block,
          ← benchmark_block,
          ← reserved_block,
        )
        ((λ h. ground arith), (λ h. ground arith))

  -- Over octets below 256, an IPv4 address is let through exactly when its number is in none of the
  -- reserved blocks, of which 0.0.0.0/8 is the first, or it is one of 0.0.0.1 to 0.255.255.255, which
  -- are reserved and let through all the same.
  pub forbidden_v4-blocked :
      (forbidden_v4 ip ≡ none)
      ↔ ((reserved (number ip) ≡ false) ⊎ ((0 < number ip) × (number ip < 2 ^ 24)))
  forbidden_v4-blocked = (
    (λ h. (blocked_iff (number ip)).0 (forbidden_v4_tests.0 h)),
    (λ h. forbidden_v4_tests.1 ((blocked_iff (number ip)).1 h)),
  )
