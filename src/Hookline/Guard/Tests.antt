-- ===== src/Hookline/Guard/Tests.antt =====
-- hookline/src/guard.rs on concrete addresses and URLs, and the theorems there.
use aiiiia.Prelude.{
  if◌then◌else◌, ℕ, ◌≡◌, ◌↔◌, ◌⊎◌, ◌<◌, ◌^◌, refl, false, arith, Option, none, some, List, [], ◌∷◌,
}
use aiiiia.Prelude.Results.{ok, err}
use aiiiia.Hookline.Guard.Address.{
  Ipv4Addr, IpAddr, v4, v6, forbidden_v4, to_ipv4_mapped, forbidden, is_unspecified_v4,
  is_loopback_v4, is_link_local_v4, is_private_v4, is_broadcast_v4, is_multicast_v4,
  is_documentation_v4,
}
use aiiiia.Hookline.Guard.Ranges.{IsOctets, number, reserved, forbidden_v4-blocked}
use aiiiia.Hookline.Guard.Mapped.{
  mapped, compatible, to_ipv4_mapped_iff, forbidden-mapped, forbidden-compatible,
}
use aiiiia.Hookline.Guard.Text.{
  Text, text_eq, is_empty, to_lower, to_ascii_lowercase, ends_with, is_bracket, trim_left,
  trim_brackets,
}
use aiiiia.Hookline.Guard.Check.{
  Policy, private_address, denied_host, strict, https, UrlCrate, SocketAddr, Destination, check_url,
  resolve, resolver_resolve, or_not_a_url, is_some, scheme_allowed, port_in, is_denied,
  unless_private, check_addrs, ips_of, literal_ips, some_addrs,
}
use aiiiia.Hookline.Guard.Safe.{Acceptable, check_url_iff}
use aiiiia.Hookline.Guard.Resolve.{IsVetted, MayDial, resolve_iff, resolver_resolve_iff}

abbrev local : Ipv4Addr
local = record { a = 127; b = 0; c = 0; d = 1 }

abbrev public_server : Ipv4Addr
public_server = record { a = 93; b = 184; c = 216; d = 34 }

local-IsOctets : IsOctets local
local-IsOctets = omega arith

local-forbidden : forbidden (v6 (mapped local)) ≡ some "loopback"
unfolding forbidden to_ipv4_mapped forbidden_v4 is_unspecified_v4 is_loopback_v4
local-forbidden = refl

metadata_forbidden :
    forbidden (v4 (record { a = 169; b = 254; c = 169; d = 254 }))
    ≡ some "link-local, where cloud metadata lives"
unfolding forbidden forbidden_v4 is_unspecified_v4 is_loopback_v4 is_link_local_v4
metadata_forbidden = refl

public_allowed : forbidden (v4 public_server) ≡ none
unfolding forbidden forbidden_v4 is_unspecified_v4 is_loopback_v4 is_link_local_v4 is_private_v4
    is_broadcast_v4 is_multicast_v4 is_documentation_v4
public_allowed = refl

-- Of the network 0.0.0.0/8 only the first address is refused.
this_network_allowed : forbidden (v4 (record { a = 0; b = 1; c = 2; d = 3 })) ≡ none
unfolding forbidden forbidden_v4 is_unspecified_v4 is_loopback_v4 is_link_local_v4 is_private_v4
    is_broadcast_v4 is_multicast_v4 is_documentation_v4
this_network_allowed = refl

forbidden_v4-blocked_example :
    (forbidden_v4 local ≡ none)
    ↔ ((reserved (number local) ≡ false) ⊎ ((0 < number local) × (number local < 2 ^ 24)))
forbidden_v4-blocked_example = forbidden_v4-blocked local local-IsOctets

to_ipv4_mapped_iff_example :
    (to_ipv4_mapped (mapped local) ≡ some local) ↔ (mapped local ≡ mapped local)
to_ipv4_mapped_iff_example = to_ipv4_mapped_iff (mapped local) local (omega arith) local-IsOctets

forbidden-mapped_example :
    (forbidden (v6 (mapped local)) ≡ none)
    ↔ ((reserved (number local) ≡ false) ⊎ ((0 < number local) × (number local < 2 ^ 24)))
forbidden-mapped_example = forbidden-mapped local local-IsOctets

forbidden-compatible_example : forbidden (v6 (compatible local)) ≡ none
forbidden-compatible_example = forbidden-compatible local local-IsOctets (omega arith)

-- A crate whose only URL is `https://a.b/`.
abbrev host : Text
host = b'a' ∷ b'.' ∷ b'b' ∷ []

abbrev one_url : UrlCrate
one_url = record {
  Url = ℕ;
  parse = λ raw. ok 0;
  scheme_of = λ u. https;
  username = λ u. [];
  password = λ u. none;
  host_str = λ u. some host;
  port_or_known_default = λ u. some 443;
}

abbrev no_literal : Text → Option IpAddr
no_literal s = none

abbrev answers : IpAddr → Text → ℕ → Option (List SocketAddr)
answers ip name p = some (record { ip = ip; port = p } ∷ [])

url_passes : check_url one_url no_literal [] strict ≡ ok 0
unfolding check_url or_not_a_url is_some scheme_allowed port_in is_denied unless_private check_addrs
    literal_ips is_empty text_eq
url_passes = refl

-- The parent domain `B` is on the deny list.
abbrev denying : Policy
denying = record strict { denied_hosts = (b'B' ∷ []) ∷ [] }

subdomain_denied : check_url one_url no_literal [] denying ≡ err (denied_host host)
unfolding check_url or_not_a_url is_some scheme_allowed port_in is_denied is_empty text_eq ends_with
    to_ascii_lowercase
subdomain_denied = refl

-- A crate whose only URL is `https://[a]/`, and a parser that reads `a` as an address.
abbrev literal_url : UrlCrate
literal_url = record one_url { host_str = λ u. some (b'[' ∷ b'a' ∷ b']' ∷ []) }

abbrev reading : IpAddr → Text → Option IpAddr
reading ip s = if text_eq s (b'a' ∷ []) then some ip else none

literal_passes : check_url literal_url (reading (v4 public_server)) [] strict ≡ ok 0
unfolding check_url or_not_a_url is_some scheme_allowed port_in is_denied unless_private check_addrs
    literal_ips is_empty text_eq trim_brackets trim_left is_bracket to_ascii_lowercase to_lower
    forbidden forbidden_v4 is_unspecified_v4 is_loopback_v4 is_link_local_v4 is_private_v4
    is_broadcast_v4 is_multicast_v4 is_documentation_v4
literal_passes = refl

local_literal_refused :
    check_url literal_url (reading (v4 local)) [] strict
    ≡ err (private_address (b'[' ∷ b'a' ∷ b']' ∷ []) (v4 local) "loopback")
unfolding check_url or_not_a_url is_some scheme_allowed port_in is_denied unless_private check_addrs
    literal_ips is_empty text_eq trim_brackets trim_left is_bracket to_ascii_lowercase to_lower
    forbidden forbidden_v4 is_unspecified_v4 is_loopback_v4
local_literal_refused = refl

check_url_iff_example : (check_url literal_url (reading (v4 public_server)) [] strict ≡ ok 0) ↔ (
    (literal_url.parse [] ≡ ok 0) × Acceptable literal_url (reading (v4 public_server)) [] strict 0)
check_url_iff_example = check_url_iff literal_url (reading (v4 public_server)) [] strict 0

abbrev destination : Destination one_url no_literal
destination = record {
  url = 0;
  host = host;
  port = 443;
  addrs = record { ip = v4 public_server; port = 443 } ∷ [];
}

resolve_iff_example :
    (resolve one_url no_literal (answers (v4 public_server)) [] strict ≡ ok destination)
    ↔ IsVetted one_url no_literal (answers (v4 public_server)) [] strict destination
resolve_iff_example =
    resolve_iff one_url no_literal (answers (v4 public_server)) [] strict destination

resolver_resolve_iff_example :
    (resolver_resolve (answers (v4 local)) strict host
      ≡ ok (record { ip = v4 local; port = 0 } ∷ []))
    ↔ ((answers (v4 local) host 0 ≡ some (record { ip = v4 local; port = 0 } ∷ []))
        × MayDial strict (record { ip = v4 local; port = 0 } ∷ []))
resolver_resolve_iff_example =
    resolver_resolve_iff (answers (v4 local)) strict host (record { ip = v4 local; port = 0 } ∷ [])

rebinding_refused :
    resolver_resolve (answers (v4 local)) strict host
    ≡ err (private_address host (v4 local) "loopback")
unfolding resolver_resolve some_addrs unless_private check_addrs ips_of forbidden forbidden_v4
    is_unspecified_v4 is_loopback_v4
rebinding_refused = refl
