-- ===== src/Hookline/Guard/Check.antt =====
-- hookline/src/guard.rs: `check_url`, `resolve` and the resolver that the HTTP client consults.
-- The crate `url`, the parser of literal addresses and the name service are parameters.
use Prim.Native.String.{String}
use aiiiia.Prelude.{
  ℕ, Option, none, some, Bool, true, false, not, ◌&&◌, ◌||◌, if◌then◌else◌, ◌==◌, List, [], ◌∷◌,
}
use mathlib.Core.Option.{get_or}
use aiiiia.Prelude.Results.{Result, ok, err, ok_or, require, ◌>>=◌, ◌>>◌}
use aiiiia.Hookline.Guard.Address.{IpAddr, forbidden}
use aiiiia.Hookline.Guard.Text.{
  Text, text_eq, is_empty, to_ascii_lowercase, ends_with, trim_brackets,
}

pub record Policy : Type 0 where
  pub allow_http : Bool
  pub allow_private : Bool
  pub allowed_ports : List ℕ
  pub denied_hosts : List Text

-- The default refuses plaintext and every address that `forbidden` names.
abbrev pub strict : Policy
strict = record { allow_http = false; allow_private = false; allowed_ports = []; denied_hosts = [] }

abbrev pub permissive : Policy
permissive = record strict { allow_http = true; allow_private = true }

pub data Rejected : Type 0 where
  not_a_url : Text → Rejected
  scheme : Text → Rejected
  no_host : Rejected
  credentials : Rejected
  port : ℕ → Rejected
  denied_host : Text → Rejected
  private_address : Text → IpAddr → String → Rejected
  unresolvable : Text → Rejected

pub record SocketAddr : Type 0 where
  pub ip : IpAddr
  pub port : ℕ

abbrev pub https : Text
https = b'h' ∷ b't' ∷ b't' ∷ b'p' ∷ b's' ∷ []

abbrev pub http : Text
http = b'h' ∷ b't' ∷ b't' ∷ b'p' ∷ []

unfoldable pub contains : List ℕ → ℕ → Bool
contains [] p = false
contains (q ∷ qs) p = q == p || contains qs p

unfoldable pub scheme_allowed : Policy → Text → Bool
scheme_allowed policy s = text_eq s https || (text_eq s http && policy.allow_http)

-- No list means any port.
unfoldable pub port_in : List ℕ → ℕ → Bool
unfolding contains
port_in [] p = true
port_in (q ∷ qs) p = contains (q ∷ qs) p

-- Is the host a denied one, or below a denied one?
unfoldable pub is_denied : List Text → Text → Bool
is_denied [] lowered = false
is_denied (denied ∷ rest) lowered =
    let low = to_ascii_lowercase denied in
    (text_eq lowered low || ends_with lowered (b'.' ∷ low)) || is_denied rest lowered

-- The first address that is forbidden is the error.
unfoldable pub check_addrs : Text → List IpAddr → Result Rejected (Unit {0})
check_addrs host [] = ok tt
check_addrs host (ip ∷ ips) = elim (forbidden ip) [
  | some why ↦ err (private_address host ip why)
  | none ↦ check_addrs host ips
]

unfoldable pub unless_private : Policy → Text → List IpAddr → Result Rejected (Unit {0})
unfolding check_addrs
unless_private policy host ips = if policy.allow_private then ok tt else check_addrs host ips

unfoldable pub ips_of : List SocketAddr → List IpAddr
ips_of [] = []
ips_of (a ∷ as') = a.ip ∷ ips_of as'

unfoldable pub some_addrs : List SocketAddr → Bool
some_addrs [] = false
some_addrs (a ∷ as') = true

-- A host that is written as an address is judged as that address.
unfoldable pub literal_ips : Option IpAddr → List IpAddr
literal_ips none = []
literal_ips (some ip) = ip ∷ []

-- The URLs of the crate `url`.
pub record UrlCrate : Type 1 where
  pub Url : Type 0
  pub parse : Text → Result Text Url
  pub scheme_of : Url → Text
  pub username : Url → Text
  pub password : Url → Option Text
  pub host_str : Url → Option Text
  pub port_or_known_default : Url → Option ℕ

unfoldable pub is_some {ℓ} : {A : Type ℓ} → Option A → Bool
is_some none = false
is_some (some a) = true

-- `Url::parse(raw).map_err(..)`
unfoldable pub or_not_a_url {ℓ} : {A : Type ℓ} → Result Text A → Result Rejected A
or_not_a_url (ok a) = ok a
or_not_a_url (err e) = err (not_a_url e)

module _ (crate : UrlCrate) (parse_ip : Text → Option IpAddr) where
  open crate use {Url, parse, scheme_of, username, password, host_str, port_or_known_default}

  unfoldable pub check_url : Text → Policy → Result Rejected Url
  check_url raw policy = do
    url ← or_not_a_url (parse raw)
    require (scheme_allowed policy (scheme_of url)) (scheme (scheme_of url))
    require (is_empty (username url) && not (is_some (password url))) credentials
    host ← ok_or (host_str url) no_host
    require (not (is_empty host)) no_host
    p ← ok_or (port_or_known_default url) (scheme (scheme_of url))
    require (port_in policy.allowed_ports p) (port p)
    let lowered = to_ascii_lowercase host
    require (not (is_denied policy.denied_hosts lowered)) (denied_host host)
    unless_private policy host (literal_ips (parse_ip (trim_brackets lowered)))
    ok url

  pub record Destination : Type 0 where
    pub url : Url
    pub host : Text
    pub port : ℕ
    pub addrs : List SocketAddr

  -- What the name service answers for a host and a port; `none` is a failure.
  module _ (lookup : Text → ℕ → Option (List SocketAddr)) where
    unfoldable pub resolve : Text → Policy → Result Rejected Destination
    resolve raw policy = do
      url ← check_url raw policy
      host ← ok_or (host_str url) no_host
      let p = get_or (port_or_known_default url) 443
      addrs ← ok_or (lookup host p) (unresolvable host)
      require (some_addrs addrs) (unresolvable host)
      unless_private policy host (ips_of addrs)
      ok (record { url = url; host = host; port = p; addrs = addrs })

-- `Resolver::resolve`, with the policy that the resolver holds: the client asks for port 0.
unfoldable pub resolver_resolve :
    (Text → ℕ → Option (List SocketAddr)) → Policy → Text → Result Rejected (List SocketAddr)
resolver_resolve lookup policy host = do
  addrs ← ok_or (lookup host 0) (unresolvable host)
  require (some_addrs addrs) (unresolvable host)
  unless_private policy host (ips_of addrs)
  ok addrs
