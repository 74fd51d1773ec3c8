-- ===== src/Hookline/Guard/Resolve.antt =====
-- hookline/src/guard.rs: what a destination that `resolve` returns satisfies, and the resolver that
-- the HTTP client consults when it connects.
use mathlib.Core.Option.{get_or}
use aiiiia.Prelude.{
  ℕ, ◌≡◌, ◌≢◌, ◌↔◌, ◌⊎◌, inl, inr, refl, Option, none, some, true, List, [], ◌∷◌, All,
}
use mathlib.Core.Path.{subst}
use aiiiia.Prelude.Results.{>>-eq-ok, ok-inj, ok, ok_or, require, >>=-eq-ok}
use aiiiia.Hookline.Guard.Address.{IpAddr}
use aiiiia.Hookline.Guard.Text.{Text}
use aiiiia.Hookline.Guard.Check.{
  Policy, no_host, unresolvable, SocketAddr, UrlCrate, Destination, unless_private, ips_of,
  some_addrs, check_url, resolve, resolver_resolve,
}
use aiiiia.Hookline.Guard.Conditions.{IsRoutable, require_inv, unless_private_iff}
use aiiiia.Hookline.Guard.Safe.{ok_or_inv, Acceptable, check_url_iff}

some_addrs_iff : (l : List SocketAddr) → (some_addrs l ≡ true) ↔ (l ≢ [])
unfolding some_addrs
some_addrs_iff [] = ((λ h. cc), (λ n. absurd (n refl)))
some_addrs_iff (a ∷ l) = ((λ h e. cc), (λ n. refl))

All-ips : (l : List SocketAddr) → All IsRoutable (ips_of l) → All (λ a. IsRoutable a.ip) l
unfolding ips_of
All-ips [] h = tt
All-ips (a ∷ l) h = (h.0, All-ips l h.1)

ips-All : (l : List SocketAddr) → All (λ a. IsRoutable a.ip) l → All IsRoutable (ips_of l)
unfolding ips_of
ips-All [] h = tt
ips-All (a ∷ l) h = (h.0, ips-All l h.1)

-- The addresses may be dialled: there are some, and each is routable unless the policy allows private
-- destinations.
abbrev pub MayDial : Policy → List SocketAddr → Type 0
MayDial policy addrs =
    (addrs ≢ []) × ((policy.allow_private ≡ true) ⊎ All (λ a. IsRoutable a.ip) addrs)

module _ (crate : UrlCrate) (parse_ip : Text → Option IpAddr)
    (lookup : Text → ℕ → Option (List SocketAddr)) where
  open crate use {Url, parse, host_str, port_or_known_default}

  -- The destination has passed the policy as a URL, carries the host and the port of that URL, and
  -- carries all the addresses that the name service gave for these, which may be dialled.
  pub record IsVetted (raw : Text) (policy : Policy) (d : Destination crate parse_ip) : Type 0 where
    pub parsed : parse raw ≡ ok d.url
    pub acceptable : Acceptable crate parse_ip raw policy d.url
    pub host_of_url : host_str d.url ≡ some d.host
    pub port_of_url : port_or_known_default d.url ≡ some d.port
    pub looked_up : lookup d.host d.port ≡ some d.addrs
    pub may_dial : MayDial policy d.addrs

  get_port : (o : Option ℕ) {p : ℕ} → o ≡ some p → o ≡ some (get_or o 443)
  get_port none e = cc
  get_port (some q) e = refl

  resolve_sound :
      (raw : Text) (policy : Policy) (d : Destination crate parse_ip)
      → resolve crate parse_ip lookup raw policy ≡ ok d
      → IsVetted raw policy d
  unfolding resolve
  resolve_sound raw policy d h =
      let (u, checked, h1) = >>=-eq-ok (check_url crate parse_ip raw policy) _ h in
      let (host, t1, h2) = >>=-eq-ok (ok_or (host_str u) no_host) _ h1 in
      let (addrs, t2, h3) =
        >>=-eq-ok (ok_or (lookup host (get_or (port_or_known_default u) 443)) (unresolvable host)) _
          h2 in
      let (t3, h4) = >>-eq-ok (require (some_addrs addrs) (unresolvable host)) _ h3 in
      let (t4, h5) = >>-eq-ok (unless_private policy host (ips_of addrs)) _ h4 in
      let (parsed, a) = (check_url_iff crate parse_ip raw policy u).0 checked in
      subst (IsVetted raw policy) (ok-inj h5) (record {
        parsed = parsed;
        acceptable = a;
        host_of_url = ok_or_inv (host_str u) no_host t1;
        port_of_url = get_port (port_or_known_default u) a.has_port;
        looked_up = ok_or_inv (lookup host (get_or (port_or_known_default u) 443)) _ t2;
        may_dial = (
          (some_addrs_iff addrs).0 (require_inv _ _ t3),
          routable addrs ((unless_private_iff policy host (ips_of addrs)).0 t4),
        );
      })
    where
      routable :
          (addrs : List SocketAddr)
          → (policy.allow_private ≡ true) ⊎ All IsRoutable (ips_of addrs)
          → (policy.allow_private ≡ true) ⊎ All (λ a. IsRoutable a.ip) addrs
      routable addrs (inl e) = inl e
      routable addrs (inr e) = inr (All-ips addrs e)

  resolve_complete :
      (raw : Text) (policy : Policy) (d : Destination crate parse_ip)
      → IsVetted raw policy d
      → resolve crate parse_ip lookup raw policy ≡ ok d
  unfolding resolve
  resolve_complete raw policy d v = rw (
    (check_url_iff crate parse_ip raw policy d.url).1 (v.parsed, v.acceptable),
    v.host_of_url,
    v.port_of_url,
    v.looked_up,
    (some_addrs_iff d.addrs).1 v.may_dial.0,
    (unless_private_iff policy d.host (ips_of d.addrs)).1 (backwards v.may_dial.1),
  )
    where
      backwards :
          (policy.allow_private ≡ true) ⊎ All (λ a. IsRoutable a.ip) d.addrs
          → (policy.allow_private ≡ true) ⊎ All IsRoutable (ips_of d.addrs)
      backwards (inl e) = inl e
      backwards (inr e) = inr (ips-All d.addrs e)

  -- `resolve` returns a destination exactly when it is vetted: its URL passes the policy, its host and
  -- port are those of the URL, and its addresses are all those that the name service gives for them, at
  -- least one, and each routable unless the policy allows private destinations.
  pub resolve_iff :
      (raw : Text) (policy : Policy) (d : Destination crate parse_ip)
      → (resolve crate parse_ip lookup raw policy ≡ ok d) ↔ IsVetted raw policy d
  resolve_iff raw policy d = (resolve_sound raw policy d, resolve_complete raw policy d)

-- The client's resolver hands out addresses exactly when the name service gives them and they may be
-- dialled, so a name that changes its answer between the check and the connection gains nothing.
pub resolver_resolve_iff :
    (lookup : Text → ℕ → Option (List SocketAddr)) (policy : Policy) (host : Text)
    (addrs : List SocketAddr)
    → (resolver_resolve lookup policy host ≡ ok addrs)
      ↔ ((lookup host 0 ≡ some addrs) × MayDial policy addrs)
unfolding resolver_resolve
resolver_resolve_iff lookup policy host addrs = (sound, complete)
  where
    sound :
        resolver_resolve lookup policy host ≡ ok addrs
        → (lookup host 0 ≡ some addrs) × MayDial policy addrs
    sound h =
        let (found, t2, h3) = >>=-eq-ok (ok_or (lookup host 0) (unresolvable host)) _ h in
        let (t3, h4) = >>-eq-ok (require (some_addrs found) (unresolvable host)) _ h3 in
        let (t4, h5) = >>-eq-ok (unless_private policy host (ips_of found)) _ h4 in
        subst (λ l. (lookup host 0 ≡ some l) × MayDial policy l) (ok-inj h5)
          (
            ok_or_inv (lookup host 0) _ t2,
            (
              (some_addrs_iff found).0 (require_inv _ _ t3),
              elim ((unless_private_iff policy host (ips_of found)).0 t4) [
                | inl e ↦ inl e
                | inr e ↦ inr (All-ips found e)
              ],
            ),
          )

    complete :
        (lookup host 0 ≡ some addrs) × MayDial policy addrs
        → resolver_resolve lookup policy host ≡ ok addrs
    complete (found, (some_addr, routable)) = rw (
      found,
      (some_addrs_iff addrs).1 some_addr,
      (unless_private_iff policy host (ips_of addrs)).1
          (elim routable [ inl e ↦ inl e | inr e ↦ inr (ips-All addrs e) ]),
    )
