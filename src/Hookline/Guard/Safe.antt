-- ===== src/Hookline/Guard/Safe.antt =====
-- hookline/src/guard.rs: what a URL that passes the checks satisfies, and that a URL that satisfies it
-- passes them.
use aiiiia.Prelude.{
  ℕ, ◌≡◌, ◌≢◌, ◌↔◌, ◌⊎◌, refl, Option, none, some, Bool, true, false, not, ◌&&◌, [], ◌∷◌, All,
  Option-cases, inl, inr,
}
use mathlib.Core.Path.{subst}
use aiiiia.Prelude.Results.{>>-eq-ok, ok-inj, Result, ok, err, ok_or, require, >>=-eq-ok}
use aiiiia.Hookline.Guard.Address.{IpAddr, forbidden}
use aiiiia.Hookline.Guard.Text.{Text, is_empty, to_ascii_lowercase, trim_brackets}
use aiiiia.Hookline.Guard.Text.Brackets.{IsBare, trim_brackets-IsBare, IsBare-trim_brackets}
use aiiiia.Hookline.Guard.Check.{
  Policy, Rejected, scheme, no_host, port, UrlCrate, https, http, scheme_allowed, port_in,
  is_denied, unless_private, literal_ips, is_some, or_not_a_url, check_url,
}
use aiiiia.Hookline.Guard.Conditions.{
  IsRoutable, Covers, PortAllowed, require_inv, is_denied_iff, port_in_iff, scheme_allowed_iff,
  unless_private_iff,
}

pub ok_or_inv {ℓ} :
    {A : Type ℓ} {a : A} (o : Option A) (e : Rejected) → ok_or o e ≡ ok a → o ≡ some a
ok_or_inv none e h = cc
ok_or_inv (some a) e h = cc

or_not_a_url_inv {ℓ} : {A : Type ℓ} {a : A} (r : Result Text A) → or_not_a_url r ≡ ok a → r ≡ ok a
unfolding or_not_a_url
or_not_a_url_inv (ok a) h = cc
or_not_a_url_inv (err e) h = cc

is_empty_iff : (s : Text) → (not (is_empty s) ≡ true) ↔ (s ≢ [])
unfolding is_empty
is_empty_iff [] = ((λ h. cc), (λ n. absurd (n refl)))
is_empty_iff (c ∷ s) = ((λ h e. cc), (λ n. refl))

no_user_iff :
    (name : Text) (word : Option Text)
    → ((is_empty name && not (is_some word)) ≡ true) ↔ ((name ≡ []) × (word ≡ none))
unfolding is_empty is_some
no_user_iff [] none = ((λ h. (refl, refl)), (λ h. refl))
no_user_iff [] (some w) = ((λ h. cc), (λ h. cc))
no_user_iff (c ∷ s) word = ((λ h. cc), (λ h. cc))

not-true : (b : Bool) → (not b ≡ true) ↔ (b ≡ false)
not-true true = ((λ h. cc), (λ h. cc))
not-true false = ((λ h. refl), (λ h. refl))

-- Without the brackets around it, the host is no address, or one that is not forbidden.
abbrev pub IsNoForbiddenLiteral : (Text → Option IpAddr) → Text → Type 0
IsNoForbiddenLiteral parse_ip host =
    (bare : Text) × IsBare (to_ascii_lowercase host) bare
    × ((parse_ip bare ≡ none) ⊎ ((ip : IpAddr) × (parse_ip bare ≡ some ip) × (forbidden ip ≡ none)))

sound_literal :
    (parse_ip : Text → Option IpAddr) (host : Text)
    → All IsRoutable (literal_ips (parse_ip (trim_brackets (to_ascii_lowercase host))))
    → IsNoForbiddenLiteral parse_ip host
unfolding literal_ips
sound_literal parse_ip host h =
    let bare : Text = trim_brackets (to_ascii_lowercase host) in
    (
      bare,
      trim_brackets-IsBare (to_ascii_lowercase host),
      elim (Option-cases (parse_ip bare)) [
        | inl e ↦ inl e
        | inr (ip, e) ↦ inr (ip, e, (rw e at h).0)
      ],
    )

judged_literal :
    (parse_ip : Text → Option IpAddr) (host : Text)
    → IsNoForbiddenLiteral parse_ip host
    → All IsRoutable (literal_ips (parse_ip (trim_brackets (to_ascii_lowercase host))))
unfolding literal_ips
judged_literal parse_ip host (bare, is_bare, judged) =
    rw (← IsBare-trim_brackets (to_ascii_lowercase host) bare is_bare)
      (elim judged [ inl e ↦ rw e tt | inr (ip, e, free) ↦ rw e (free, tt) ])

either_mono : {A B C : Type 0} → (B → C) → A ⊎ B → A ⊎ C
either_mono f (inl a) = inl a
either_mono f (inr b) = inr (f b)

module _ (crate : UrlCrate) (parse_ip : Text → Option IpAddr) where
  open crate use {Url, parse, scheme_of, username, password, host_str, port_or_known_default}

  -- The URL satisfies everything that the policy asks of its text.
  pub record Acceptable (raw : Text) (policy : Policy) (url : Url) : Type 0 where
    pub host : Text
    pub port : ℕ
    pub secure : (scheme_of url ≡ https) ⊎ ((scheme_of url ≡ http) × (policy.allow_http ≡ true))
    pub no_credentials : (username url ≡ []) × (password url ≡ none)
    pub has_host : host_str url ≡ some host
    pub host_nonempty : host ≢ []
    pub has_port : port_or_known_default url ≡ some port
    pub port_allowed : PortAllowed policy.allowed_ports port
    pub not_denied : All (λ d. ¬ Covers host d) policy.denied_hosts
    pub literal_routable : (policy.allow_private ≡ true) ⊎ IsNoForbiddenLiteral parse_ip host

  check_url_sound :
      (raw : Text) (policy : Policy) (url : Url)
      → check_url crate parse_ip raw policy ≡ ok url
      → (parse raw ≡ ok url) × Acceptable raw policy url
  unfolding check_url
  check_url_sound raw policy url h =
      let (u, parsed, h1) = >>=-eq-ok (or_not_a_url (parse raw)) _ h in
      let (t1, h2) = >>-eq-ok (require (scheme_allowed policy (scheme_of u)) _) _ h1 in
      let (t2, h3) =
        >>-eq-ok (require (is_empty (username u) && not (is_some (password u))) _) _ h2 in
      let (host, t3, h4) = >>=-eq-ok (ok_or (host_str u) no_host) _ h3 in
      let (t4, h5) = >>-eq-ok (require (not (is_empty host)) no_host) _ h4 in
      let (p, t5, h6) = >>=-eq-ok (ok_or (port_or_known_default u) (scheme (scheme_of u))) _ h5 in
      let (t6, h7) = >>-eq-ok (require (port_in policy.allowed_ports p) (port p)) _ h6 in
      let (t7, h8) =
        >>-eq-ok (require (not (is_denied policy.denied_hosts (to_ascii_lowercase host))) _) _ h7 in
      let (t8, h9) = >>-eq-ok (unless_private policy host _) _ h8 in
      let e : u ≡ url = ok-inj h9 in
      subst (λ z. (parse raw ≡ ok z) × Acceptable raw policy z) e
        (
          or_not_a_url_inv (parse raw) parsed,
          record {
            host = host;
            port = p;
            secure = (scheme_allowed_iff policy (scheme_of u)).0 (require_inv _ _ t1);
            no_credentials = (no_user_iff (username u) (password u)).0 (require_inv _ _ t2);
            has_host = ok_or_inv (host_str u) no_host t3;
            host_nonempty = (is_empty_iff host).0 (require_inv _ _ t4);
            has_port = ok_or_inv (port_or_known_default u) _ t5;
            port_allowed = (port_in_iff policy.allowed_ports p).0 (require_inv _ _ t6);
            not_denied =
                (is_denied_iff policy.denied_hosts host).0 ((not-true _).0 (require_inv _ _ t7));
            literal_routable =
                either_mono (sound_literal parse_ip host) ((unless_private_iff policy host _).0 t8);
          },
        )

  check_url_complete :
      (raw : Text) (policy : Policy) (url : Url)
      → parse raw ≡ ok url
      → Acceptable raw policy url
      → check_url crate parse_ip raw policy ≡ ok url
  unfolding check_url or_not_a_url
  check_url_complete raw policy url parsed a = rw (
    parsed,
    (scheme_allowed_iff policy (scheme_of url)).1 a.secure,
    (no_user_iff (username url) (password url)).1 a.no_credentials,
    a.has_host,
    (is_empty_iff a.host).1 a.host_nonempty,
    a.has_port,
    (port_in_iff policy.allowed_ports a.port).1 a.port_allowed,
    (not-true _).1 ((is_denied_iff policy.denied_hosts a.host).1 a.not_denied),
    (unless_private_iff policy a.host _).1
        (either_mono (judged_literal parse_ip a.host) a.literal_routable),
  )

  -- A URL passes `check_url` exactly when it parses and satisfies the policy: its scheme is https, or
  -- http where that is allowed; it has no credentials; it has a host that is not empty, and a port that
  -- is allowed; no denied host covers its host; and, unless private destinations are allowed, its host in
  -- lower case, without any brackets at its ends, does not parse as an address, or as one that is not forbidden.
  pub check_url_iff :
      (raw : Text) (policy : Policy) (url : Url)
      → (check_url crate parse_ip raw policy ≡ ok url)
        ↔ ((parse raw ≡ ok url) × Acceptable raw policy url)
  check_url_iff raw policy url =
      (check_url_sound raw policy url, (λ h. check_url_complete raw policy url h.0 h.1))
