-- ===== src/Hookline/Guard/Conditions.antt =====
-- hookline/src/guard.rs: each Boolean test of the checks, read as the condition that it stands for.
use mathlib.Core.Bool.{false≢true}
use aiiiia.Prelude.{
  ℕ, ◌≡◌, ◌↔◌, ◌⊎◌, inl, inr, refl, sym, ◌∙◌, none, Bool, true, false, ◌||◌, ◌==◌, List, [], ◌∷◌,
  arith, Bool-cases, Option-cases, All, Any,
}
use aiiiia.Prelude.Results.{ok, require}
use aiiiia.Hookline.Guard.Address.{IpAddr, forbidden}
use aiiiia.Hookline.Guard.Text.{
  Text, text_eq, text_eq_iff, to_ascii_lowercase, ends_with, ends_with_sound, ends_with_complete,
  EndsWith,
}
use aiiiia.Hookline.Guard.Check.{
  Policy, Rejected, https, http, contains, scheme_allowed, port_in, is_denied, check_addrs,
  unless_private,
}

abbrev pub IsRoutable : IpAddr → Type 0
IsRoutable ip = forbidden ip ≡ none

-- A denied host covers itself and every name below it, whatever the case of the letters.
abbrev pub Covers : Text → Text → Type 0
Covers host denied =
    (to_ascii_lowercase host ≡ to_ascii_lowercase denied)
    ⊎ EndsWith (to_ascii_lowercase host) (b'.' ∷ to_ascii_lowercase denied)

pub require_inv : (b : Bool) (e : Rejected) → require b e ≡ ok tt → b ≡ true
require_inv true e h = refl
require_inv false e h = cc

pub check_addrs_iff :
    (host : Text) (ips : List IpAddr) → (check_addrs host ips ≡ ok tt) ↔ All IsRoutable ips
unfolding check_addrs
check_addrs_iff host [] = ((λ h. tt), (λ h. refl))
check_addrs_iff host (ip ∷ ips) = elim (Option-cases (forbidden ip)) [
  | inl e ↦
      rw (e, check_addrs)
        ((λ h. (refl, (check_addrs_iff host ips).0 h)), (λ h. (check_addrs_iff host ips).1 h.1))
  | inr (why, e) ↦ rw (e, check_addrs) ((λ h. cc), (λ h. cc))
]

Covers-test :
    (host denied : Text)
    → ((text_eq (to_ascii_lowercase host) (to_ascii_lowercase denied)
          || ends_with (to_ascii_lowercase host) (b'.' ∷ to_ascii_lowercase denied))
        ≡ true)
      ↔ Covers host denied
Covers-test host denied =
    let h : Text = to_ascii_lowercase host in
    let d : Text = to_ascii_lowercase denied in
    (
      (λ e. elim (Bool-cases (text_eq h d)) [
        | inl same ↦ inl ((text_eq_iff h d).0 same)
        | inr other ↦ inr (ends_with_sound h (b'.' ∷ d) (rw other at e))
      ]),
      (λ c. elim c [
        | inl same ↦ rw ((text_eq_iff h d).1 same)
        | inr (front, same) ↦
            let ends : ends_with h (b'.' ∷ d) ≡ true =
              rw same (ends_with_complete front (b'.' ∷ d)) in
            ground (arith, ends)
      ]),
    )

pub is_denied_iff :
    (denied : List Text) (host : Text)
    → (is_denied denied (to_ascii_lowercase host) ≡ false) ↔ All (λ d. ¬ Covers host d) denied
unfolding is_denied
is_denied_iff [] host = ((λ h. tt), (λ h. refl))
is_denied_iff (d ∷ ds) host =
    let test : Bool =
      text_eq (to_ascii_lowercase host) (to_ascii_lowercase d)
      || ends_with (to_ascii_lowercase host) (b'.' ∷ to_ascii_lowercase d) in
    elim (Bool-cases test) [
      | inl e ↦ rw e ((λ h. cc), (λ h. absurd (h.0 ((Covers-test host d).0 e))))
      | inr e ↦ rw e (
        (λ h. ((λ c. false≢true (sym e ∙ (Covers-test host d).1 c)), (is_denied_iff ds host).0 h)),
        (λ h. (is_denied_iff ds host).1 h.1),
      )
    ]

-- No list, or the port is in it.
abbrev pub PortAllowed : List ℕ → ℕ → Type 0
PortAllowed ports p = (ports ≡ []) ⊎ Any (λ q. q ≡ p) ports

contains_iff : (ports : List ℕ) (p : ℕ) → (contains ports p ≡ true) ↔ Any (λ q. q ≡ p) ports
unfolding contains
contains_iff [] p = ((λ h. cc), (λ h. absurd h))
contains_iff (q ∷ qs) p = elim (Bool-cases (q == p)) [
  | inl e ↦ rw e ((λ h. inl (ground arith)), (λ h. refl))
  | inr e ↦ rw e (
    (λ h. inr ((contains_iff qs p).0 h)),
    (λ h. elim h [ inl same ↦ absurd (ground arith) | inr more ↦ (contains_iff qs p).1 more ]),
  )
]

pub port_in_iff : (ports : List ℕ) (p : ℕ) → (port_in ports p ≡ true) ↔ PortAllowed ports p
unfolding port_in
port_in_iff [] p = ((λ h. inl refl), (λ h. refl))
port_in_iff (q ∷ qs) p = (
  (λ h. inr ((contains_iff (q ∷ qs) p).0 h)),
  (λ h. elim h [ inl e ↦ absurd (cc) | inr e ↦ (contains_iff (q ∷ qs) p).1 e ]),
)

pub scheme_allowed_iff :
    (policy : Policy) (s : Text)
    → (scheme_allowed policy s ≡ true) ↔ ((s ≡ https) ⊎ ((s ≡ http) × (policy.allow_http ≡ true)))
unfolding scheme_allowed
scheme_allowed_iff policy s = (
  (λ h. elim (Bool-cases (text_eq s https)) [
    | inl e ↦ inl ((text_eq_iff s https).0 e)
    | inr e ↦ elim (Bool-cases (text_eq s http)) [
      | inl plain ↦ inr ((text_eq_iff s http).0 plain, ground arith)
      | inr other ↦ absurd (ground arith)
    ]
  ]),
  (λ c. elim c [
    | inl e ↦ rw ((text_eq_iff s https).1 e)
    | inr (e, allowed) ↦ let plain = (text_eq_iff s http).1 e in ground arith
  ]),
)

pub unless_private_iff :
    (policy : Policy) (host : Text) (ips : List IpAddr)
    → (unless_private policy host ips ≡ ok tt)
      ↔ ((policy.allow_private ≡ true) ⊎ All IsRoutable ips)
unfolding unless_private
unless_private_iff policy host ips = elim (Bool-cases policy.allow_private) [
  | inl e ↦ rw e ((λ h. inl refl), (λ h. refl))
  | inr e ↦ rw e (
    (λ h. inr ((check_addrs_iff host ips).0 h)),
    (λ h. elim h [ inl c ↦ absurd (cc) | inr c ↦ (check_addrs_iff host ips).1 c ]),
  )
]
