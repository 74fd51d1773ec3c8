-- ===== src/Hookline/Breaker/Actions.antt =====
-- What a failure leads to: `on_failure` on every branch, and as failures mount up.
use aiiiia.Prelude.{
  ℕ, ◌^◌, ◌≤◌, ◌<◌, ◌≡◌, refl, Option, none, some, Bool, true, false, if◌then◌else◌, ltb, arith, ap,
  sym, ◌∙◌, ◌↔◌, dec_lt, Bool-cases, inl, inr, lt→ltb, leb→le,
}
use aiiiia.Prelude.Int.{ℤ, pos, ◌+ℤ◌, ◌≤ℤ◌, as_i64, wrap_i64, IsI64, wrap_i64-of_IsI64, +ℤ_parts}
use aiiiia.Hookline.Breaker.{
  Policy, Action, carry_on, open_until, disable, as_millis, cooldown_for, reaches, on_failure,
}
use aiiiia.Hookline.Breaker.Cooldown.{cooldown_for_bounds}

-- The policy sets a limit on failures in a row and the count is at least that limit.
abbrev pub IsHopeless : Policy → ℕ → Type 0
IsHopeless p c = (limit : ℕ) × (p.failures_to_disable ≡ some limit) × (limit ≤ c)

-- How drastic an action is.
abbrev pub severity : Action → ℕ
severity carry_on = 0
severity (open_until t) = 1
severity disable = 2

reaches_mono : (o : Option ℕ) (c d : ℕ) → c ≤ d → reaches o c ≡ true → reaches o d ≡ true
unfolding reaches
reaches_mono none c d h e = e
reaches_mono (some l) c d h e = ground arith

reaches_iff :
    (o : Option ℕ) (c : ℕ) → (reaches o c ≡ true) ↔ ((limit : ℕ) × (o ≡ some limit) × (limit ≤ c))
unfolding reaches
reaches_iff none c = ((λ h. cc), (λ h. absurd (cc h.1)))
reaches_iff (some l) c = ((λ h. (l, refl, leb→le l c h)), (λ h. ground arith))

not_reached :
    (o : Option ℕ) (c : ℕ) → ¬ ((limit : ℕ) × (o ≡ some limit) × (limit ≤ c)) → reaches o c ≡ false
not_reached o c n = elim (Bool-cases (reaches o c)) [
  | inl e ↦ absurd (n ((reaches_iff o c).0 e))
  | inr e ↦ e
]

-- The three actions, each with its exact condition: the endpoint is disabled when the policy sets a
-- limit and the count is at least that; else, it is left alone when the count is below the opening
-- threshold; else, the circuit opens until some time.
pub on_failure_iff :
    (p : Policy) (c : ℕ) (now : ℤ)
    → (IsHopeless p c ↔ (on_failure p c now ≡ disable))
      × (((¬ IsHopeless p c) × (c < p.failures_to_open)) ↔ (on_failure p c now ≡ carry_on))
      × (((¬ IsHopeless p c) × (p.failures_to_open ≤ c))
          ↔ ((t : ℤ) × (on_failure p c now ≡ open_until t)))
unfolding on_failure
on_failure_iff p c now =
    let t : ℤ = wrap_i64 (now +ℤ as_i64 (as_millis (cooldown_for p c))) in
    elim (Bool-cases (reaches p.failures_to_disable c)) [
      | inl e ↦
          let hopeless : IsHopeless p c = (reaches_iff p.failures_to_disable c).0 e in
          rw e (
            ((λ h. refl), (λ h. hopeless)),
            ((λ h. absurd (h.0 hopeless)), (λ h. cc)),
            ((λ h. absurd (h.0 hopeless)), (λ h. cc)),
          )
      | inr e ↦
          let hope : ¬ IsHopeless p c = λ h. cc (e, (reaches_iff p.failures_to_disable c).1 h) in
          elim (dec_lt c p.failures_to_open) [
            | yes lt ↦
                rw (e, lt→ltb c p.failures_to_open lt)
                  (
                    ((λ h. absurd (hope h)), (λ h. cc)),
                    ((λ h. refl), (λ h. (hope, lt))),
                    ((λ h. absurd (omega (arith, h.1))), (λ h. cc)),
                  )
            | no ge ↦
                let out : ltb c p.failures_to_open ≡ false = ground arith in
                rw (e, out)
                  (
                    ((λ h. absurd (hope h)), (λ h. cc)),
                    ((λ h. absurd (omega (arith, h.1))), (λ h. cc)),
                    ((λ h. (t, refl)), (λ h. (hope, omega arith))),
                  )
          ]
    ]

until_of :
    (a b : Bool) (x t : ℤ)
    → (if a then disable else if b then carry_on else open_until x) ≡ open_until t
    → x ≡ t
until_of true b x t h = cc
until_of false true x t h = cc
until_of false false x t h = cc

as_i64_small : (n : ℕ) → n < 2 ^ 63 → as_i64 n ≡ pos n
as_i64_small n h = ground arith

millis_bound : (p : Policy) (c : ℕ) → as_millis (cooldown_for p c) ≤ as_millis p.max_cooldown
millis_bound p c = omega (arith, (cooldown_for_bounds p c).0)

-- Where the circuit opens and neither the cooldown nor its end is too large for an i64, it opens
-- until the cooldown after now, which is not before now and not beyond the maximum after now.
pub on_failure-open_until :
    (p : Policy) (c : ℕ) (now t : ℤ)
    → on_failure p c now ≡ open_until t
    → as_millis (cooldown_for p c) < 2 ^ 63
    → IsI64 (now +ℤ pos (as_millis (cooldown_for p c)))
    → (t ≡ now +ℤ pos (as_millis (cooldown_for p c)))
      × (now ≤ℤ t)
      × (t ≤ℤ now +ℤ pos (as_millis p.max_cooldown))
unfolding on_failure
on_failure-open_until p c now t h small fits =
    let ms : ℕ = as_millis (cooldown_for p c) in
    let raw =
      until_of (reaches p.failures_to_disable c) (ltb c p.failures_to_open)
        (wrap_i64 (now +ℤ as_i64 ms)) t h in
    let exact : now +ℤ pos ms ≡ t =
      sym (wrap_i64-of_IsI64 (now +ℤ pos ms) fits)
      ∙ ap (λ z. wrap_i64 (now +ℤ z)) (sym (as_i64_small ms small))
      ∙ raw in
    (
      sym exact,
      rw (← exact) (omega (arith, +ℤ_parts now (pos ms))),
      rw (← exact) (
          omega (
            arith,
            +ℤ_parts now (pos ms),
            +ℤ_parts now (pos (as_millis p.max_cooldown)),
            millis_bound p c,
          )),
    )

-- As failures mount up the action never becomes milder.
pub severity-on_failure :
    (p : Policy) (c d : ℕ) (now later : ℤ)
    → c ≤ d
    → severity (on_failure p c now) ≤ severity (on_failure p d later)
unfolding on_failure
severity-on_failure p c d now later h = grind (arith, reaches_mono p.failures_to_disable c d h)
