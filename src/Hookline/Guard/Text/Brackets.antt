-- ===== src/Hookline/Guard/Text/Brackets.antt =====
-- hookline/src/guard.rs: a host without the brackets around it, whose trimming `trim_brackets` does.
use mathlib.Core.List.{reverse, reverse-cons, reverse-append, reverse-reverse}
use mathlib.Core.Path.{subst}
use aiiiia.Prelude.{
  ℕ, ◌≡◌, ◌⊎◌, ◌↔◌, inl, inr, refl, sym, ap, ◌∙◌, true, false, Bool-cases, [], ◌∷◌, ◌++◌, All,
  arith,
}
use aiiiia.Hookline.Guard.Text.{Text, is_bracket, trim_left, trim_brackets}
use aiiiia.Hookline.Tables.{All-append}

abbrev pub IsBracket : ℕ → Type 0
IsBracket c = (c ≡ b'[') ⊎ (c ≡ b']')

abbrev pub Begins : Text → Type 0
Begins s = (c : ℕ) × (rest : Text) × (s ≡ c ∷ rest) × IsBracket c

abbrev pub Ends : Text → Type 0
Ends s = (c : ℕ) × (rest : Text) × (s ≡ rest ++ c ∷ []) × IsBracket c

-- `bare` is what is left of `s` between brackets at both ends, and has none at an end itself.
pub record IsBare (s bare : Text) : Type 0 where
  pub front : Text
  pub back : Text
  pub split : s ≡ front ++ (bare ++ back)
  pub front_brackets : All IsBracket front
  pub back_brackets : All IsBracket back
  pub no_first : ¬ Begins bare
  pub no_last : ¬ Ends bare

is_bracket_iff : (c : ℕ) → (is_bracket c ≡ true) ↔ IsBracket c
unfolding is_bracket
is_bracket_iff c = ((λ h. ground arith), (λ h. ground arith))

not_bracket : (c : ℕ) → ¬ IsBracket c → is_bracket c ≡ false
not_bracket c n = elim (Bool-cases (is_bracket c)) [
  | inl e ↦ absurd (n ((is_bracket_iff c).0 e))
  | inr e ↦ e
]

trim_left_split :
    (s : Text)
    → (front : Text) × (s ≡ front ++ trim_left s) × All IsBracket front × (¬ Begins (trim_left s))
unfolding trim_left
trim_left_split [] = ([], refl, tt, λ h. cc h.2)
trim_left_split (c ∷ s) =
    let (front, split, all, none_first) = trim_left_split s in
    elim (Bool-cases (is_bracket c)) [
      | inl e ↦ rw e (c ∷ front, ap (◌∷◌ c) split, ((is_bracket_iff c).0 e, all), none_first)
      | inr e ↦
          rw e
            ([], refl, tt, λ (d, rest, same, bracket). cc (e, (is_bracket_iff d).1 bracket, same))
    ]

trim_left-append : (front s : Text) → All IsBracket front → trim_left (front ++ s) ≡ trim_left s
unfolding trim_left
trim_left-append [] s h = refl
trim_left-append (c ∷ front) s h = rw ((is_bracket_iff c).1 h.0) (trim_left-append front s h.1)

trim_left-kept : (s : Text) → ¬ Begins s → trim_left s ≡ s
unfolding trim_left
trim_left-kept [] h = refl
trim_left-kept (c ∷ s) h = rw (not_bracket c (λ b. h (c, s, refl, b)))

All-reverse : (s : Text) → All IsBracket s → All IsBracket (reverse s)
All-reverse [] h = tt
All-reverse (c ∷ s) h =
    rw (reverse-cons c s) (All-append IsBracket (reverse s) (c ∷ []) (All-reverse s h.1) (h.0, tt))

Begins-reverse : (s : Text) → Begins (reverse s) → Ends s
Begins-reverse s (c, rest, same, bracket) =
    (c, reverse rest, sym (reverse-reverse s) ∙ ap reverse same ∙ reverse-cons c rest, bracket)

Ends-reverse : (s : Text) → Ends (reverse s) → Begins s
Ends-reverse s (c, rest, same, bracket) = (
  c,
  reverse rest,
  sym (reverse-reverse s) ∙ ap reverse same ∙ reverse-append rest (c ∷ []),
  bracket,
)

pub trim_brackets-IsBare : (s : Text) → IsBare s (trim_brackets s)
unfolding trim_brackets
trim_brackets-IsBare s =
    let u : Text = trim_left s in
    let v : Text = trim_left (reverse u) in
    let (front, split, all, none_first) = trim_left_split s in
    let (back, rest, all_back, none_last) = trim_left_split (reverse u) in
    let whole : u ≡ reverse v ++ reverse back =
      sym (reverse-reverse u) ∙ ap reverse rest ∙ reverse-append back v in
    record {
      front = front;
      back = reverse back;
      split = split ∙ ap (◌++◌ front) whole;
      front_brackets = all;
      back_brackets = All-reverse back all_back;
      no_first = λ (c, more, same, bracket).
          none_first (c, more ++ reverse back, whole ∙ ap (λ t. t ++ reverse back) same, bracket);
      no_last = λ b. none_last (subst Begins (reverse-reverse v) (begins b));
    }
  where
    begins : {t : Text} → Ends t → Begins (reverse t)
    begins {t} e = Ends-reverse (reverse t) (subst Ends (sym (reverse-reverse t)) e)

only_brackets : (s : Text) → All IsBracket s → trim_left s ≡ []
unfolding trim_left
only_brackets [] h = refl
only_brackets (c ∷ s) h = rw ((is_bracket_iff c).1 h.0) (only_brackets s h.1)

trim_left-IsBare :
    (bare back : Text)
    → All IsBracket back
    → ¬ Begins bare
    → ¬ Ends bare
    → reverse (trim_left (reverse (trim_left (bare ++ back)))) ≡ bare
unfolding trim_left
trim_left-IsBare [] back all none_first none_last =
    ap (λ t. reverse (trim_left (reverse t))) (only_brackets back all)
trim_left-IsBare (c ∷ bare) back all none_first none_last =
    let kept : trim_left ((c ∷ bare) ++ back) ≡ (c ∷ bare) ++ back =
      rw (not_bracket c (λ b. none_first (c, bare, refl, b))) in
    ap (λ t. reverse (trim_left (reverse t))) kept
    ∙ ap (λ t. reverse (trim_left t)) (reverse-append (c ∷ bare) back)
    ∙ ap reverse (trim_left-append (reverse back) (reverse (c ∷ bare)) (All-reverse back all))
    ∙ ap reverse
        (trim_left-kept (reverse (c ∷ bare)) (λ b. none_last (Begins-reverse (c ∷ bare) b)))
    ∙ reverse-reverse (c ∷ bare)

-- There is one such text.
pub IsBare-trim_brackets : (s bare : Text) → IsBare s bare → bare ≡ trim_brackets s
unfolding trim_brackets
IsBare-trim_brackets s bare b = sym (
    ap (λ t. reverse (trim_left (reverse (trim_left t)))) b.split
    ∙ ap (λ t. reverse (trim_left (reverse t)))
        (trim_left-append b.front (bare ++ b.back) b.front_brackets)
    ∙ trim_left-IsBare bare b.back b.back_brackets b.no_first b.no_last)
