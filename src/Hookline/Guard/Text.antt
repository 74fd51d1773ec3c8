-- ===== src/Hookline/Guard/Text.antt =====
-- hookline/src/guard.rs: the tests on texts. A text is the list of its bytes.
pub mod Brackets
use aiiiia.Prelude.{
  ℕ, ◌+◌, ◌≡◌, ◌↔◌, inl, inr, Bool, true, false, ◌&&◌, ◌||◌, if◌then◌else◌, leb, ◌==◌, List, [],
  ◌∷◌, ◌++◌, map, arith, refl, ap, Bool-cases,
}
use mathlib.Core.List.{reverse}

abbrev pub Text : Type 0
Text = List ℕ

unfoldable pub text_eq : Text → Text → Bool
text_eq [] [] = true
text_eq [] (y ∷ ys) = false
text_eq (x ∷ xs) [] = false
text_eq (x ∷ xs) (y ∷ ys) = x == y && text_eq xs ys

unfoldable pub is_empty : Text → Bool
is_empty [] = true
is_empty (x ∷ xs) = false

unfoldable pub to_lower : ℕ → ℕ
to_lower c = if leb 65 c && leb c 90 then c + 32 else c

unfoldable pub to_ascii_lowercase : Text → Text
unfolding to_lower
to_ascii_lowercase s = map to_lower s

unfoldable pub ends_with : Text → Text → Bool
unfolding text_eq
ends_with [] suffix = text_eq [] suffix
ends_with (c ∷ s) suffix = text_eq (c ∷ s) suffix || ends_with s suffix

unfoldable pub is_bracket : ℕ → Bool
is_bracket c = c == b'[' || c == b']'

unfoldable pub trim_left : Text → Text
unfolding is_bracket
trim_left [] = []
trim_left (c ∷ s) = if is_bracket c then trim_left s else c ∷ s

-- `trim_matches(['[', ']'])`
unfoldable pub trim_brackets : Text → Text
unfolding trim_left
trim_brackets s = reverse (trim_left (reverse (trim_left s)))

pub text_eq_iff : (s t : Text) → (text_eq s t ≡ true) ↔ (s ≡ t)
unfolding text_eq
text_eq_iff [] [] = ((λ h. refl), (λ h. refl))
text_eq_iff [] (y ∷ ys) = ((λ h. cc), (λ h. cc))
text_eq_iff (x ∷ xs) [] = ((λ h. cc), (λ h. cc))
text_eq_iff (x ∷ xs) (y ∷ ys) =
    ((λ h. ground (arith, (text_eq_iff xs ys).0)), (λ h. ground (arith, (text_eq_iff xs ys).1)))

-- `suffix` ends `s`.
abbrev pub EndsWith : Text → Text → Type 0
EndsWith s suffix = (front : Text) × (s ≡ front ++ suffix)

pub ends_with_sound : (s suffix : Text) → ends_with s suffix ≡ true → EndsWith s suffix
unfolding ends_with
ends_with_sound [] suffix h = ([], (text_eq_iff [] suffix).0 h)
ends_with_sound (c ∷ s) suffix h = elim (Bool-cases (text_eq (c ∷ s) suffix)) [
  | inl e ↦ ([], (text_eq_iff (c ∷ s) suffix).0 e)
  | inr e ↦ let (front, same) = ends_with_sound s suffix (rw e at h) in (c ∷ front, ap (◌∷◌ c) same)
]

pub ends_with_complete : (front suffix : Text) → ends_with (front ++ suffix) suffix ≡ true
unfolding ends_with
ends_with_complete [] [] = refl
ends_with_complete [] (c ∷ suffix) = rw ((text_eq_iff (c ∷ suffix) (c ∷ suffix)).1 refl)
ends_with_complete (c ∷ front) suffix = rw (ends_with_complete front suffix) (ground arith)
