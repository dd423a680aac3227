-- ===== src/Prelude/Texts.antt =====
-- A Python `str` as the list of its code points.
use Prim.Native.Nat.{ℕ}
use Prim.Native.Char.{code}
use Prim.Native.String.{String}
use mathlib.Core.Path.{◌≡◌, refl}
use mathlib.Core.Logic.{◌↔◌, ◌≢◌, inl, inr}
use mathlib.Core.Bool.{Bool, true, false, ◌&&◌}
use mathlib.Core.List.{List, [], ◌∷◌, ◌++◌}
use native.Mathlib.Omega.{arith}
use risk_core.Prelude.Tests.{◌==◌, Bool-cases}
use risk_core.Prelude.Lists.{any, All}

abbrev pub Text : Type 0
Text = List ℕ

-- A literal.
abbrev pub codes : String → Text
codes String.[] = []
codes (String.◌∷◌ c s) = code c ∷ codes s

-- `a == b`
abbrev pub text_eq : Text → Text → Bool
text_eq [] [] = true
text_eq [] (_ ∷ _) = false
text_eq (_ ∷ _) [] = false
text_eq (a ∷ s) (b ∷ t) = a == b && text_eq s t

-- `bool(s)`
abbrev pub is_nonempty : Text → Bool
is_nonempty [] = false
is_nonempty (_ ∷ _) = true

-- `s or t`
abbrev pub or_text : Text → Text → Text
or_text [] t = t
or_text (c ∷ s) t = c ∷ s

-- `s.startswith(t)`
abbrev pub starts_with : Text → Text → Bool
starts_with s [] = true
starts_with [] (_ ∷ _) = false
starts_with (a ∷ s) (b ∷ t) = a == b && starts_with s t

pub text_eq-eq : (s t : Text) → text_eq s t ≡ true → s ≡ t
text_eq-eq [] [] h = refl
text_eq-eq [] (b ∷ t) h = ground arith
text_eq-eq (a ∷ s) [] h = ground arith
text_eq-eq (a ∷ s) (b ∷ t) h = ground (arith, text_eq-eq s t)

pub text_eq_refl : (s : Text) → text_eq s s ≡ true
text_eq_refl [] = refl
text_eq_refl (a ∷ s) = ground (arith, text_eq_refl s)

pub text_eq_iff : (s t : Text) → (text_eq s t ≡ true) ↔ (s ≡ t)
text_eq_iff s t = (text_eq-eq s t, λ e. ground (arith, text_eq_refl s))

pub text_eq_comm : (s t : Text) → text_eq s t ≡ text_eq t s
text_eq_comm [] [] = refl
text_eq_comm [] (b ∷ t) = refl
text_eq_comm (a ∷ s) [] = refl
text_eq_comm (a ∷ s) (b ∷ t) = ground (arith, text_eq_comm s t)

pub starts_with-append : (p t : Text) → starts_with (p ++ t) p ≡ true
starts_with-append [] t = starts_with-nil t
  where
    starts_with-nil : (t : Text) → starts_with t [] ≡ true
    starts_with-nil [] = refl
    starts_with-nil (c ∷ t) = refl
starts_with-append (c ∷ p) t = ground (arith, starts_with-append p t)

pub append_cancel : (p s t : Text) → p ++ s ≡ p ++ t → s ≡ t
append_cancel [] s t h = h
append_cancel (c ∷ p) s t h = append_cancel p s t (cc)

pub All-text_eq :
    (P : Text → Type 0) (t : Text) (xs : List Text) → any (text_eq t) xs ≡ true → All P xs → P t
All-text_eq P t [] h all = absurd (cc)
All-text_eq P t (x ∷ xs) h all = elim (Bool-cases (text_eq t x)) [
  | inl same ↦ rw (text_eq-eq t x same) (all.0)
  | inr other ↦ All-text_eq P t xs (rw other at h) all.1
]

pub any-text_eq : (t : Text) (xs : List Text) → All (λ x. t ≢ x) xs → any (text_eq t) xs ≡ false
any-text_eq t [] h = refl
any-text_eq t (x ∷ xs) h = elim (Bool-cases (text_eq t x)) [
  | inl same ↦ absurd (h.0 (text_eq-eq t x same))
  | inr other ↦ rw other (any-text_eq t xs h.1)
]
