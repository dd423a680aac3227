-- ===== src/Prelude/Everywhere.antt =====
-- What holds of all elements of a list, and of those that pass a test.
use mathlib.Core.Path.{◌≡◌}
use mathlib.Core.Logic.{inl, inr}
use mathlib.Core.Bool.{Bool, true}
use mathlib.Core.List.{List, [], ◌∷◌}
use risk_core.Prelude.Tests.{Bool-cases}
use risk_core.Prelude.Lists.{All, select}

module _ {A : Type 0} where
  pub All-imp : (P Q : A → Type 0) (xs : List A) → ((x : A) → P x → Q x) → All P xs → All Q xs
  All-imp P Q [] f h = tt
  All-imp P Q (x ∷ xs) f h = (f x h.0, All-imp P Q xs f h.1)

  pub All-both : (P Q : A → Type 0) (xs : List A) → All P xs → All Q xs → All (λ x. P x × Q x) xs
  All-both P Q [] h k = tt
  All-both P Q (x ∷ xs) h k = ((h.0, k.0), All-both P Q xs h.1 k.1)

  -- What holds of those that pass holds of the selected ones, and the other way round.
  pub All-selected :
      (P : A → Type 0) (p : A → Bool) (xs : List A)
      → All (λ x. p x ≡ true → P x) xs
      → All P (select p xs)
  All-selected P p [] h = tt
  All-selected P p (x ∷ xs) h = elim (Bool-cases (p x)) [
    | inl has ↦ rw has (h.0 has, All-selected P p xs h.1)
    | inr hasnt ↦ rw hasnt (All-selected P p xs h.1)
  ]

  pub All-unselected :
      (P : A → Type 0) (p : A → Bool) (xs : List A)
      → All P (select p xs)
      → All (λ x. p x ≡ true → P x) xs
  All-unselected P p [] h = tt
  All-unselected P p (x ∷ xs) h = elim (Bool-cases (p x)) [
    | inl has ↦
        let both : P x × All P (select p xs) = rw has at h in
        (λ _. both.0, All-unselected P p xs both.1)
    | inr hasnt ↦ (λ has. absurd (cc), All-unselected P p xs (rw hasnt at h))
  ]
