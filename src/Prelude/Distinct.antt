-- ===== src/Prelude/Distinct.antt =====
-- Lists in which no two elements are the same by a test, such as the rows of a table with a unique
-- column.
use mathlib.Core.Path.{◌≡◌, refl, ◌∙◌}
use mathlib.Core.Bool.{Bool, false}
use mathlib.Core.List.{List, [], ◌∷◌, ◌++◌}
use native.Mathlib.Omega.{arith}
use risk_core.Prelude.Lists.{any, any-append}

module _ {A : Type 0} (same : A → A → Bool) where
  abbrev pub IsDistinct : List A → Type 0
  IsDistinct [] = Unit
  IsDistinct (x ∷ xs) = (any (same x) xs ≡ false) × IsDistinct xs

  -- A new element may go to the end.
  pub IsDistinct-append :
      ((x y : A) → same x y ≡ same y x)
      → (xs : List A) (y : A) → IsDistinct xs
      → any (same y) xs ≡ false
      → IsDistinct (xs ++ y ∷ [])
  IsDistinct-append comm [] y h new = (refl, tt)
  IsDistinct-append comm (x ∷ xs) y (other, h) new =
      let apart : same x y ≡ false = comm x y ∙ (ground arith) in
      (
        any-append (same x) xs (y ∷ []) ∙ (simp (other, apart)),
        IsDistinct-append comm xs y h (ground arith),
      )
