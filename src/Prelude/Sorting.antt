-- ===== src/Prelude/Sorting.antt =====
-- A stable sort, for `sort_by_key`.
use mathlib.Core.List.{List, [], ◌∷◌}
use mathlib.Core.Bool.{Bool}
use mathlib.Core.Logic.{inl, inr}
use netlane.Prelude.Tests.{if◌then◌else◌, Bool-cases}
use netlane.Prelude.Lists.{All}

module _ {A : Type 0} (le : A → A → Bool) where
  -- Before the first element that is not below it.
  unfoldable pub insert_by : A → List A → List A
  insert_by x [] = x ∷ []
  insert_by x (y ∷ ys) = if le x y then x ∷ y ∷ ys else y ∷ insert_by x ys

  unfoldable pub sort_by : List A → List A
  unfolding insert_by
  sort_by [] = []
  sort_by (x ∷ xs) = insert_by x (sort_by xs)

  -- What holds of all elements holds of all after sorting.
  insert_by-All : (P : A → Type 0) (x : A) (ys : List A) → P x → All P ys → All P (insert_by x ys)
  unfolding insert_by
  insert_by-All P x [] h k = (h, tt)
  insert_by-All P x (y ∷ ys) h k = elim (Bool-cases (le x y)) [
    | inl e ↦ rw (e, insert_by) (h, k)
    | inr e ↦ rw (e, insert_by) (k.0, insert_by-All P x ys h k.1)
  ]

  pub sort_by-All : (P : A → Type 0) (xs : List A) → All P xs → All P (sort_by xs)
  unfolding sort_by
  sort_by-All P [] h = tt
  sort_by-All P (x ∷ xs) h = insert_by-All P x (sort_by xs) h.0 (sort_by-All P xs h.1)
