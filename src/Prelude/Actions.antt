-- ===== src/Prelude/Actions.antt =====
-- Fallible code over an explicit state: what was changed before an error stays changed.
use mathlib.Core.Path.{◌≡◌, sym, ap, ◌∙◌}
use mathlib.Core.Logic.{inl, inr}
use netlane.Prelude.Results.{Result, ok, err, Result-cases}
use native.Mathlib.Omega.{arith}

abbrev pub Action : Type 0 → Type 0 → Type 0
Action S A = S → Result A × S

infixl 5 ◌>>=◌ ◌>>◌
abbrev pub ◌>>=◌ : {S A B : Type 0} → Action S A → (A → Action S B) → Action S B
◌>>=◌ m f s = let (r, t) = m s in elim r [ ok a ↦ f a t | err e ↦ (err e, t) ]

abbrev pub ◌>>◌ : {S A B : Type 0} → Action S A → Action S B → Action S B
m >> k = m >>= λ _. k

abbrev pub pure : {S A : Type 0} → A → Action S A
pure a s = (ok a, s)

-- A pure step that may fail.
abbrev pub lift : {S A : Type 0} → Result A → Action S A
lift r s = (r, s)

module _ {S A B : Type 0} (m : Action S A) (f : A → Action S B) (s : S) where
  -- An action that ends well has run its first part well, and is then its second part.
  pub bind_inversion :
      (b : B) → ((m >>= f) s).0 ≡ ok b → (a : A) × ((m s).0 ≡ ok a) × ((m >>= f) s ≡ f a (m s).1)
  bind_inversion b h = elim (Result-cases (m s).0) [
    | inl (a, e) ↦ (a, e, rw (e, ◌>>=◌))
    | inr (x, e) ↦ ground arith
  ]

  -- What holds of the state after each part holds after both.
  pub bind_state :
      (P : S → Type 0)
      → P (m s).1
      → ((a : A) → (m s).0 ≡ ok a → P (f a (m s).1).1)
      → P ((m >>= f) s).1
  bind_state P h k = elim (Result-cases (m s).0) [
    | inl (a, e) ↦ rw (e, ◌>>=◌) (k a e)
    | inr (x, e) ↦ rw (e, ◌>>=◌) h
  ]

-- An action that ends by checking its value has a value that passes the check.
pub checked_end :
    {S A : Type 0} (m : Action S A) (check : A → Result (Unit {0})) (s : S) (a : A)
    → ((m >>= λ x. lift (check x) >> pure x) s).0 ≡ ok a
    → check a ≡ ok tt
checked_end m check s a h =
    let (x, _, q) = bind_inversion m (λ x. lift (check x) >> pure x) s a h in
    let (_, good, q') =
      bind_inversion (lift (check x)) (λ _. pure x) (m s).1 a (ap (λ r. r.0) (sym q) ∙ h) in
    let same : ok x ≡ ok a = ap (λ r. r.0) (sym (q ∙ q')) ∙ h in let e : x ≡ a = cc in rw (← e) good
