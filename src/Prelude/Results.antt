-- ===== src/Prelude/Results.antt =====
-- Fallible code (`anyhow::Result`) and fallible code over a state.
use mathlib.Core.Path.{◌≡◌, refl}
use mathlib.Core.Bool.{Bool, true, false}
use mathlib.Core.Option.{Option, none, some}
use mathlib.Core.Logic.{◌⊎◌, inl, inr}
use netlane.Prelude.Texts.{Text}

-- An error is its message.
pub data Result {κ} (T : Type κ) : Type κ where
  err : Text → Result T
  ok : T → Result T

abbrev pub is_ok {κ} : {T : Type κ} → Result T → Bool
is_ok (err m) = false
is_ok (ok t) = true

-- `anyhow::ensure!`
abbrev pub ensure : Bool → Text → Result (Unit {0})
ensure false m = err m
ensure true m = ok tt

-- `Option::ok_or_else`
abbrev pub ok_or {κ} : {T : Type κ} → Option T → Text → Result T
ok_or none m = err m
ok_or (some t) m = ok t

-- `?`
infixl 5 ◌>>=◌ ◌>>◌
abbrev pub ◌>>=◌ {κ μ} : {T : Type κ} {U : Type μ} → Result T → (T → Result U) → Result U
err m >>= next = err m
ok t >>= next = next t

abbrev pub ◌>>◌ {κ μ} : {T : Type κ} {U : Type μ} → Result T → Result U → Result U
first >> second = first >>= λ _. second

pub Result-cases {κ} :
    {T : Type κ} (r : Result T) → ((t : T) × (r ≡ ok t)) ⊎ ((m : Text) × (r ≡ err m))
Result-cases (err m) = inr (m, refl)
Result-cases (ok t) = inl (t, refl)

pub ensure-eq-ok : (b : Bool) (m : Text) {u : Unit {0}} → ensure b m ≡ ok u → b ≡ true
ensure-eq-ok false m h = cc
ensure-eq-ok true m h = refl

pub ok_or-eq-ok {κ} : {T : Type κ} (o : Option T) (m : Text) (a : T) → ok_or o m ≡ ok a → o ≡ some a
ok_or-eq-ok none m a e = cc
ok_or-eq-ok (some b) m a e = cc

-- A chain that succeeds has a first step that does.
pub >>=-eq-ok {κ μ} :
    {T : Type κ} {U : Type μ} (r : Result T) (next : T → Result U) {u : U}
    → (r >>= next) ≡ ok u
    → (t : T) × (r ≡ ok t) × (next t ≡ ok u)
>>=-eq-ok (err m) next h = cc
>>=-eq-ok (ok t) next h = (t, refl, h)
