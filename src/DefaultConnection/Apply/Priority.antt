-- ===== src/DefaultConnection/Apply/Priority.antt =====
-- What crates/netlane-core/src/default_connection.rs compares of an interface's priority, written out.
use netlane.Prelude.{ℕ, Bool, true, false, Option, none, some, ◌≡◌, ◌⊎◌, inl, inr, refl, ap, arith}
use netlane.DefaultConnection.{Interface, Metric, Kind, kind_eq, option_nat_eq}
use netlane.DefaultConnection.Plan.{matches, unset}
use netlane.DefaultConnection.Apply.{active_matches, saved_matches}
use netlane.Model.{bool_eq}

-- The active store holds the priority: the same mode, and under a fixed one the same value.
abbrev pub HoldsActive : Metric → Interface → Type 0
HoldsActive m i =
    (i.automatic_metric ≡ m.automatic_metric) × (m.automatic_metric ≡ false → i.metric ≡ m.metric)

-- The saved store holds it: the value under a fixed mode, none or zero under the automatic one.
abbrev pub HoldsSaved : Metric → Interface → Type 0
HoldsSaved m i =
    (m.automatic_metric ≡ true → (i.saved_metric ≡ none) ⊎ (i.saved_metric ≡ some 0))
    × (m.automatic_metric ≡ false → i.saved_metric ≡ some m.metric)

bool_eq_sound : (a b : Bool) → bool_eq a b ≡ true → a ≡ b
bool_eq_sound a b h = ground (arith, h)

option_nat_eq_sound : (o : Option ℕ) (n : ℕ) → option_nat_eq o (some n) ≡ true → o ≡ some n
option_nat_eq_sound none n h = cc
option_nat_eq_sound (some m) n h = ap some (ground (arith, h))

unset_sound : (o : Option ℕ) → unset o ≡ true → (o ≡ none) ⊎ (o ≡ some 0)
unset_sound none h = inl refl
unset_sound (some n) h = inr (ap some (ground (arith, h)))

pub kind_eq_sound : (a b : Kind) → kind_eq a b ≡ true → a ≡ b
kind_eq_sound Kind.cable Kind.cable h = refl
kind_eq_sound Kind.wifi Kind.wifi h = refl
kind_eq_sound Kind.cable Kind.wifi h = cc
kind_eq_sound Kind.wifi Kind.cable h = cc

pub active_matches-HoldsActive :
    (i : Interface) (m : Metric) → active_matches i m ≡ true → HoldsActive m i
active_matches-HoldsActive i m h = (
  bool_eq_sound i.automatic_metric m.automatic_metric (ground (arith, h)),
  λ fixed. ground (arith, h, fixed),
)

pub saved_matches-HoldsSaved :
    (i : Interface) (m : Metric) → saved_matches i m ≡ true → HoldsSaved m i
saved_matches-HoldsSaved i m h = (
  λ automatic. unset_sound i.saved_metric (ground (arith, h, automatic)),
  λ fixed. option_nat_eq_sound i.saved_metric m.metric (ground (arith, h, fixed)),
)

pub matches-Holds :
    (m : Metric) (i : Interface) → matches m i ≡ true → HoldsActive m i × HoldsSaved m i
matches-Holds m i h = (
  active_matches-HoldsActive i m (ground (arith, h)),
  saved_matches-HoldsSaved i m (ground (arith, h)),
)
