-- ===== src/Quality/Monitor/Reachable.antt =====
-- The states that a monitor of crates/netlane-core/src/quality.rs can reach.
use netlane.Prelude.{
  ℕ, zero, suc, ◌≤◌, ◌<◌, Bool, true, false, not, ◌||◌, List, [], ◌∷◌, ◌++◌, length, length-append,
  length-select-le, any, select, Option, some, Text, str_eq, str_eq_refl, ◌≡◌, refl, ap, subst,
  arith, All, ◌==◌, Bool-cases, Option-cases, inl, inr,
}
use netlane.Model.{Adapter}
use netlane.Quality.Window.{Floats, ProbeResult}
use netlane.Quality.Monitor.{
  Monitor, Row, Rows, Request, Target, Identity, Phase, phase_eq, set, load, get, put, stop, begin,
  activate, renew, complete, is_held,
}

-- What a phase has: a target from `begin` on, and a destination once active.
abbrev pub Stage : Phase → Option Target → Option ℕ → Type 0
Stage Phase.idle target destination = Unit
Stage Phase.preparing target destination = (t : Target) × (target ≡ some t)
Stage Phase.active target destination =
    (t : Target) × (d : ℕ) × (target ≡ some t) × (destination ≡ some d)

-- At most four workers run, and every flag but the session's own has been set.
pub record IsValid {F : Type 0} (m : Monitor F) : Type 0 where
  pub ready : Stage m.phase m.target m.destination
  pub few : length m.running ≤ 4
  pub owned : m.cancel < length m.flags
  pub cancelled : All (λ b. b ≡ true) (set m.flags m.cancel)

-- What `sync` and `prepare` leave alone.
abbrev pub Keeps : {F : Type 0} → Monitor F → Monitor F → Type 0
Keeps m n =
    (n.phase ≡ m.phase)
    × (n.target ≡ m.target)
    × (n.destination ≡ m.destination)
    × (n.generation ≡ m.generation)
    × (n.cancel ≡ m.cancel)
    × (n.flags ≡ m.flags)

pub set-All : (bs : List Bool) (i : ℕ) → All (λ b. b ≡ true) bs → All (λ b. b ≡ true) (set bs i)
set-All [] i h = tt
set-All (b ∷ bs) zero h = (refl, h.1)
set-All (b ∷ bs) (suc i) h = (h.0, set-All bs i h.1)

set-append :
    (bs : List Bool)
    → All (λ b. b ≡ true) bs
    → All (λ b. b ≡ true) (set (bs ++ false ∷ []) (length bs))
set-append [] h = (refl, tt)
set-append (b ∷ bs) h = (h.0, set-append bs h.1)

length-set : (bs : List Bool) (i : ℕ) → length (set bs i) ≡ length bs
length-set [] i = refl
length-set (b ∷ bs) zero = refl
length-set (b ∷ bs) (suc i) = ap suc (length-set bs i)

pub phase_eq_sound : (p q : Phase) → phase_eq p q ≡ true → p ≡ q
phase_eq_sound p q h = ground arith

module _ {F : Type 0} where
  pub stop-IsValid : (m : Monitor F) → IsValid m → IsValid (stop m)
  unfolding stop
  stop-IsValid m v = record {
    ready = tt;
    few = v.few;
    owned = rw (length-set m.flags m.cancel) v.owned;
    cancelled = set-All (set m.flags m.cancel) m.cancel v.cancelled;
  }

  pub begin-IsValid : (t : Target) (m : Monitor F) → IsValid m → IsValid (begin t m).1
  unfolding begin stop
  begin-IsValid t m v = record {
    ready = (t, refl);
    few = v.few;
    owned = omega (arith, length-append (set m.flags m.cancel) (false ∷ []));
    cancelled = set-append (set m.flags m.cancel) v.cancelled;
  }

  activated :
      (d : ℕ) (m : Monitor F)
      → IsValid m
      → m.phase ≡ Phase.preparing
      → IsValid (record m { destination = some d; phase = Phase.active })
  activated d m v e =
      let (t, q) = subst (λ p. Stage p m.target m.destination) e v.ready in
      record { ready = (t, d, q, refl); few = v.few; owned = v.owned; cancelled = v.cancelled }

  pub activate-IsValid : (g d : ℕ) (m : Monitor F) → IsValid m → IsValid (activate g d m).1
  unfolding activate
  activate-IsValid g d m v =
      elim (Bool-cases (
        not (g == m.generation)
        || not (phase_eq m.phase Phase.preparing)
        || load m.flags m.cancel)) [
          | inl e ↦ rw e v
          | inr e ↦
              rw e (activated d m v (phase_eq_sound m.phase Phase.preparing (ground (arith, e))))
        ]

module _ {F : Type 0} where
  pub Keeps-IsValid : (m n : Monitor F) → IsValid m → Keeps m n → length n.running ≤ 4 → IsValid n
  Keeps-IsValid m n v (p, t, d, g, c, b) few = record {
    ready = rw (p, t, d) v.ready;
    few = few;
    owned = rw (c, b) v.owned;
    cancelled = rw (c, b) v.cancelled;
  }

  complete_kept :
      (f : Floats F) (q : Request) (r : ProbeResult F) (now : ℕ) (m : Monitor F)
      → Keeps m (complete f q r now m).1
        × ((complete f q r now m).1.running ≡ select (λ t. not (t == q.ticket)) m.running)
  unfolding complete
  complete_kept f q r now m =
      elim (Bool-cases (
        not (any (λ t. t == q.ticket) m.running)
        || not (phase_eq m.phase Phase.active)
        || not (q.generation == m.generation))) [
          | inl e ↦ rw e kept
          | inr e ↦ elim (Option-cases (get m.rows q.adapter.id)) [
            | inl none_there ↦ rw (e, none_there) kept
            | inr (row, there) ↦ elim (Bool-cases (is_held q row)) [
              | inl held ↦ rw (e, there, held) kept
              | inr lost ↦ rw (e, there, lost) kept
            ]
          ]
        ]
    where
      kept :
          Keeps m (record m { running = select (λ t. not (t == q.ticket)) m.running })
          × (select (λ t. not (t == q.ticket)) m.running
              ≡ select (λ t. not (t == q.ticket)) m.running)
      kept = ((refl, refl, refl, refl, refl, refl), refl)

  pub complete-IsValid :
      (f : Floats F) (q : Request) (r : ProbeResult F) (now : ℕ) (m : Monitor F)
      → IsValid m
      → IsValid (complete f q r now m).1
  complete-IsValid f q r now m v =
      let (kept, e) = complete_kept f q r now m in
      Keeps-IsValid m (complete f q r now m).1 v kept
        (omega (arith, ap length e, length-select-le (λ t. not (t == q.ticket)) m.running, v.few))

  pub renew-Keeps :
      (identity_of : Adapter → Option Identity) (a : Adapter) (m : Monitor F)
      → Keeps m (renew identity_of a m) × ((renew identity_of a m).running ≡ m.running)
  renew-Keeps identity_of a m = ground arith

  pub get-put : (id : Text) (r : Row F) (rs : Rows F) → get (put id r rs) id ≡ some r
  get-put id r [] = rw (str_eq_refl id) refl
  get-put id r ((k, s) ∷ rs) = elim (Bool-cases (str_eq k id)) [
    | inl e ↦ rw e (rw e refl)
    | inr e ↦ rw e (rw e (get-put id r rs))
  ]
