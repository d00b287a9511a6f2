-- ===== src/DefaultConnection/Apply/Foreign.antt =====
-- `Receipt::revert` of crates/netlane-core/src/default_connection.rs and a priority that another program set.
use netlane.Prelude.{
  ℕ, Bool, true, ◌||◌, List, [], ◌∷◌, reverse, Option, some, Text, All, All-reverse, find, ◌==◌,
  ◌≡◌, ◌≢◌, ◌⊎◌, inl, inr, sym, ap, subst, ◌∙◌, arith, Bool-cases, ok, Result,
}
use netlane.DefaultConnection.{Interface, Snapshot, Metric, Receipt}
use netlane.DefaultConnection.Plan.{interface, metric_of}
use netlane.DefaultConnection.Apply.{
  Settings, is_ours, active_matches, saved_matches, revert_one, revert_all, revert,
}
use netlane.DefaultConnection.Apply.Priority.{
  HoldsActive, HoldsSaved, active_matches-HoldsActive, saved_matches-HoldsSaved,
}
use netlane.DefaultConnection.Apply.Guard.{Guarded, revert_one-Guarded}
use netlane.DefaultConnection.Apply.Recovery.{read_valid-state}

-- What the operation may have left of an interface: in either store the original's priority or the change's.
abbrev pub IsOurs : Interface → Metric → Interface → Type 0
IsOurs o m i =
    (HoldsActive (metric_of o) i ⊎ HoldsActive m i) × (HoldsSaved (metric_of o) i ⊎ HoldsSaved m i)

-- Another program has set the interface of an identifier: it has nothing that the operation may have left.
abbrev pub IsForeign : List Metric → ℕ → Interface → Interface → Type 0
IsForeign changes n i o = o.id ≡ n → All (λ m. m.id ≡ n → ¬ IsOurs o m i) changes

either : (a b : Bool) → (a || b) ≡ true → (a ≡ true) ⊎ (b ≡ true)
either a b h = elim (Bool-cases a) [ inl e ↦ inl e | inr e ↦ inr (ground (arith, h, e)) ]

is_ours-IsOurs : (i o : Interface) (m : Metric) → is_ours i (metric_of o) m ≡ true → IsOurs o m i
is_ours-IsOurs i o m h = (
  elim (either (active_matches i (metric_of o)) (active_matches i m) (ground (arith, h))) [
    | inl e ↦ inl (active_matches-HoldsActive i (metric_of o) e)
    | inr e ↦ inr (active_matches-HoldsActive i m e)
  ],
  elim (either (saved_matches i (metric_of o)) (saved_matches i m) (ground (arith, h))) [
    | inl e ↦ inl (saved_matches-HoldsSaved i (metric_of o) e)
    | inr e ↦ inr (saved_matches-HoldsSaved i m e)
  ],
)

find-All :
    (P : Metric → Type 0) (n : ℕ) (ms : List Metric) (m : Metric)
    → All P ms
    → find (λ x. x.id == n) ms ≡ some m
    → P m × (m.id ≡ n)
find-All P n [] m h e = cc
find-All P n (x ∷ ms) m h e = elim (Bool-cases (x.id == n)) [
  | inl hit ↦
      let same : x ≡ m = ground (arith, e, hit) in
      (subst P same h.0, ap (λ y. y.id) (sym same) ∙ ground (arith, hit))
  | inr miss ↦ find-All P n ms m h.1 (ground (arith, e, miss))
]

-- What the system holds of one interface. A reading shows it and leaves it alone, so that no other program
-- sets this interface while the revert runs; and a write concerns the interface that it names only.
pub record IsWatched {W : Type 0} (settings : Settings W) (n : ℕ) : Type 0 where
  pub row : W → Option Interface
  pub read_shows :
      (w : W) (now : Snapshot) (i : Interface)
      → (settings.read w).0 ≡ ok now
      → interface now n ≡ ok i
      → row (settings.read w).1 ≡ some i
  pub read_keeps : (w : W) → row (settings.read w).1 ≡ row w
  pub write_other : (m : Metric) (w : W) → m.id ≢ n → row (settings.write m w).1 ≡ row w

module _ {W : Type 0} (settings : Settings W) (n : ℕ) (law : IsWatched settings n) where
  open law use {row, read_shows, read_keeps, write_other}

  Guarded-row :
      (changes : List Metric) (o i : Interface) (w : W) (out : Result (Unit {0}) × W)
      → row w ≡ some i
      → IsForeign changes n i o
      → Guarded settings changes o w out
      → row out.1 ≡ some i
  Guarded-row changes o i w (r, v) h foreign (inl e) = ap row e ∙ read_keeps w ∙ h
  Guarded-row changes o i w (r, v) h foreign (inr (now, seen, over, e)) =
      elim (Bool-cases (o.id == n)) [
        | inr other ↦
            ap (λ p. row p.1) e
            ∙ write_other (metric_of o) (settings.read w).1 (λ q. ground (arith, other, q))
            ∙ read_keeps w
            ∙ h
        | inl hit ↦
            let this : o.id ≡ n = ground (arith, hit) in
            let shown : row (settings.read w).1 ≡ some over.found =
              read_shows w now over.found seen (ap (interface now) (sym this) ∙ over.present) in
            let same_row : some over.found ≡ some i = sym shown ∙ read_keeps w ∙ h in
            let same : over.found ≡ i = cc in
            let (not_ours, names_it) =
              find-All (λ m. m.id ≡ n → ¬ IsOurs o m i) o.id changes over.change (foreign this)
                over.known in
            absurd (
              not_ours (names_it ∙ this) (
                subst (IsOurs o over.change) same
                  (is_ours-IsOurs over.found o over.change over.ours)))
      ]

  revert_all-row :
      (changes : List Metric) (os : List Interface) (errors : List Text) (i : Interface) (w : W)
      → row w ≡ some i
      → All (IsForeign changes n i) os
      → row (revert_all settings changes os errors w).1 ≡ some i
  unfolding revert_all
  revert_all-row changes [] errors i w h k = h
  revert_all-row changes (o ∷ os) errors i w h k =
      revert_all-row changes os _ i (revert_one settings changes o w).1
        (Guarded-row changes o i w (revert_one settings changes o w) h k.0
          (revert_one-Guarded settings changes o w))
        k.1

  -- A revert leaves an interface that another program has set before it as it is, whatever else it reverts and
  -- whatever fails: if the active or the saved priority is neither the original's nor the change's, and nobody
  -- sets the interface during the revert, the interface has after the revert what it had before it.
  pub revert-foreign :
      (receipt : Receipt) (i : Interface) (w : W)
      → row w ≡ some i
      → All (IsForeign receipt.changes n i) receipt.original
      → row (revert settings receipt w).1 ≡ some i
  unfolding revert
  revert-foreign receipt i w h k =
      let v = (revert_all settings receipt.changes (reverse receipt.original) [] w).1 in
      ap row (read_valid-state settings v)
      ∙ read_keeps v
      ∙ revert_all-row receipt.changes (reverse receipt.original) [] i w h
          (All-reverse (IsForeign receipt.changes n i) receipt.original k)
