-- ===== src/DefaultConnection/Plan/Lookup.antt =====
-- Searches among the interfaces of a consistent reading of
-- crates/netlane-core/src/default_connection.rs, and among the changes planned for them.
use netlane.Prelude.{
  ℕ, Bool, false, List, [], ◌∷◌, map, Option, none, some, ◌≡◌, ◌≢◌, refl, sym, ap, arith, All,
  All-map, All-both, any, find, select, ◌==◌, if◌then◌else◌, inl, inr, Bool-cases,
}
use netlane.DefaultConnection.{Interface, Metric}
use netlane.DefaultConnection.Plan.{by_index, planned}
use netlane.DefaultConnection.Plan.Valid.{Apart, Distinct}
use netlane.DefaultConnection.Plan.Written.{change_of, write_interface, set_metric-Keeps}

abbrev pub by_id_of : List Interface → ℕ → Option Interface
by_id_of is n = find (λ j. j.id == n) is

module _ (f : Interface → Bool) where
  none_later :
      (n : ℕ) (js : List Interface) → All (λ k. k.id ≢ n) js → by_id_of (select f js) n ≡ none
  none_later n [] h = refl
  none_later n (j ∷ js) h = ground (arith, none_later n js h.1)

  -- Among the selected interfaces one finds exactly those that pass the test.
  abbrev pub Selects : List Interface → Interface → Type 0
  Selects is j = by_id_of (select f is) j.id ≡ (if f j then some j else none)

  Selects-cons :
      (i : Interface) (is : List Interface) (j : Interface)
      → Apart i j × Selects is j
      → Selects (i ∷ is) j
  Selects-cons i is j h = ground arith

  pub Selects-All : (is : List Interface) → Distinct is → All (Selects is) is
  Selects-All [] d = tt
  Selects-All (i ∷ is) d = (
    let gone : by_id_of (select f is) i.id ≡ none =
          none_later i.id is (All-map (Apart i) (λ k. k.id ≢ i.id) is (λ k h e. h.0 (sym e)) d.0) in
        ground arith,
    All-map (λ j. Apart i j × Selects is j) (Selects (i ∷ is)) is (Selects-cons i is)
        (All-both (Apart i) (Selects is) is d.0 (Selects-All is d.1)),
  )

  none_indexed :
      (n : ℕ) (js : List Interface)
      → All (λ k. k.index ≢ n) js
      → any (λ k. k.index == n) (select f js) ≡ false
  none_indexed n [] h = refl
  none_indexed n (j ∷ js) h = ground (arith, none_indexed n js h.1)

  -- Where the interface of an index does not pass the test, no selected one has the index.
  pub unselected :
      (is : List Interface) (n : ℕ) (i : Interface)
      → Distinct is
      → by_index is n ≡ some i
      → f i ≡ false
      → any (λ k. k.index == n) (select f is) ≡ false
  unselected [] n i d e h = cc
  unselected (j ∷ is) n i d e h = elim (Bool-cases (j.index == n)) [
    | inr miss ↦ ground (arith, unselected is n i d.1 (ground arith) h)
    | inl hit ↦
        let same : j ≡ i = ground arith in
        let dropped : f j ≡ false = rw same h in
        let others : any (λ k. k.index == n) (select f is) ≡ false =
          none_indexed n is
            (All-map (Apart j) (λ k. k.index ≢ n) is (λ k a q. a.1 (ground arith)) d.0) in
        rw dropped others
  ]

  pub unindexed :
      (is : List Interface) (n : ℕ)
      → by_index is n ≡ none
      → any (λ k. k.index == n) (select f is) ≡ false
  unindexed [] n e = refl
  unindexed (j ∷ is) n e = ground (arith, unindexed is n)

found_later-id :
    (i : Interface) (is : List Interface) (j : Interface)
    → Apart i j × (by_id_of is j.id ≡ some j)
    → by_id_of (i ∷ is) j.id ≡ some j
found_later-id i is j h = ground arith

found_later-index :
    (i : Interface) (is : List Interface) (j : Interface)
    → Apart i j × (by_index is j.index ≡ some j)
    → by_index (i ∷ is) j.index ≡ some j
found_later-index i is j h = ground arith

pub found_by_id : (is : List Interface) → Distinct is → All (λ j. by_id_of is j.id ≡ some j) is
found_by_id [] d = tt
found_by_id (i ∷ is) d = (
  ground arith,
  All-map _ (λ j. by_id_of (i ∷ is) j.id ≡ some j) is (found_later-id i is)
      (All-both (Apart i) (λ j. by_id_of is j.id ≡ some j) is d.0 (found_by_id is d.1)),
)

pub found_by_index :
    (is : List Interface) → Distinct is → All (λ j. by_index is j.index ≡ some j) is
found_by_index [] d = tt
found_by_index (i ∷ is) d = (
  ground arith,
  All-map _ (λ j. by_index (i ∷ is) j.index ≡ some j) is (found_later-index i is)
      (All-both (Apart i) (λ j. by_index is j.index ≡ some j) is d.0 (found_by_index is d.1)),
)

-- The change planned for an identifier is that of the interface found by it.
abbrev pub plan_of : ℕ → ℕ → Option Interface → Option Metric
plan_of preferred t none = none
plan_of preferred t (some i) = some (planned preferred t i)

pub change_of-planned :
    (preferred t n : ℕ) (js : List Interface)
    → change_of (map (planned preferred t) js) n ≡ plan_of preferred t (by_id_of js n)
change_of-planned preferred t n [] = refl
change_of-planned preferred t n (j ∷ js) = ground (arith, change_of-planned preferred t n js)

pub by_id-write_some :
    (ms : List Metric) (is : List Interface) (n : ℕ) (i : Interface)
    → by_id_of is n ≡ some i
    → by_id_of (map (write_interface ms) is) n ≡ some (write_interface ms i)
by_id-write_some ms [] n i h = cc
by_id-write_some ms (j ∷ is) n i h =
    let k = (set_metric-Keeps (change_of ms j.id) j).same_id in
    elim (Bool-cases (j.id == n)) [
      | inl hit ↦
          let e : j ≡ i = ground arith in simp (k, hit) (ap (λ x. some (write_interface ms x)) e)
      | inr miss ↦ simp (k, miss) (by_id-write_some ms is n i (ground arith))
    ]
