-- ===== src/DefaultConnection/Plan/Best.antt =====
-- The best route of a reading of crates/netlane-core/src/default_connection.rs.
use netlane.Prelude.{
  ℕ, ◌≤◌, ◌<◌, true, false, not, ◌&&◌, List, [], ◌∷◌, none, some, ◌≡◌, ◌≢◌, refl, arith, All, any,
  leb, ◌==◌, inl, inr, Bool-cases, Option-cases,
}
use netlane.DefaultConnection.{Route, total}
use netlane.DefaultConnection.Plan.{best, lowest}

best-none : (rs : List Route) → best rs ≡ none → rs ≡ []
unfolding best
best-none [] e = refl
best-none (r ∷ rs) e = elim (Option-cases (best rs)) [
  | inl x ↦ ground arith
  | inr (q, x) ↦ ground arith
]

best_le :
    (t n : ℕ) (rs : List Route) (b : Route)
    → any (λ r. r.index == n && leb (total r) t) rs ≡ true
    → best rs ≡ some b
    → total b ≤ t
unfolding best
best_le t n [] b h e = cc
best_le t n (r ∷ rs) b h e = elim (Option-cases (best rs)) [
  | inr (q, x) ↦ ground (arith, best_le t n rs q)
  | inl x ↦ ground (arith, best-none rs x)
]

best-All : (P : Route → Type 0) (rs : List Route) (b : Route) → All P rs → best rs ≡ some b → P b
unfolding best
best-All P [] b h e = cc
best-All P (r ∷ rs) b h e = elim (Option-cases (best rs)) [
  | inl x ↦ let q : r ≡ b = ground arith in rw (← q) h.0
  | inr (c, x) ↦ elim (Bool-cases (leb (total r) (total c))) [
    | inl le ↦ let q : r ≡ b = ground arith in rw (← q) h.0
    | inr gt ↦ let q : c ≡ b = ground arith in best-All P rs b h.1 (rw (← q) x)
  ]
]

no_rival :
    (t n m : ℕ) (rs : List Route)
    → All (λ r. r.index ≢ n → t < total r) rs
    → m ≤ t
    → any (λ o. not (o.index == n) && leb (total o) m) rs ≡ false
no_rival t n m [] h k = refl
no_rival t n m (r ∷ rs) h k = ground (arith, no_rival t n m rs h.1)

-- Where one interface has a route within a total that all other interfaces' routes exceed, the best
-- route leaves by it and has no rival.
pub best_wins :
    (t n : ℕ) (rs : List Route)
    → any (λ r. r.index == n && leb (total r) t) rs ≡ true
    → All (λ r. r.index ≢ n → t < total r) rs
    → (b : Route) × (best rs ≡ some b)
      × (b.index ≡ n)
      × (any (λ o. not (o.index == n) && leb (total o) (total b)) rs ≡ false)
best_wins t n rs near far = elim (Option-cases (best rs)) [
  | inl e ↦ ground (arith, best-none rs e)
  | inr (b, e) ↦
      let le : total b ≤ t = best_le t n rs b near e in
      let beyond : b.index ≢ n → t < total b =
        best-All (λ r. r.index ≢ n → t < total r) rs b far e in
      (b, e, ground arith, no_rival t n (total b) rs far le)
]

-- The route that gives an interface its lowest metric.
pub lowest-any :
    (n m : ℕ) (rs : List Route)
    → lowest rs n ≡ some m
    → any (λ r. r.index == n && r.route_metric == m) rs ≡ true
lowest-any n m [] h = cc
lowest-any n m (r ∷ rs) h = elim (Option-cases (lowest rs n)) [
  | inl e ↦ ground arith
  | inr (k, e) ↦ ground (arith, lowest-any n m rs)
]
