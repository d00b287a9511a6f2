-- ===== src/Quality/Monitor/Sessions.antt =====
-- `sync` and `prepare` of crates/netlane-core/src/quality.rs do not panic.
use netlane.Prelude.{
  ℕ, ◌≤◌, List, [], ◌∷◌, length, any, select, Option, some, Text, str_eq, ◌≡◌, ◌∙◌, refl, ap, subst,
  arith, All, Bool-cases, Option-cases, inl, inr,
}
use netlane.Model.{Adapter}
use netlane.Quality.Window.{Floats}
use netlane.Quality.Monitor.{
  Monitor, Row, Request, Target, Identity, Phase, phase_eq, get, put, is_current, renew, refresh,
  refresh_row, sync_one, sync_all, sync, visible,
}
use netlane.Quality.Monitor.Reachable.{Stage, IsValid, Keeps, renew-Keeps, get-put, phase_eq_sound}

-- A request of the session that the monitor is in.
abbrev pub Issued : {F : Type 0} → Monitor F → Request → Type 0
Issued m q =
    (q.cancel ≡ m.cancel)
    × (q.generation ≡ m.generation)
    × (m.target ≡ some q.target)
    × (m.destination ≡ some q.destination)

module _ {F : Type 0} where
  Keeps-trans : (a b c : Monitor F) → Keeps a b → Keeps b c → Keeps a c
  Keeps-trans a b c (p1, p2, p3, p4, p5, p6) (q1, q2, q3, q4, q5, q6) =
      (q1 ∙ p1, q2 ∙ p2, q3 ∙ p3, q4 ∙ p4, q5 ∙ p5, q6 ∙ p6)

  renew-get :
      (identity_of : Adapter → Option Identity) (a : Adapter) (m : Monitor F)
      → (r : Row F) × (get (renew identity_of a m).rows a.id ≡ some r)
  renew-get identity_of a m = elim (Bool-cases (is_current (identity_of a) (get m.rows a.id))) [
    | inl e ↦ elim (Option-cases (get m.rows a.id)) [
      | inl gone ↦ ground (arith, e, gone)
      | inr (r, there) ↦ (r, rw e there)
    ]
    | inr e ↦ rw e (_, get-put a.id _ m.rows)
  ]

  -- A step that does not panic and keeps the session and its workers.
  abbrev pub Passes : Monitor F → Option (Monitor F) → Type 0
  Passes m o = (n : Monitor F) × (o ≡ some n) × Keeps m n × (n.running ≡ m.running)

module _ {F : Type 0} (f : Floats F) (identity_of : Adapter → Option Identity) where
  sync_one-Passes :
      (now : ℕ) (a : Adapter) (m : Monitor F) (t : Target)
      → m.target ≡ some t
      → Passes m (sync_one f identity_of now a m)
  unfolding sync_one
  sync_one-Passes now a m t h =
      let n = renew identity_of a m in
      let (kept, workers) = renew-Keeps identity_of a m in
      let (r, there) = renew-get identity_of a m in
      let (p1, p2, p3, p4, p5, p6) = kept in
      (
        record n { rows = put a.id (refresh f now t.mode r) n.rows },
        ap (λ o. refresh_row f now a.id n o n.target) there
            ∙ ap (refresh_row f now a.id n (some r)) (p2 ∙ h),
        kept,
        workers,
      )

  sync_all-Passes :
      (now : ℕ) (adapters : List Adapter) (m : Monitor F) (t : Target)
      → m.target ≡ some t
      → Passes m (sync_all f identity_of now adapters m)
  unfolding sync_all
  sync_all-Passes now [] m t h = (m, refl, (refl, refl, refl, refl, refl, refl), refl)
  sync_all-Passes now (a ∷ adapters) m t h =
      let (n, e, kept, workers) = sync_one-Passes now a m t h in
      let (o, e', kept', workers') = sync_all-Passes now adapters n t (kept.1 ∙ h) in
      (o, rw (e, sync_all) e', Keeps-trans m n o kept kept', workers' ∙ workers)

  pub sync-Passes :
      (adapters : List Adapter) (selected : List Text) (now : ℕ) (m : Monitor F)
      → IsValid m
      → Passes m (sync f identity_of adapters selected now m)
  unfolding sync
  sync-Passes adapters selected now m v = elim (Bool-cases (phase_eq m.phase Phase.active)) [
    | inl e ↦
        let (t, d, at, ad) =
          subst (λ p. Stage p m.target m.destination) (phase_eq_sound m.phase Phase.active e)
            v.ready in
        let (n, q, kept, workers) =
          sync_all-Passes now (visible adapters selected)
            (record m {
              rows = select (λ e. any (λ a. str_eq a.id e.0) (visible adapters selected)) m.rows;
            })
            t at in
        (n, rw e q, kept, workers)
    | inr e ↦ (m, rw e refl, (refl, refl, refl, refl, refl, refl), refl)
  ]

module _ {F : Type 0} where
  -- The state of the loop of `prepare`.
  abbrev Prepared : Monitor F → Monitor F → List Request → Type 0
  Prepared m n qs = Keeps m n × (length n.running ≤ 4) × All (Issued m) qs
