-- ===== src/Engine/Sync.antt =====
-- The engine against its session: RoutingEngine::apply of crates/netlane-core/src/engine.rs.
use mathlib.Core.Path.{subst}
use netlane.Prelude.{
  true, false, List, [], ◌≡◌, refl, sym, ap, ◌∙◌, ◌⊎◌, inl, inr, arith, text, Result, ok, err,
  is_ok, Bool-cases, Result-cases,
}
use netlane.Model.{PlannedRule, rules_eq, rules_eq_sound}
use netlane.Engine.{
  PolicySession, RoutingEngine, active, transaction, roll_back, finish, run_begun, apply,
}
use netlane.Engine.Laws.{IsTransactional}
use netlane.Engine.Installed.{Installs, keys_of, transaction-saved, transaction_lem}

module _ {S K : Type 0} (p : PolicySession S K) (law : IsTransactional p) where
  open law use {
    installed, saved, begin_installed, begin_saved, delete_saved, delete_first, add_saved, add_last,
    commit_installed, commit_saved, abort_installed, close_installed,
  }

  -- An engine that has not ended its session holds exactly the filters of the rules it applied
  -- last, and the keys of those filters.
  abbrev pub InSync : RoutingEngine S K → Type 0
  InSync e =
      e.poisoned ≡ false
      → Installs (active e.previous) (installed e.session)
        × (keys_of (installed e.session) ≡ e.keys)

  -- A rollback that fails ends the session by closing it, and forgets rules and keys.
  abbrev Ended : S → RoutingEngine S K → Type 0
  Ended s f =
      (is_ok (p.abort s).0 ≡ false)
      × (f.session ≡ (p.close (p.abort s).1).1)
      × (f.poisoned ≡ true)
      × (f.previous ≡ [])
      × (f.keys ≡ [])

  roll_back_lem :
      (e : RoutingEngine S K)
      → ((p.abort e.session).0 ≡ ok tt)
          × (roll_back p e ≡ record e { session = (p.abort e.session).1 })
        ⊎ Ended e.session (roll_back p e)
  unfolding roll_back
  roll_back_lem e = elim (Result-cases (p.abort e.session).0) [
    | inl (_, x) ↦ inl (x, rw (x, roll_back))
    | inr (m, x) ↦ inr (
      ground arith,
      rw (x, roll_back) refl,
      rw (x, roll_back) refl,
      rw (x, roll_back) refl,
      rw (x, roll_back) refl,
    )
  ]

  -- After a rollback of a transaction that began on an engine in sync, the engine is in sync.
  roll_back-InSync :
      (e : RoutingEngine S K) (s : S)
      → saved s ≡ installed e.session
      → InSync e
      → e.poisoned ≡ false
      → InSync (roll_back p (record e { session = s }))
  roll_back-InSync e s k i h = elim (roll_back_lem (record e { session = s })) [
    | inl (x, q) ↦ rw q λ _. rw (abort_installed s x ∙ k) (i h)
    | inr x ↦ λ y. let k = x.2 in cc
  ]

  finish-InSync :
      (e : RoutingEngine S K) (rules : List PlannedRule) (s : S)
      → saved s ≡ installed e.session
      → installed s ≡ installed e.session
      → InSync e
      → e.poisoned ≡ false
      → InSync (finish p e rules (transaction p e.keys rules s)).1
  unfolding finish
  finish-InSync e rules s k j i h = elim (Result-cases (transaction p e.keys rules s).0) [
    | inl (out, x) ↦ rw (x, finish) λ _. transaction_lem p law e.keys out rules s (rw j (i h).1) x
    | inr (m, x) ↦
        rw (x, finish)
          (roll_back-InSync e (transaction p e.keys rules s).1
            (transaction-saved p law e.keys rules s ∙ k) i h)
  ]

  module _ (e : RoutingEngine S K) (rules : List PlannedRule) where
    apply_ended :
        e.poisoned ≡ true
        → apply p e rules ≡ (err (text "Sessão encerrada após falha de rollback."), e)
    unfolding apply
    apply_ended ended = ground arith

    pub apply_same :
        e.poisoned ≡ false → rules_eq rules e.previous ≡ true → apply p e rules ≡ (ok tt, e)
    unfolding apply
    apply_same live same = ground arith

    apply_begun :
        e.poisoned ≡ false
        → rules_eq rules e.previous ≡ false
        → apply p e rules ≡ run_begun p e rules (p.begin e.session)
    unfolding apply
    apply_begun live changed = ground arith

  run_begun-InSync :
      (e : RoutingEngine S K) (rules : List PlannedRule)
      → InSync e
      → e.poisoned ≡ false
      → InSync (run_begun p e rules (p.begin e.session)).1
  unfolding run_begun
  run_begun-InSync e rules i live = elim (Result-cases (p.begin e.session).0) [
    | inl (_, x) ↦
        rw (x, run_begun)
          (finish-InSync e rules (p.begin e.session).1 (begin_saved e.session x)
            (begin_installed e.session) i live)
    | inr (m, x) ↦ rw (x, run_begun) (rw (begin_installed e.session) i)
  ]

  -- `apply` keeps an engine in sync, whatever fails on the way.
  pub apply-InSync :
      (e : RoutingEngine S K) (rules : List PlannedRule) → InSync e → InSync (apply p e rules).1
  apply-InSync e rules i = elim (Bool-cases e.poisoned) [
    | inl ended ↦ rw (apply_ended e rules ended) i
    | inr live ↦ elim (Bool-cases (rules_eq rules e.previous)) [
      | inl same ↦ rw (apply_same e rules live same) i
      | inr changed ↦ rw (apply_begun e rules live changed) (run_begun-InSync e rules i live)
    ]
  ]

  -- The engine has the rules in force, their filters exactly, and holds the keys of these filters.
  abbrev InForce : List PlannedRule → RoutingEngine S K → Type 0
  InForce rules f =
      (f.poisoned ≡ false)
      × (f.previous ≡ rules)
      × Installs (active rules) (installed f.session)
      × (keys_of (installed f.session) ≡ f.keys)

  -- Everything is as it was.
  abbrev Unchanged : RoutingEngine S K → RoutingEngine S K → Type 0
  Unchanged e f =
      (f.poisoned ≡ false)
      × (f.previous ≡ e.previous)
      × (f.keys ≡ e.keys)
      × (installed f.session ≡ installed e.session)

  -- The session was closed after a rollback that failed; its filters are gone if the close succeeded.
  abbrev Closed : S → RoutingEngine S K → Type 0
  Closed s f = Ended s f × ((p.close (p.abort s).1).0 ≡ ok tt → installed f.session ≡ [])

  -- How a call of `apply` on a live engine in sync may end: with the rules in force; with an error and
  -- everything as it was; or with an error and the session closed.
  abbrev pub Outcome :
      RoutingEngine S K → List PlannedRule → Result (Unit {0}) × RoutingEngine S K → Type 0
  Outcome e rules (r, f) =
      (r ≡ ok tt) × InForce rules f
      ⊎ (is_ok r ≡ false)
        × (Unchanged e f ⊎ Closed (transaction p e.keys rules (p.begin e.session).1).1 f)

  roll_back-Outcome :
      (e : RoutingEngine S K) (s : S)
      → saved s ≡ installed e.session
      → e.poisoned ≡ false
      → let f = roll_back p (record e { session = s }) in Unchanged e f ⊎ Closed s f
  roll_back-Outcome e s k h = elim (roll_back_lem (record e { session = s })) [
    | inl (x, q) ↦ rw q (inl (h, refl, refl, abort_installed s x ∙ k))
    | inr x ↦ inr (x, λ c. ap installed x.1 ∙ close_installed (p.abort s).1 c)
  ]

  run_begun-Outcome :
      (e : RoutingEngine S K) (rules : List PlannedRule)
      → InSync e
      → e.poisoned ≡ false
      → Outcome e rules (run_begun p e rules (p.begin e.session))
  unfolding run_begun finish
  run_begun-Outcome e rules i live = elim (Result-cases (p.begin e.session).0) [
    | inr (m, x) ↦ rw (x, run_begun) (inr (refl, inl (live, refl, refl, begin_installed e.session)))
    | inl (_, x) ↦
        let s = (p.begin e.session).1 in
        elim (Result-cases (transaction p e.keys rules s).0) [
          | inl (out, y) ↦
              let synced =
                transaction_lem p law e.keys out rules s
                  (ap keys_of (begin_installed e.session) ∙ (i live).1) y in
              rw (x, run_begun, y, finish) (inl (refl, (live, refl, synced.0, synced.1)))
          | inr (m, y) ↦
              rw (x, run_begun, y, finish)
                (inr (
                  refl,
                  roll_back-Outcome e (transaction p e.keys rules s).1
                      (transaction-saved p law e.keys rules s ∙ begin_saved e.session x) live,
                ))
        ]
  ]

  -- `apply` on a live engine that is in sync succeeds with exactly the filters of the non-automatic rules in
  -- force; or fails and leaves the rules, the keys and the filters in force as they were; or fails, its
  -- rollback failing too, closes the session and forgets rules and keys, and if that close succeeds no filter
  -- is in force.
  pub apply-Outcome :
      (e : RoutingEngine S K) (rules : List PlannedRule)
      → InSync e
      → e.poisoned ≡ false
      → Outcome e rules (apply p e rules)
  apply-Outcome e rules i live = elim (Bool-cases (rules_eq rules e.previous)) [
    | inl same ↦
        let is_it = rules_eq_sound rules e.previous same in
        let (filters, keys) = i live in
        rw (apply_same e rules live same) (
          inl (
            refl,
            (
              live,
              sym is_it,
              subst (λ rs. Installs (active rs) (installed e.session)) (sym is_it) filters,
              keys,
            ),
          ))
    | inr changed ↦ rw (apply_begun e rules live changed) (run_begun-Outcome e rules i live)
  ]

  run_begun-previous :
      (e : RoutingEngine S K) (rules : List PlannedRule)
      → (run_begun p e rules (p.begin e.session)).0 ≡ ok tt
      → let f = (run_begun p e rules (p.begin e.session)).1 in
        (f.poisoned ≡ e.poisoned) × (f.previous ≡ rules)
  unfolding run_begun finish
  run_begun-previous e rules h = elim (Result-cases (p.begin e.session).0) [
    | inr (m, x) ↦ absurd (ground (arith, h, x))
    | inl (_, x) ↦ elim (Result-cases (transaction p e.keys rules (p.begin e.session).1).0) [
      | inl (out, y) ↦ rw (x, run_begun, y, finish) (refl, refl)
      | inr (m, y) ↦ absurd (ground (arith, h, x, y))
    ]
  ]

  -- A success is remembered, in sync or not.
  pub apply-previous :
      (e : RoutingEngine S K) (rules : List PlannedRule)
      → e.poisoned ≡ false
      → (apply p e rules).0 ≡ ok tt
      → ((apply p e rules).1.poisoned ≡ false) × ((apply p e rules).1.previous ≡ rules)
  apply-previous e rules live h = elim (Bool-cases (rules_eq rules e.previous)) [
    | inl same ↦
        rw (apply_same e rules live same) (live, sym (rules_eq_sound rules e.previous same))
    | inr changed ↦
        let begun = apply_begun e rules live changed in
        let k = run_begun-previous e rules (ap (λ r. r.0) (sym begun) ∙ h) in
        rw begun (k.0 ∙ live, k.1)
  ]
