-- ===== src/Agent/Panel/Calls.antt =====
-- What the calls of `Controller` change, crates/netlane-agent/src/lib.rs, and when
-- crates/netlane-app/src/lifecycle.rs lets the program end.
use netlane.Prelude.{
  Bool, true, false, List, Text, ◌≡◌, ◌↔◌, refl, arith, inl, inr, Result, Result-cases, ◌>>◌,
}
use netlane.Model.{RoutingPolicy}
use netlane.Model.Policies.{Library, validate_policies}
use netlane.Agent.Panel.{
  SessionState, Command, start_session, Controller, validate_start, start_valid, start, update,
  stop, ExitDecision, exit_decision,
}

-- Neither flag is changed.
abbrev pub Same : {V : Type 0} → Controller V → Controller V → Type 0
Same c d =
    (d.state.running ≡ c.state.running) × (d.state.cleanup_confirmed ≡ c.state.cleanup_confirmed)

module _ {V : Type 0} (lib : Library) where
  start_valid-Same : (command : Command V) (c : Controller V) → Same c (start_valid command c).1
  start_valid-Same command c = ground arith

  pub start-Same :
      (path : Text) (is_file : Bool) (loaded : Result (Unit {0}))
      (policies : List (RoutingPolicy V)) (allow : Bool) (c : Controller V)
      → Same c (start lib path is_file loaded policies allow c).1
  unfolding start
  start-Same path is_file loaded policies allow c =
      elim (Result-cases (validate_start path is_file loaded >> validate_policies lib policies)) [
        | inl (u, e) ↦ simp (e, start) (start_valid-Same (start_session path policies allow) c)
        | inr (m, e) ↦ simp (e, start) (refl, refl)
      ]

  pub update-Same :
      (policies : List (RoutingPolicy V)) (c : Controller V) → Same c (update lib policies c).1
  unfolding update
  update-Same policies c = elim (Result-cases (validate_policies lib policies)) [
    | inl (u, e) ↦ simp (e, update) ground arith
    | inr (m, e) ↦ simp (e, update) (refl, refl)
  ]

  pub stop-Same : (c : Controller V) → Same c (stop c).1
  unfolding stop
  stop-Same c = ground arith

-- `exit_decision` lets the program end exactly when nothing is under way, no edit is unsaved, no session
-- runs and the last cleanup is confirmed.
pub exit_decision_iff :
    (dirty : Bool) (s : SessionState)
    → (exit_decision dirty s ≡ ExitDecision.quit)
      ↔ ((s.busy ≡ false) × (dirty ≡ false) × (s.running ≡ false) × (s.cleanup_confirmed ≡ true))
unfolding exit_decision
exit_decision_iff dirty s = ground arith
