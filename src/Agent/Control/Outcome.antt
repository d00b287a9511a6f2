-- ===== src/Agent/Control/Outcome.antt =====
-- The outcome of one session of the panel, crates/netlane-agent/src/lib.rs.
use netlane.Prelude.{
  ℕ, Bool, true, false, not, ◌+◌, ◌&&◌, ◌||◌, List, [], ◌∷◌, Option, none, some, Text,
  if◌then◌else◌, ◌≡◌, refl, sym, ◌∙◌, arith, leb, Bool-cases, Option-cases, inl, inr, Result, ok,
  err, Result-cases, ensure, ◌>>◌, >>=-eq-ok, ensure-eq-ok,
}
use netlane.Agent.Panel.{SessionState, Command}
use netlane.Agent.Exchange.Confirms.{confirms, Follows, exchange-Follows}
use netlane.Agent.Control.{
  Session, Round, on_wait, is_closed, exit_limit, warn, wait_rounds, wait_for_agent_exit, leave,
  converse, control_session, diagnose,
}

-- The wait leaves the confirmation as it is, and a running session running.
abbrev Waits : SessionState → SessionState → Type 0
Waits s t = (s.running ≡ true → t.running ≡ true) × (t.cleanup_confirmed ≡ s.cleanup_confirmed)

on_wait-Waits :
    {V : Type 0} (command : Option (Command V)) (s : SessionState) → Waits s (on_wait command s)
on_wait-Waits none s = ground arith
on_wait-Waits (some (Command.start_session _ _ _)) s = ground arith
on_wait-Waits (some (Command.update_rules _)) s = ground arith
on_wait-Waits (some Command.stop_session) s = ground arith

opened-Waits :
    (late : Bool) (s : SessionState)
    → Waits s (warn late (record s { running = true; busy = true }))
opened-Waits true s = ground arith
opened-Waits false s = ground arith

answered-Waits :
    {V : Type 0} (is_open : Bool) (command : Option (Command V)) (s : SessionState)
    → Waits s (if is_open then on_wait command s else s)
answered-Waits true command s = on_wait-Waits command s
answered-Waits false command s = ground arith

wait_rounds-Waits :
    {V : Type 0} (deadline : ℕ) (rounds : List (Round V)) (warned is_open : Bool) (s : SessionState)
    → Waits s (wait_rounds deadline rounds warned is_open s)
unfolding wait_rounds
wait_rounds-Waits deadline [] warned is_open s = ground arith
wait_rounds-Waits deadline ((now, none) ∷ rest) warned is_open s =
    let late = not warned && leb deadline now in
    let t = warn late (record s { running = true; busy = true }) in
    let a = opened-Waits late s in
    let b = wait_rounds-Waits deadline rest (warned || late) is_open t in
    (λ h. b.0 (a.0 h), b.1 ∙ a.1)
wait_rounds-Waits deadline ((now, some command) ∷ rest) warned is_open s =
    let late = not warned && leb deadline now in
    let t = warn late (record s { running = true; busy = true }) in
    let a = opened-Waits late s in
    let b = answered-Waits is_open command t in
    let c =
      wait_rounds-Waits deadline rest (warned || late) (is_open && not (is_closed command))
        (if is_open then on_wait command t else t) in
    (λ h. c.0 (b.0 (a.0 h)), c.1 ∙ b.1 ∙ a.1)

diagnose-Waits : (result : Result (Unit {0})) (s : SessionState) → Waits s (diagnose result s)
diagnose-Waits (ok u) s = ground arith
diagnose-Waits (err m) s = ground arith

-- The check that ends a session succeeds only if the cleanup is confirmed.
ended_well :
    (result : Result (Unit {0})) (c : Bool) (m : Text)
    → some (result >> ensure c m) ≡ some (ok tt)
    → c ≡ true
ended_well result c m x =
    let q : result >> ensure c m ≡ ok tt = cc in
    let (_, _, e) = >>=-eq-ok result (λ _. ensure c m) q in ensure-eq-ok c m e

module _ {V : Type 0} where
  -- A session that goes on shows as running. One that has ended does not, its agent has exited, and it was
  -- launched. The cleanup counts as confirmed only on the agent's word, and success says that it does.
  pub record Outcome (session : Session V) (r : Option (Result (Unit {0}))) (t : SessionState)
      : Type 0 where
    pub going : r ≡ none → t.running ≡ true
    pub ended : t.running ≡ false → session.exited ≡ true
    pub idle :
        (result : Result (Unit {0})) → r ≡ some result → (t.running ≡ false) × (t.busy ≡ false)
    pub confirmed : t.cleanup_confirmed ≡ true → confirms session.script ≡ true
    pub success : r ≡ some (ok tt) → t.cleanup_confirmed ≡ true

  leave-Outcome :
      (session : Session V) (result : Result (Unit {0})) (s : SessionState)
      → s.running ≡ true
      → (s.cleanup_confirmed ≡ true → confirms session.script ≡ true)
      → Outcome session (leave session result s).0 (leave session result s).1
  unfolding leave wait_for_agent_exit
  leave-Outcome session result s h k =
      let u =
        wait_rounds (session.left_at + exit_limit) session.rounds false true (diagnose result s) in
      let d = diagnose-Waits result s in
      let w =
        wait_rounds-Waits (session.left_at + exit_limit) session.rounds false true
          (diagnose result s) in
      let runs : u.running ≡ true = w.0 (d.0 h) in
      let same : u.cleanup_confirmed ≡ s.cleanup_confirmed = w.1 ∙ d.1 in
      elim (Bool-cases session.exited) [
        | inr e ↦
            simp (e, leave)
              (record {
                going = λ _. runs;
                ended = λ x. absurd (ground (arith, runs, x));
                idle = λ r x. cc;
                confirmed = λ x. k (sym same ∙ x);
                success = λ x. cc;
              })
        | inl e ↦
            simp (e, leave)
              (record {
                going = λ x. cc;
                ended = λ _. e;
                idle = λ r x. (refl, refl);
                confirmed = λ x. k (sym same ∙ x);
                success = λ x. ended_well result u.cleanup_confirmed _ x;
              })
      ]

  converse-Follows :
      (session : Session V) (pid : ℕ) (path : Text) (s : SessionState)
      → Follows (confirms session.script) s (converse session pid path s).1
  unfolding converse
  converse-Follows session pid path s = elim (Result-cases session.connected) [
    | inr (m, e) ↦ rw (e, converse) ground arith
    | inl (u, e) ↦ rw (e, converse) (exchange-Follows pid path session.script s)
  ]

  -- For a session whose agent is launched, `control_session` has such an outcome.
  pub control_session-Outcome :
      (session : Session V) (path : Text) (s : SessionState) (pid : ℕ)
      → session.launched ≡ ok pid
      → Outcome session (control_session session path s).0 (control_session session path s).1
  unfolding control_session
  control_session-Outcome session path s pid e =
      let begun : SessionState = record s { running = true; cleanup_confirmed = false } in
      let c = converse session pid path begun in
      let f = converse-Follows session pid path begun in
      elim (Option-cases c.0) [
        | inl q ↦
            simp (e, q, control_session)
              (record {
                going = λ _. f.0;
                ended = λ h. absurd (ground (arith, f, h));
                idle = λ r h. cc;
                confirmed = λ h. ground (arith, f, h);
                success = λ h. cc;
              })
        | inr (result, q) ↦
            simp (e, q, control_session)
              (leave-Outcome session result c.1 f.0 (λ h. ground (arith, f, h)))
      ]
