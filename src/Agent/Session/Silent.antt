-- ===== src/Agent/Session/Silent.antt =====
-- What the loop of a session in crates/netlane-agent/src/lib.rs sends.
use netlane.Prelude.{
  ℕ, Bool, false, List, [], ◌∷◌, ◌++◌, any, Text, ◌≡◌, refl, arith, Bool-cases, Option-cases, inl,
  inr, Result, ok, err, Result-cases,
}
use netlane.Model.{PlannedRule}
use netlane.Model.Policies.{Library, validate_policies}
use netlane.Engine.{PolicySession, RoutingEngine}
use netlane.Windows.Protocol.{Message}
use netlane.Agent.Cycle.{apply_cycle}
use netlane.Agent.Session.{
  Event, received, owner_tick, tick, Serving, on_message, on_cycle, serve_one, serve,
}

-- The report of a cleanup that succeeded.
abbrev pub is_success : {V : Type 0} → Message V → Bool
is_success (Message.stopped success detail) = success
is_success _ = false

-- No such report has been sent.
abbrev pub Silent : {V : Type 0} → List (Message V) → Type 0
Silent sent = any is_success sent ≡ false

pub Silent-append :
    {V : Type 0} (sent more : List (Message V))
    → Silent sent
    → any is_success (sent ++ more) ≡ any is_success more
Silent-append [] more h = refl
Silent-append (m ∷ sent) more h = ground (arith, h, Silent-append sent more)

module _ {S K V : Type 0} (lib : Library) (p : PolicySession S K) (process_id : ℕ)
    (path : Text) where
  on_cycle-Silent :
      (r : Result (List PlannedRule)) (e : RoutingEngine S K) (w : Result (Unit {0}))
      (s : Serving S K V)
      → Silent s.sent
      → Silent (on_cycle lib p process_id path (r, e) w s).1.sent
  unfolding on_cycle
  on_cycle-Silent (ok rules) e w s h = Silent-append s.sent _ h
  on_cycle-Silent (err m) e w s h = elim (Bool-cases e.poisoned) [
    | inl c ↦ simp (c, on_cycle) h
    | inr c ↦ simp (c, on_cycle) (Silent-append s.sent _ h)
  ]

  on_message-Silent :
      (now : ℕ) (message : Result (Message V)) (w : Result (Unit {0})) (s : Serving S K V)
      → Silent s.sent
      → Silent (on_message lib p process_id path now message w s).1.sent
  unfolding on_message
  on_message-Silent now (err m) w s h = h
  on_message-Silent now (ok (Message.update next)) w s h =
      elim (Result-cases (validate_policies lib next)) [
        | inl (u, e) ↦ simp (e, on_message) h
        | inr (m, e) ↦ simp (e, on_message) (Silent-append s.sent _ h)
      ]
  on_message-Silent now (ok (Message.default_hello _)) w s h = h
  on_message-Silent now (ok (Message.default_apply _)) w s h = h
  on_message-Silent now (ok (Message.default_result _)) w s h = h
  on_message-Silent now (ok Message.default_ack) w s h = h
  on_message-Silent now (ok (Message.default_finished _)) w s h = h
  on_message-Silent now (ok (Message.hello _)) w s h = h
  on_message-Silent now (ok (Message.start _ _ _)) w s h = h
  on_message-Silent now (ok Message.ping) w s h = h
  on_message-Silent now (ok Message.stop) w s h = h
  on_message-Silent now (ok (Message.snapshot _ _ _ _ _)) w s h = h
  on_message-Silent now (ok (Message.error _)) w s h = h
  on_message-Silent now (ok (Message.stopped _ _)) w s h = h

  serve_one-Silent :
      (e : Event V) (s : Serving S K V)
      → Silent s.sent
      → Silent (serve_one lib p process_id path e s).1.sent
  unfolding serve_one
  serve_one-Silent (received now message w) s h = on_message-Silent now message w s h
  serve_one-Silent (owner_tick now alive) s h = ground (arith, h)
  serve_one-Silent (tick adapters exists w) s h =
      let o = apply_cycle lib p s.engine s.policies adapters exists in on_cycle-Silent o.0 o.1 w s h

  pub serve-Silent :
      (es : List (Event V)) (s : Serving S K V)
      → Silent s.sent
      → Silent (serve lib p process_id path es s).1.sent
  unfolding serve
  serve-Silent [] s h = h
  serve-Silent (e ∷ es) s h =
      let o = serve_one lib p process_id path e s in
      let k = serve_one-Silent e s h in
      elim (Option-cases o.0) [
        | inl q ↦ simp (q, serve) (serve-Silent es o.1 k)
        | inr (r, q) ↦ simp (q, serve) k
      ]
