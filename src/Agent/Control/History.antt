-- ===== src/Agent/Control/History.antt =====
-- The panel over any number of sessions and calls, crates/netlane-agent/src/lib.rs, and the exit that
-- crates/netlane-app/src/lifecycle.rs allows.
use netlane.Prelude.{
  Bool, true, false, List, [], ◌∷◌, ◌++◌, All, Option, none, some, Text, text, if◌then◌else◌, ◌≡◌,
  refl, sym, ◌∙◌, Bool-cases, inl, inr, Result, ok, err, Result-cases,
}
use netlane.Model.{RoutingPolicy}
use netlane.Model.Policies.{Library}
use netlane.Agent.Panel.{SessionState, Command, Controller, ExitDecision}
use netlane.Agent.Panel
use netlane.Agent.Panel.Calls.{Same, start-Same, update-Same, stop-Same, exit_decision_iff}
use netlane.Agent.Exchange.Confirms.{confirms}
use netlane.Agent.Control.{Session, control_session, settle, handle}
use netlane.Agent.Control.Outcome.{Outcome, control_session-Outcome}

-- The panel, whether its loop is in a session, and the sessions whose agent it launched.
pub record Machine (V : Type 0) : Type 0 where
  pub panel : Controller V
  pub going : Bool
  pub launched : List (Session V)

abbrev pub initial : {V : Type 0} → Machine V
initial = record { panel = Panel.new; going = false; launched = [] }

abbrev pub launches : {V : Type 0} → Session V → Command V → SessionState → List (Session V)
launches session (Command.start_session path policies allow) s =
    if s.cleanup_confirmed then elim session.launched [ err m ↦ [] | ok pid ↦ session ∷ [] ] else []
launches session _ s = []

module _ {V : Type 0} (lib : Library) where
  -- A call of the panel at any time, or the loop's next command; the session takes commands off the queue
  -- too, and more may come, so any may be left.
  pub data Step : Machine V → Machine V → Type 0 where
    started :
        (m : Machine V) (path : Text) (is_file : Bool) (loaded : Result (Unit {0}))
        (policies : List (RoutingPolicy V)) (allow : Bool)
        → Step m
            (record m { panel = (Panel.start lib path is_file loaded policies allow m.panel).1 })
    updated :
        (m : Machine V) (policies : List (RoutingPolicy V))
        → Step m (record m { panel = (Panel.update lib policies m.panel).1 })
    stopped : (m : Machine V) → Step m (record m { panel = (Panel.stop m.panel).1 })
    handled :
        (m : Machine V) (session : Session V) (command : Command V) (rest left : List (Command V))
        → m.going ≡ false
        → m.panel.queue ≡ command ∷ rest
        → Step m (record {
          panel = record m.panel { state = (handle session command m.panel.state).1; queue = left };
          going = (handle session command m.panel.state).0;
          launched = launches session command m.panel.state ++ m.launched;
        })

  pub data Reachable : Machine V → Type 0 where
    begun : Reachable initial
    more : (m n : Machine V) → Reachable m → Step m n → Reachable n

-- The agent of the session has exited, and has reported that its cleanup succeeded.
abbrev pub Clean : {V : Type 0} → Session V → Type 0
Clean session = (session.exited ≡ true) × (confirms session.script ≡ true)

-- In a session the panel shows as running; outside of one it does not, and a confirmed cleanup is
-- that of every agent launched.
record IsSafe {V : Type 0} (m : Machine V) : Type 0 where
  going : m.going ≡ true → m.panel.state.running ≡ true
  idle : m.going ≡ false → m.panel.state.running ≡ false
  clean :
      m.panel.state.running ≡ false → m.panel.state.cleanup_confirmed ≡ true → All Clean m.launched

Same-IsSafe :
    {V : Type 0} (m : Machine V) (d : Controller V)
    → Same m.panel d
    → IsSafe m
    → IsSafe (record m { panel = d })
Same-IsSafe m d (r, c) h = record {
  going = λ g. r ∙ h.going g;
  idle = λ g. r ∙ h.idle g;
  clean = λ a b. h.clean (sym r ∙ a) (sym c ∙ b);
}

module _ {V : Type 0} where
  -- A session that is launched from a state whose cleanup is confirmed.
  settled-IsSafe :
      (session : Session V) (r : Option (Result (Unit {0}))) (t : SessionState)
      (queue : List (Command V)) (is_open : Bool) (launched : List (Session V))
      → Outcome session r t
      → All Clean launched
      → IsSafe (record {
        panel = record { state = (settle (r, t)).1; queue = queue; is_open = is_open };
        going = (settle (r, t)).0;
        launched = session ∷ launched;
      })
  settled-IsSafe session none t queue is_open launched o all = record {
    going = λ _. o.going refl;
    idle = λ g. cc;
    clean = λ a b. ((o.ended a, o.confirmed b), all);
  }
  settled-IsSafe session (some (ok u)) t queue is_open launched o all = record {
    going = λ g. cc;
    idle = λ _. (o.idle (ok u) refl).0;
    clean = λ a b. ((o.ended a, o.confirmed b), all);
  }
  settled-IsSafe session (some (err m)) t queue is_open launched o all = record {
    going = λ g. cc;
    idle = λ _. (o.idle (err m) refl).0;
    clean = λ a b. ((o.ended a, o.confirmed b), all);
  }

  handle-IsSafe :
      (m : Machine V) (session : Session V) (command : Command V) (left : List (Command V))
      → m.going ≡ false
      → IsSafe m
      → IsSafe (record {
        panel = record m.panel { state = (handle session command m.panel.state).1; queue = left };
        going = (handle session command m.panel.state).0;
        launched = launches session command m.panel.state ++ m.launched;
      })
  unfolding handle control_session
  handle-IsSafe m session (Command.update_rules _) left g h = record {
    going = λ x. cc;
    idle = λ _. h.idle g;
    clean = h.clean;
  }
  handle-IsSafe m session Command.stop_session left g h = record {
    going = λ x. cc;
    idle = λ _. h.idle g;
    clean = h.clean;
  }
  handle-IsSafe m session (Command.start_session path policies allow) left g h =
      let begun : SessionState = record m.panel.state {
        busy = true;
        cleanup_confirmed = true;
        detail = text "Aguardando autorização do Windows…";
      } in
      elim (Bool-cases m.panel.state.cleanup_confirmed) [
        | inr c ↦
            simp (c, handle) (record { going = λ x. cc; idle = λ _. h.idle g; clean = h.clean })
        | inl c ↦ elim (Result-cases session.launched) [
          | inr (x, e) ↦
              simp (c, e, handle, control_session)
                (record { going = λ y. cc; idle = λ _. h.idle g; clean = λ a _. h.clean a c })
          | inl (pid, e) ↦
              simp (c, e, handle)
                (settled-IsSafe session (control_session session path begun).0
                  (control_session session path begun).1 left m.panel.is_open m.launched
                  (control_session-Outcome session path begun pid e) (h.clean (h.idle g) c))
        ]
      ]

  Step-IsSafe : (lib : Library) (m n : Machine V) → Step lib m n → IsSafe m → IsSafe n
  Step-IsSafe lib m _ (started _ path is_file loaded policies allow) h =
      Same-IsSafe m _ (start-Same lib path is_file loaded policies allow m.panel) h
  Step-IsSafe lib m _ (updated _ policies) h = Same-IsSafe m _ (update-Same lib policies m.panel) h
  Step-IsSafe lib m _ (stopped _) h = Same-IsSafe m _ (stop-Same lib m.panel) h
  Step-IsSafe lib m _ (handled _ session command rest left g q) h =
      handle-IsSafe m session command left g h

  Reachable-IsSafe : (lib : Library) (m : Machine V) → Reachable lib m → IsSafe m
  Reachable-IsSafe lib _ begun = record { going = λ x. cc; idle = λ _. refl; clean = λ _ _. tt }
  Reachable-IsSafe lib _ (more m n r s) = Step-IsSafe lib m n s (Reachable-IsSafe lib m r)

-- In every state that the panel reaches, over any calls, sessions, messages, failures and orders of them,
-- the program may end only if every agent that it ever launched has exited and has reported that its
-- cleanup succeeded.
pub Reachable-quit :
    {V : Type 0} (lib : Library) (m : Machine V) (dirty : Bool)
    → Reachable lib m
    → Panel.exit_decision dirty m.panel.state ≡ ExitDecision.quit
    → All Clean m.launched
Reachable-quit lib m dirty r q =
    let s = Reachable-IsSafe lib m r in
    let (_, _, running, confirmed) = (exit_decision_iff dirty m.panel.state).0 q in
    s.clean running confirmed
