-- ===== src/Agent/Panel.antt =====
-- crates/netlane-agent/src/lib.rs: the session's state in the panel and the calls of `Controller`;
-- crates/netlane-app/src/lifecycle.rs: the decision on exit. The channel of commands is its queue.
pub mod Calls
use netlane.Prelude.{
  Bool, true, false, not, ◌&&◌, List, [], ◌∷◌, ◌++◌, Text, text, if◌then◌else◌, Result, ok, err,
  ensure, ◌>>◌,
}
use netlane.Model.{RoutingPolicy, PlannedRule}
use netlane.Model.Policies.{Library, is_local_path, validate_policies}

-- `struct SessionState`
pub record SessionState : Type 0 where
  pub running : Bool
  pub busy : Bool
  pub cleanup_confirmed : Bool
  pub detail : Text
  pub rules : List PlannedRule

-- `enum Command`
pub data Command (V : Type 0) : Type 0 where
  start_session : Text → List (RoutingPolicy V) → Bool → Command V
  update_rules : List (RoutingPolicy V) → Command V
  stop_session : Command V

-- `struct Controller`, with the commands that the loop has not taken yet and whether it still takes any.
pub record Controller (V : Type 0) : Type 0 where
  pub state : SessionState
  pub queue : List (Command V)
  pub is_open : Bool

-- The state of `Controller::new`.
abbrev pub stopped_state : SessionState
stopped_state = record {
  running = false;
  busy = false;
  cleanup_confirmed = true;
  detail = text "Sessão parada. O painel observa a rede sem elevação.";
  rules = [];
}

-- `Controller::new`
abbrev pub new : {V : Type 0} → Controller V
new = record { state = stopped_state; queue = []; is_open = true }

-- `validate_start`, with what the file system and the load of the policies answer.
unfoldable pub validate_start : Text → Bool → Result (Unit {0}) → Result (Unit {0})
validate_start path is_file loaded =
    ensure (is_local_path path) (text "Caminho remoto/dispositivo recusado.")
    >> ensure is_file (text "Salve as regras em um arquivo local antes de iniciar.")
    >> loaded

-- The guard of `start`.
abbrev pub may_start : SessionState → Bool
may_start s = not s.running && not s.busy && s.cleanup_confirmed

module _ {V : Type 0} where
  -- `sender.send`
  abbrev pub send : Command V → Controller V → Result (Unit {0}) × Controller V
  send command c =
      if c.is_open
      then (ok tt, record c { queue = c.queue ++ command ∷ [] })
      else (err (text "Controlador encerrado."), c)

  -- `start`, once both validations passed.
  abbrev pub start_valid : Command V → Controller V → Result (Unit {0}) × Controller V
  start_valid command c =
      if not (may_start c.state)
      then (err (text "A sessão anterior precisa encerrar com limpeza confirmada."), c)
      else (if c.is_open
          then (
            ok tt,
            record {
              state = record c.state { busy = true };
              queue = c.queue ++ command ∷ [];
              is_open = true;
            },
          )
          else (err (text "Controlador encerrado."), c))

  -- `Controller::start`
  unfoldable pub start :
      Library
      → Text
      → Bool
      → Result (Unit {0})
      → List (RoutingPolicy V)
      → Bool
      → Controller V
      → Result (Unit {0}) × Controller V
  unfolding validate_start
  start lib path is_file loaded policies allow_flags c =
      elim (validate_start path is_file loaded >> validate_policies lib policies) [
        | err m ↦ (err m, c)
        | ok _ ↦ start_valid (start_session path policies allow_flags) c
      ]

  -- `Controller::update`
  pub update : Library → List (RoutingPolicy V) → Controller V → Result Bool × Controller V
  update lib policies c = elim (validate_policies lib policies) [
    | err m ↦ (err m, c)
    | ok _ ↦
        if not c.state.running
        then (ok false, c)
        else (let (r, d) = send (update_rules policies) c in
            (elim r [ ok _ ↦ ok true | err m ↦ err m ], d))
  ]

  -- `Controller::stop`, and `Drop`.
  pub stop : Controller V → Result (Unit {0}) × Controller V
  stop c = send stop_session c

-- `enum ExitDecision`
pub data ExitDecision : Type 0 where
  busy confirm_edits stop_and_wait cleanup_unconfirmed quit : ExitDecision

-- `exit_decision`
unfoldable pub exit_decision : Bool → SessionState → ExitDecision
exit_decision dirty s =
    if s.busy
    then ExitDecision.busy
    else if dirty
    then ExitDecision.confirm_edits
    else if s.running
    then ExitDecision.stop_and_wait
    else if not s.cleanup_confirmed
    then ExitDecision.cleanup_unconfirmed
    else ExitDecision.quit
