-- ===== src/Agent/Control.antt =====
-- crates/netlane-agent/src/lib.rs, `controller_loop`, `control_session` and `wait_for_agent_exit`: one
-- session of the panel, from the command to the exit of the agent.
pub mod Outcome
pub mod History
mod Tests
use netlane.Prelude.{
  ℕ, ◌+◌, Bool, true, false, not, ◌&&◌, ◌||◌, List, [], ◌∷◌, ◌++◌, Option, none, some, Text, text,
  leb, if◌then◌else◌, Result, ok, err, ensure, ◌>>◌,
}
use netlane.Windows.Protocol.{Message}
use netlane.Agent.Panel.{SessionState, Command}
use netlane.Agent.Exchange.{Script, exchange}

-- A round of the wait in which the agent still runs: its time, and what `select!` yields, where `none` is
-- the sleep.
abbrev pub Round : Type 0 → Type 0
Round V = ℕ × Option (Option (Command V))

-- What the calls outside this file answer in one session.
pub record Session (V : Type 0) : Type 0 where
  pub launched : Result ℕ
  pub connected : Result (Unit {0})
  pub script : Script V
  pub left_at : ℕ
  pub rounds : List (Round V)
  pub exited : Bool

-- `Duration::from_secs(20)`, in nanoseconds.
abbrev pub exit_limit : ℕ
exit_limit = 20000000000

abbrev pub late_text : Text
late_text =
    text
      "O agente ainda está encerrando. O controlador mantém a sessão sob acompanhamento; limpeza ainda precisa de confirmação."

abbrev pub warn : Bool → SessionState → SessionState
warn late s = if late then record s { detail = late_text } else s

-- The match on a command that comes during the wait.
abbrev pub on_wait : {V : Type 0} → Option (Command V) → SessionState → SessionState
on_wait (some Command.stop_session) s = record s {
  detail =
      text
        "Parada recebida. O canal foi encerrado; aguardando a saída do agente, sem forçar término ou presumir limpeza.";
}
on_wait (some (Command.start_session path policies allow)) s = record s {
  detail = text "A nova sessão precisa aguardar a saída e a limpeza confirmada da anterior.";
}
on_wait _ s = s

abbrev pub is_closed : {V : Type 0} → Option (Command V) → Bool
is_closed none = true
is_closed (some command) = false

-- The loop of `wait_for_agent_exit`: whether the warning was given, whether the channel of commands is open.
pub wait_rounds : {V : Type 0} → ℕ → List (Round V) → Bool → Bool → SessionState → SessionState
wait_rounds deadline [] warned is_open s = s
wait_rounds deadline ((now, yielded) ∷ rest) warned is_open s =
    let late = not warned && leb deadline now in
    let t = warn late (record s { running = true; busy = true }) in
    elim yielded [
      | none ↦ wait_rounds deadline rest (warned || late) is_open t
      | some command ↦
          wait_rounds deadline rest (warned || late) (is_open && not (is_closed command))
            (if is_open then on_wait command t else t)
    ]

abbrev pub diagnose : Result (Unit {0}) → SessionState → SessionState
diagnose (ok _) s = s
diagnose (err m) s = record s { detail = m ++ text ". Aguardando a saída do agente." }

-- The end of a round of `controller_loop`.
abbrev pub settle : Option (Result (Unit {0})) × SessionState → Bool × SessionState
settle (none, s) = (true, s)
settle (some (ok _), s) = (false, s)
settle (some (err m), s) = (false, record s { busy = false; detail = m })

module _ {V : Type 0} where
  -- `wait_for_agent_exit`; `none` is a wait that goes on.
  pub wait_for_agent_exit : Session V → SessionState → Bool × SessionState
  unfolding wait_rounds
  wait_for_agent_exit session s =
      let t = wait_rounds (session.left_at + exit_limit) session.rounds false true s in
      (session.exited, if session.exited then record t { running = false; busy = false } else t)

  -- `control_session`, behind the conversation.
  pub leave :
      Session V → Result (Unit {0}) → SessionState → Option (Result (Unit {0})) × SessionState
  unfolding wait_for_agent_exit
  leave session result s =
      let (exited, t) = wait_for_agent_exit session (diagnose result s) in
      (
        if exited
            then some (
                result
                >> ensure (not t.running && t.cleanup_confirmed)
                    (text "Limpeza ou saída do agente não confirmada."))
            else none,
        t,
      )

  -- The conversation, if the agent connected.
  pub converse : Session V → ℕ → Text → SessionState → Option (Result (Unit {0})) × SessionState
  converse session pid policy_path s = elim session.connected [
    | err m ↦ (some (err m), s)
    | ok _ ↦ exchange pid policy_path session.script s
  ]

  -- `control_session`; `none` is a session that goes on.
  pub control_session : Session V → Text → SessionState → Option (Result (Unit {0})) × SessionState
  unfolding leave converse
  control_session session policy_path s = elim session.launched [
    | err m ↦ (some (err m), s)
    | ok pid ↦
        let (r, t) =
          converse session pid policy_path
            (record s { running = true; cleanup_confirmed = false }) in
        elim r [ none ↦ (none, t) | some result ↦ leave session result t ]
  ]

  -- A round of `controller_loop`: whether its session goes on.
  pub handle : Session V → Command V → SessionState → Bool × SessionState
  unfolding control_session
  handle session (Command.start_session path policies allow) s =
      if not s.cleanup_confirmed
      then (false, s)
      else settle (
          control_session session path
            (record s { busy = true; detail = text "Aguardando autorização do Windows…" }))
  handle session _ s = (false, s)
