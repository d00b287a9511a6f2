-- ===== src/Agent/Exchange.antt =====
-- crates/netlane-agent/src/lib.rs, `exchange` and `accept_response`: the panel's conversation with the
-- agent. What the code awaits is a script of events, each with its time and the result of the write that
-- it leads to; a script that ends first leaves the conversation going on.
pub mod Confirms
use netlane.Prelude.{
  ℕ, ◌+◌, ◌-◌, Bool, true, false, not, ◌&&◌, List, [], ◌∷◌, ◌++◌, Option, none, some, Text, text,
  ltb, ◌==◌, if◌then◌else◌, eq_ignore_ascii_case, Result, ok, err, ensure, ◌>>◌,
}
use netlane.Model.{RoutingPolicy}
use netlane.Windows.Protocol.{Message, version}
use netlane.Agent.Panel.{SessionState, Command}

-- What `select!` yields.
pub data Event (V : Type 0) : Type 0 where
  received : ℕ → Result (Message V) → Event V
  commanded : ℕ → Option (Command V) → Result (Unit {0}) → Event V
  ping_due : ℕ → Result (Unit {0}) → Event V

-- The local variables of the loop.
pub record Talk : Type 0 where
  pub exiting : Bool
  pub stop_deadline : Option ℕ
  pub last_response : ℕ

-- How a round ends: in another, in a return, or with a write that failed.
pub data Turn : Type 0 where
  goes_on : Turn
  returns : Result (Unit {0}) → Turn
  broken : Text → Turn

abbrev pub turn_of : Result (Unit {0}) → Turn
turn_of (ok _) = Turn.goes_on
turn_of (err m) = Turn.broken m

-- `from_secs(30)` and `from_secs(35)`, in nanoseconds.
abbrev pub stop_limit : ℕ
stop_limit = 30000000000

abbrev pub response_limit : ℕ
response_limit = 35000000000

-- The arm of `inbox.receive()`.
abbrev pub turn_received : Result Bool → Turn
turn_received (err m) = Turn.returns (err m)
turn_received (ok true) = Turn.returns (ok tt)
turn_received (ok false) = Turn.goes_on

abbrev pub past : ℕ → Option ℕ → Bool
past now none = false
past now (some t) = ltb t now

-- The arm of `ping.tick()`.
abbrev pub on_ping : ℕ → Result (Unit {0}) → Talk → Turn
on_ping now written k =
    if past now k.stop_deadline
    then Turn.returns (err (text "O agente não encerrou no prazo; limpeza não confirmada."))
    else (if not (ltb (now - k.last_response) response_limit)
        then Turn.returns (err (text "O agente não respondeu; limpeza não confirmada."))
        else turn_of written)

module _ {V : Type 0} (pid : ℕ) (policy_path : Text) where
  -- `accept_response`
  unfoldable pub accept_response : Message V → SessionState → Result Bool × SessionState
  accept_response (Message.snapshot process_id reported revision rules detail) s =
      if process_id == pid && eq_ignore_ascii_case reported policy_path
      then (ok false, record s { busy = false; detail = detail; rules = rules })
      else (err (text "Retorno não corresponde à sessão iniciada."), s)
  accept_response (Message.error detail) s = (ok false, record s { busy = false; detail = detail })
  accept_response (Message.stopped success detail) s =
      (ok true, record s { cleanup_confirmed = success; detail = detail; rules = [] })
  accept_response _ s = (err (text "Retorno inesperado do agente."), s)

  -- `accept_response(message?, …)?`
  unfoldable pub accept : Result (Message V) → SessionState → Result Bool × SessionState
  unfolding accept_response
  accept (err m) s = (err m, s)
  accept (ok message) s = accept_response message s

  -- The arm of `commands.recv()`.
  unfoldable pub on_command :
      ℕ → Option (Command V) → Result (Unit {0}) → Talk → SessionState → Turn × Talk × SessionState
  on_command now (some (Command.update_rules policies)) written k s = (turn_of written, k, s)
  on_command now (some (Command.start_session path policies allow)) written k s =
      (Turn.goes_on, k, s)
  on_command now _ written k s = (
    turn_of written,
    record k { exiting = true; stop_deadline = some (now + stop_limit) },
    record s { busy = true; detail = text "Encerrando o motor e restaurando opções temporárias…" },
  )

  -- One `select!`; the arm of the commands is off once the session is exiting.
  unfoldable pub exchange_one : Event V → Talk → SessionState → Turn × Talk × SessionState
  unfolding accept on_command
  exchange_one (received now message) k s =
      let (r, t) = accept message s in (turn_received r, record k { last_response = now }, t)
  exchange_one (commanded now command written) k s =
      if k.exiting then (Turn.goes_on, k, s) else on_command now command written k s
  exchange_one (ping_due now written) k s = (on_ping now written k, k, s)

  -- The loop of the final receipt, over what the reader still yields before its timeout.
  unfoldable pub drain :
      Text → List (Result (Message V)) → SessionState → Result (Unit {0}) × SessionState
  drain failure [] s = (err failure, s)
  drain failure (message ∷ rest) s =
      let (r, t) = accept message s in
      elim r [ err m ↦ (err failure, t) | ok b ↦ if b then (ok tt, t) else drain failure rest t ]

  -- The loop of `exchange`; `none` is a conversation that goes on.
  unfoldable pub exchange_loop :
      List (Event V)
      → List (Result (Message V))
      → Talk
      → SessionState
      → Option (Result (Unit {0})) × SessionState
  unfolding exchange_one drain
  exchange_loop [] late k s = (none, s)
  exchange_loop (e ∷ es) late k s =
      let (turn, l, t) = exchange_one e k s in
      elim turn [
        | Turn.goes_on ↦ exchange_loop es late l t
        | Turn.returns r ↦ (some r, t)
        | Turn.broken m ↦
            let (r, u) = drain (text "Canal encerrado sem confirmação de limpeza.: " ++ m) late t in
            (some r, u)
      ]

-- `matches!(…, Message::Hello { version: VERSION })`
abbrev pub is_hello : {V : Type 0} → Message V → Bool
is_hello (Message.hello v) = v == version
is_hello _ = false

-- What the calls outside this file answer: the agent's first message, the write of the request, and the
-- events behind them.
pub record Script (V : Type 0) : Type 0 where
  pub greeting : Result (Message V)
  pub start_sent : Result (Unit {0})
  pub started_at : ℕ
  pub events : List (Event V)
  pub late : List (Result (Message V))

-- The test of the agent's first message.
abbrev pub check_greeting : {V : Type 0} → Result (Message V) → Result (Unit {0})
check_greeting (err m) = err m
check_greeting (ok message) = ensure (is_hello message) (text "Agente incompatível.")

-- `exchange`
unfoldable pub exchange :
    {V : Type 0} → ℕ → Text → Script V → SessionState → Option (Result (Unit {0})) × SessionState
unfolding exchange_loop
exchange pid policy_path script s = elim (check_greeting script.greeting >> script.start_sent) [
  | err m ↦ (some (err m), s)
  | ok _ ↦
      exchange_loop pid policy_path script.events script.late
        (record { exiting = false; stop_deadline = none; last_response = script.started_at }) s
]
