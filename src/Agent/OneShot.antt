-- ===== src/Agent/OneShot.antt =====
-- crates/netlane-agent/src/default_connection.rs: the change of the default connection by an elevated
-- process of its own. What each side awaits is a record of answers; both send what they list.
pub mod Kept
mod Tests
use netlane.Prelude.{
  ℕ, Bool, true, false, not, ◌||◌, List, [], ◌∷◌, ◌++◌, Text, text, ◌==◌, if◌then◌else◌, Result, ok,
  err, ensure, ◌>>=◌, ◌>>◌,
}
use netlane.DefaultConnection.{Request, OperationResult, Receipt}
use netlane.DefaultConnection.Plan.{validate}
use netlane.DefaultConnection.Requests.{verify_after}
use netlane.DefaultConnection.Apply.{Settings, apply, revert}
use netlane.Windows.Protocol.{Message}

-- `VERSION`
abbrev pub version : ℕ
version = 1

module _ {V : Type 0} where
  abbrev pub is_default_hello : Message V → Bool
  is_default_hello (Message.default_hello v) = v == version
  is_default_hello _ = false

  abbrev pub is_accepted : Message V → Bool
  is_accepted (Message.default_finished accepted) = accepted
  is_accepted _ = false

  -- The match on the second message.
  abbrev pub result_of : Message V → Result OperationResult
  result_of (Message.default_result result) = ok result
  result_of (Message.error detail) = err detail
  result_of _ = err (text "A alteração não foi confirmada.")

-- What the panel's side awaits, each answer an error from its deadline on.
pub record Answers (V : Type 0) : Type 0 where
  pub greeting : Result (Message V)
  pub request_sent : Result (Unit {0})
  pub response : Result (Message V)
  pub ack_sent : Result (Unit {0})
  pub finish : Result (Message V)

-- `if result.success { request.verify_after(…)?; }`
abbrev pub check_success : Request → OperationResult → Result (Unit {0})
check_success q r = if r.success then verify_after q r.snapshot else ok tt

-- `exchange`
unfoldable pub exchange : {V : Type 0} → Request → Answers V → Result OperationResult
exchange q answers = do
  hello ← answers.greeting
  ensure (is_default_hello hello) (text "Componente de conexão padrão incompatível.")
  answers.request_sent
  response ← answers.response
  result ← result_of response
  validate result.snapshot
  check_success q result
  answers.ack_sent
  finish ← answers.finish
  ensure (is_accepted finish)
      (text "Componente encerrou sem confirmar recebimento. Recuperação preservada.")
  ok result

-- `control`, with what the launch, the connection and the exit of the process answer.
unfoldable pub control :
    {V : Type 0} → Request → Result (Unit {0}) → Answers V → Result ℕ → Result OperationResult
unfolding exchange
control q connected answers exit_code = do
  connected
  result ← exchange q answers
  exited ← (if result.success then (exit_code >>= λ code. ok (code == 0)) else ok true)
  ensure exited (text "O componente encerrou sem confirmar a alteração. Releia a prioridade.")
  ok result

-- What the elevated side awaits.
pub record Calls (V : Type 0) : Type 0 where
  pub hello_sent : Result (Unit {0})
  pub request : Result (Message V)
  pub result_sent : Result (Unit {0})
  pub ack : Result (Message V)
  pub finish_sent : Result (Unit {0})

-- What it leaves: its result, the system, and the messages it has sent.
pub record Served (W V : Type 0) : Type 0 where
  pub result : Result (Unit {0})
  pub system : W
  pub sent : List (Message V)

module _ {W V : Type 0} (settings : Settings W) where
  -- `matches!(…, Message::DefaultAck) && alive()`
  abbrev pub is_alive : Message V → W → Bool × W
  is_alive Message.default_ack w = settings.alive w
  is_alive _ w = (false, w)

  -- The block whose value is `acknowledged`.
  unfoldable pub acknowledged : Calls V → W → Result (Unit {0}) × W
  acknowledged calls w = elim (calls.result_sent >> calls.ack) [
    | err m ↦ (err m, w)
    | ok message ↦
        let (alive, v) = is_alive message w in
        (ensure alive (text "Confirmação de recebimento inválida ou janela encerrada."), v)
  ]

  -- What follows an acknowledgement, and what follows its absence.
  unfoldable pub conclude : Calls V → Receipt → Result (Unit {0}) × W → Served W V
  conclude calls receipt (ok _, w) = record {
    result =
        calls.finish_sent
        >> ensure (receipt.result.success || receipt.result.rollback_confirmed)
            (text "Restauração incompleta: " ++ receipt.result.detail);
    system = w;
    sent =
        Message.default_hello version
        ∷ Message.default_result receipt.result
        ∷ Message.default_finished true
        ∷ [];
  }
  conclude calls receipt (err m, w) = record {
    result = err m;
    system = if receipt.result.success then (revert settings receipt w).1 else w;
    sent = Message.default_hello version ∷ Message.default_result receipt.result ∷ [];
  }

  -- From the result of `apply` on.
  unfoldable pub serve_applied : Calls V → Result Receipt × W → Served W V
  unfolding acknowledged conclude
  serve_applied calls (err m, w) = record {
    result = err m;
    system = w;
    sent = Message.default_hello version ∷ Message.error m ∷ [];
  }
  serve_applied calls (ok receipt, w) = conclude calls receipt (acknowledged calls w)

  -- The request, once it is there.
  unfoldable pub serve_request : Calls V → Message V → W → Served W V
  unfolding serve_applied
  serve_request calls (Message.default_apply q) w = serve_applied calls (apply settings q w)
  serve_request calls _ w = record {
    result = err (text "Pedido de conexão padrão inválido.");
    system = w;
    sent = Message.default_hello version ∷ [];
  }

  -- `serve`
  unfoldable pub serve : Calls V → W → Served W V
  unfolding serve_request
  serve calls w = elim (calls.hello_sent >> calls.request) [
    | err m ↦ record { result = err m; system = w; sent = Message.default_hello version ∷ [] }
    | ok message ↦ serve_request calls message w
  ]
