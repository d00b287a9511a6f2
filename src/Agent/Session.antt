-- ===== src/Agent/Session.antt =====
-- crates/netlane-agent/src/lib.rs, `run_session`: the elevated side. What the code awaits is a script of
-- events, each with the time at which `select!` yields it and the result of the write that it leads to;
-- a script that ends first leaves the session running.
pub mod Cleanup
pub mod Silent
mod Tests
use netlane.Prelude.{
  ℕ, ◌-◌, Bool, true, false, not, ◌||◌, List, [], ◌∷◌, ◌++◌, Option, none, some, Text, text, ltb,
  is_empty, if◌then◌else◌, Result, ok, err, ensure, ◌>>◌,
}
use netlane.Model.{RoutingPolicy, Adapter, PlannedRule}
use netlane.Model.Policies.{Library, is_local_path, validate_policies}
use netlane.Engine.{PolicySession, RoutingEngine, close, drop}
use netlane.Engine
use netlane.DefaultConnection.Apply.{join}
use netlane.Windows.Protocol.{Message}
use netlane.Windows.Flags.{RoutePolicySettings, TemporaryFlags, enable, restore}
use netlane.Windows.Flags
use netlane.Agent.Cycle.{apply_cycle}

-- What `select!` yields.
pub data Event (V : Type 0) : Type 0 where
  received : ℕ → Result (Message V) → Result (Unit {0}) → Event V
  owner_tick : ℕ → Bool → Event V
  tick : Result (List Adapter) → (Text → Bool) → Result (Unit {0}) → Event V

-- The state of the loop, with the messages that it has sent.
pub record Serving (S K V : Type 0) : Type 0 where
  pub engine : RoutingEngine S K
  pub policies : List (RoutingPolicy V)
  pub last_ping : ℕ
  pub sent : List (Message V)

-- `Duration::from_secs(12)`, in nanoseconds.
abbrev pub ping_limit : ℕ
ping_limit = 12000000000

module _ {S K V : Type 0} (lib : Library) (p : PolicySession S K) (process_id : ℕ)
    (policy_path : Text) where
  -- `protocol::send(…).await?`: the loop goes on, or ends with the error.
  abbrev pub send :
      Message V → Result (Unit {0}) → Serving S K V → Option (Result (Unit {0})) × Serving S K V
  send m written s =
      (elim written [ ok _ ↦ none | err e ↦ some (err e) ], record s { sent = s.sent ++ m ∷ [] })

  -- The arm of `inbox.receive()`.
  pub on_message :
      ℕ
      → Result (Message V)
      → Result (Unit {0})
      → Serving S K V
      → Option (Result (Unit {0})) × Serving S K V
  on_message now (err e) written s = (some (err e), s)
  on_message now (ok Message.ping) written s = (none, record s { last_ping = now })
  on_message now (ok Message.stop) written s = (some (ok tt), s)
  on_message now (ok (Message.update next)) written s = elim (validate_policies lib next) [
    | ok _ ↦ (none, record s { policies = next })
    | err e ↦
        send
          (Message.error (
            text "Regras recusadas pela sessão: "
            ++ e
            ++ text ". As anteriores continuam aplicadas."))
          written s
  ]
  on_message now (ok _) written s = (some (err (text "Comando de sessão inválido.")), s)

  -- The arm of `tick.tick()`, behind `apply_cycle`.
  pub on_cycle :
      Result (List PlannedRule) × RoutingEngine S K
      → Result (Unit {0})
      → Serving S K V
      → Option (Result (Unit {0})) × Serving S K V
  on_cycle (ok rules, e) written s =
      send
        (Message.snapshot process_id policy_path none rules
          (text "Políticas aceitas pelo Windows. Tráfego ainda não verificado."))
        written (record s { engine = e })
  on_cycle (err m, e) written s =
      if e.poisoned
      then (some (err (text "Rollback WFP falhou: " ++ m)), record s { engine = e })
      else send
          (Message.error (
            text "Ciclo não aplicado: "
            ++ m
            ++ text ". As políticas anteriores continuam; nova tentativa em 10 s."))
          written (record s { engine = e })

  -- One round of the loop; `none` is going on.
  pub serve_one : Event V → Serving S K V → Option (Result (Unit {0})) × Serving S K V
  unfolding on_message on_cycle
  serve_one (received now message written) s = on_message now message written s
  serve_one (owner_tick now alive) s =
      if not alive || ltb ping_limit (now - s.last_ping) then (some (ok tt), s) else (none, s)
  serve_one (tick adapters exists written) s =
      on_cycle (apply_cycle lib p s.engine s.policies adapters exists) written s

  -- The loop.
  pub serve : List (Event V) → Serving S K V → Option (Result (Unit {0})) × Serving S K V
  unfolding serve_one
  serve [] s = (none, s)
  serve (e ∷ es) s =
      let (r, t) = serve_one e s in elim r [ none ↦ serve es t | some r ↦ (some r, t) ]

-- What the session holds when its block ends: the engine, if it was opened, and the flags.
pub record Held (S K F V : Type 0) : Type 0 where
  pub engine : Option (RoutingEngine S K)
  pub flags : TemporaryFlags F
  pub sent : List (Message V)

-- What the calls outside this file answer: up to the request, the lease, and the packet filter.
pub record Setup (S V : Type 0) : Type 0 where
  pub connected : Result (Unit {0})
  pub request : Result (Message V)
  pub lease : Result (Unit {0})
  pub opened : Result S
  pub opened_at : ℕ
  pub events : List (Event V)

module _ {S K F V : Type 0} (lib : Library) (p : PolicySession S K) (f : RoutePolicySettings F)
    (process_id : ℕ) where
  -- The block behind `flags.enable`.
  pub serve_opened :
      Setup S V
      → Text
      → List (RoutingPolicy V)
      → TemporaryFlags F
      → Result S
      → Option (Result (Unit {0})) × Held S K F V
  serve_opened setup path policies flags (err m) =
      (some (err m), record { engine = none; flags = flags; sent = [] })
  serve_opened setup path policies flags (ok s) =
      let (r, v) = serve lib p process_id path setup.events (record {
        engine = Engine.new p s;
        policies = policies;
        last_ping = setup.opened_at;
        sent = [];
      }) in
      (r, record { engine = some v.engine; flags = flags; sent = v.sent })

  pub serve_enabled :
      Setup S V
      → Text
      → List (RoutingPolicy V)
      → Result (Unit {0}) × TemporaryFlags F
      → Option (Result (Unit {0})) × Held S K F V
  unfolding serve_opened
  serve_enabled setup path policies (err m, flags) =
      (some (err m), record { engine = none; flags = flags; sent = [] })
  serve_enabled setup path policies (ok _, flags) =
      serve_opened setup path policies flags setup.opened

  -- The block whose value is `result`.
  pub run_block :
      Setup S V
      → Text
      → List (RoutingPolicy V)
      → Bool
      → TemporaryFlags F
      → Option (Result (Unit {0})) × Held S K F V
  unfolding serve_enabled
  run_block setup path policies allow flags =
      elim (ensure (is_local_path path) (text "Caminho remoto/dispositivo recusado.")
        >> validate_policies lib policies
        >> setup.lease) [
          | err m ↦ (some (err m), record { engine = none; flags = flags; sent = [] })
          | ok _ ↦ serve_enabled setup path policies (enable f allow flags)
        ]

-- `engine.close()` and the end of its scope.
pub close_engine :
    {S K : Type 0} → PolicySession S K → Option (RoutingEngine S K) → List Text × Option S
close_engine p none = ([], none)
close_engine p (some e) =
    let (r, closed) = close p e in
    (elim r [ ok _ ↦ [] | err m ↦ (text "WFP: " ++ m) ∷ [] ], some (drop p closed))

abbrev pub report : {V : Type 0} → Result (Unit {0}) → List (Message V)
report (ok _) = []
report (err m) = Message.error m ∷ []

abbrev pub detail_of : List Text → Text
detail_of errors =
    if is_empty errors
    then text "Sessão encerrada. Opções temporárias restauradas."
    else text "Limpeza incompleta: " ++ join errors

-- What `run_session` leaves: its result, the packet filter, the flags, and the messages it sent.
pub record Left (S F V : Type 0) : Type 0 where
  pub result : Result (Unit {0})
  pub filter : Option S
  pub flags : TemporaryFlags F
  pub sent : List (Message V)

module _ {S K F V : Type 0} (p : PolicySession S K) (f : RoutePolicySettings F) where
  -- What follows the block, to the drop of the flags.
  pub clean_up : Result (Unit {0}) → Held S K F V → Left S F V
  unfolding close_engine
  clean_up result held =
      let (closing, filter) = close_engine p held.engine in
      let (restoring, flags) = restore f held.flags in
      let errors = closing ++ restoring in
      record {
        result = if is_empty errors then result else err (text "Limpeza incompleta.");
        filter = filter;
        flags = Flags.drop f flags;
        sent =
            held.sent
            ++ (report result ++ Message.stopped (is_empty errors) (detail_of errors) ∷ []);
      }

abbrev pub refused : {S F V : Type 0} → RoutePolicySettings F → F → Text → Left S F V
refused f s m = record { result = err m; filter = none; flags = Flags.new f s; sent = [] }

module _ {S K F V : Type 0} (lib : Library) (p : PolicySession S K) (f : RoutePolicySettings F)
    (process_id : ℕ) where
  -- `run_session` from the request on; `none` while the session runs.
  pub run_start : Setup S V → F → Message V → Option (Left S F V)
  unfolding run_block clean_up
  run_start setup s (Message.start path policies allow) =
      let (r, held) = run_block lib p f process_id setup path policies allow (Flags.new f s) in
      elim r [ none ↦ none | some result ↦ some (clean_up p f result held) ]
  run_start setup s _ = some (refused f s (text "Pedido inicial inválido."))

  -- `run_session`
  pub run_session : Setup S V → F → Option (Left S F V)
  unfolding run_start
  run_session setup s = elim (setup.connected >> setup.request) [
    | err m ↦ some (refused f s m)
    | ok m ↦ run_start setup s m
  ]
