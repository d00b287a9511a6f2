-- ===== src/Agent/Control/Tests.antt =====
-- Witnesses for crates/netlane-agent/src/lib.rs, the side of the panel.
use netlane.Prelude.{true, false, [], ◌∷◌, none, text, str_eq, refl, ok, All}
use netlane.Model.Policies.{Library, validate_policies, check_policies, is_local_path}
use netlane.Windows.Protocol.{Message}
use netlane.Agent.Panel.{Command, SessionState, validate_start, exit_decision, stopped_state}
use netlane.Agent.Panel
use netlane.Agent.Exchange.{
  received, accept, accept_response, exchange_one, exchange_loop, exchange,
}
use netlane.Agent.Control.{
  Session, handle, control_session, converse, leave, wait_for_agent_exit, wait_rounds,
}
use netlane.Agent.Control.History.{
  Machine, initial, Reachable, begun, more, started, handled, Clean, Reachable-quit,
}

abbrev library : Library
library = record { parse_uuid = λ t. none; to_lowercase = λ t. t }

-- The agent greets, reports a cleanup that succeeded, and exits.
abbrev session : Session (Unit {0})
session = record {
  launched = ok 7;
  connected = ok tt;
  script = record {
    greeting = ok (Message.hello 2);
    start_sent = ok tt;
    started_at = 0;
    events = received 5 (ok (Message.stopped true (text "fim"))) ∷ [];
    late = [];
  };
  left_at = 6;
  rounds = [];
  exited = true;
}

abbrev command : Command (Unit {0})
command = Command.start_session (text "C:\\r.json") [] false

abbrev asked : Machine (Unit {0})
asked = record {
  panel = record {
    state = record stopped_state { busy = true };
    queue = command ∷ [];
    is_open = true;
  };
  going = false;
  launched = [];
}

abbrev ended : Machine (Unit {0})
ended = record {
  panel = record {
    state = record stopped_state { detail = text "fim" };
    queue = [];
    is_open = true;
  };
  going = false;
  launched = session ∷ [];
}

ended-Reachable : Reachable library ended
unfolding Panel.start validate_start validate_policies check_policies is_local_path text str_eq
    handle control_session converse leave wait_for_agent_exit wait_rounds exchange exchange_loop
    exchange_one accept accept_response
ended-Reachable =
    more asked ended
      (more initial asked begun (started initial (text "C:\\r.json") true (ok tt) [] false))
      (handled asked session command [] [] refl refl)

Reachable-quit_example : All Clean (session ∷ [])
unfolding exit_decision
Reachable-quit_example = Reachable-quit library ended false ended-Reachable refl
