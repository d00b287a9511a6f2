-- ===== src/Agent/Session/Tests.antt =====
-- Witnesses and tests for `run_session` of crates/netlane-agent/src/lib.rs.
use netlane.Prelude.{true, false, [], ◌∷◌, none, some, text, str_eq, if◌then◌else◌, refl, ok}
use netlane.Model.Policies.{Library, validate_policies, check_policies, is_local_path}
use netlane.Engine.Memory.{Memory, memory_session-IsTransactional}
use netlane.Windows.Protocol.{Message}
use netlane.Windows.Flags.{
  ipv6, enable, enable_read, activate, restore, restore_all, restore_one, switch_off,
}
use netlane.Engine
use netlane.Windows.Flags
use netlane.Windows.Flags.Memory.{Policies, memory_settings-IsSettings, half_on}
use netlane.Agent.Session.{
  Setup, received, Left, run_session, run_start, run_block, serve_enabled, serve_opened, serve,
  serve_one, on_message, clean_up, close_engine,
}
use netlane.Agent.Session.Cleanup.{IsClean, run_session-IsClean}

abbrev library : Library
library = record { parse_uuid = λ t. none; to_lowercase = λ t. t }

abbrev empty : Memory
empty = record { filters = []; start = []; next = 1; commits = true }

-- The panel asks for a session without rules and stops it.
abbrev asked : Setup Memory (Unit {0})
asked = record {
  connected = ok tt;
  request = ok (Message.start (text "C:\\rules.json") [] true);
  lease = ok tt;
  opened = ok empty;
  opened_at = 0;
  events = received 5 (ok Message.stop) (ok tt) ∷ [];
}

abbrev restored : Policies
restored g = if str_eq ipv6 g then false else (if str_eq ipv6 g then true else half_on g)

abbrev left : Left Memory Policies (Unit {0})
left = record {
  result = ok tt;
  filter = some empty;
  flags = record { settings = restored; changed = [] };
  sent = Message.stopped true (text "Sessão encerrada. Opções temporárias restauradas.") ∷ [];
}

run_session-IsClean_example :
    IsClean memory_session-IsTransactional memory_settings-IsSettings half_on left
unfolding run_session run_start run_block serve_enabled serve_opened serve serve_one on_message
    clean_up close_engine memory_session-IsTransactional validate_policies check_policies
    is_local_path enable enable_read activate restore restore_all restore_one switch_off Flags.drop
    Engine.close Engine.drop Engine.new text str_eq
run_session-IsClean_example =
    run_session-IsClean memory_session-IsTransactional (λ s h. refl) memory_settings-IsSettings
      library 7 asked half_on left refl refl
