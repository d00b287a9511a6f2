-- ===== src/Engine/Tests.antt =====
-- A session in memory, and the engine's theorems on it.
use netlane.Prelude.{ℕ, true, false, List, [], ◌∷◌, ◌≡◌, refl, some, text, ok, str_eq}
use netlane.Engine.Memory.{Memory, memory_session, memory_session-IsTransactional}
use netlane.Model.{PlannedRule, RouteMode, rules_eq, rule_eq}
use netlane.Engine.{RoutingEngine, new, apply, delete_all, add_all, transaction, finish, run_begun}
use netlane.Engine.Installed.{Installs}
use netlane.Engine.Sync.{InSync, Outcome, apply-Outcome}
use netlane.Engine.History.{Command, step, run, run-new-InSync, apply_again}

abbrev steam : PlannedRule
steam = record {
  application = text "steam.exe";
  executable = some (text "C:\\Steam\\steam.exe");
  mode = RouteMode.wifi;
  interface_id = some (text "w");
  luid = 7;
  ipv4 = true;
  ipv6 = false;
  detail = text "Wi-Fi";
}

abbrev game : PlannedRule
game = record steam { application = text "game.exe"; mode = RouteMode.automatic }

abbrev empty : Memory
empty = record { filters = []; start = []; next = 0; commits = true }

-- The second call replaces the filters of the first; the automatic rule has none.
history : List Command
history = Command.applies (steam ∷ []) ∷ Command.applies (game ∷ steam ∷ []) ∷ []

run-history : (run memory_session (new memory_session empty) history).keys ≡ 2 ∷ 3 ∷ []
unfolding run step new apply run_begun finish transaction delete_all add_all rules_eq rule_eq str_eq
    text history
run-history = refl

run-new-InSync_example :
    InSync memory_session memory_session-IsTransactional
      (run memory_session (new memory_session empty) history)
unfolding memory_session-IsTransactional
run-new-InSync_example =
    run-new-InSync memory_session memory_session-IsTransactional empty history refl

abbrev failing : Memory
failing = record empty { commits = false }

failing-InSync : InSync memory_session memory_session-IsTransactional (new memory_session failing)
unfolding new memory_session-IsTransactional
failing-InSync _ = (Installs.none_yet, refl)

apply-Outcome_example :
    Outcome memory_session memory_session-IsTransactional
      (new memory_session failing)
      (steam ∷ [])
      (apply memory_session (new memory_session failing) (steam ∷ []))
unfolding new
apply-Outcome_example =
    apply-Outcome memory_session memory_session-IsTransactional (new memory_session failing)
      (steam ∷ []) failing-InSync refl

abbrev applied : RoutingEngine Memory ℕ
applied = (apply memory_session (new memory_session empty) (game ∷ steam ∷ [])).1

apply_again_example : apply memory_session applied (game ∷ steam ∷ []) ≡ (ok tt, applied)
unfolding new apply run_begun finish transaction delete_all add_all rules_eq
apply_again_example =
    apply_again memory_session memory_session-IsTransactional (new memory_session empty)
      (game ∷ steam ∷ []) refl refl
