-- ===== src/Engine/History.antt =====
-- The engine over its life: sequences of calls of crates/netlane-core/src/engine.rs.
use netlane.Prelude.{
  true, false, List, [], ◌∷◌, ◌≡◌, refl, arith, ok, str_eq_refl, Option, none, some, Text,
}
use netlane.Model.{PlannedRule, RouteMode, mode_eq, option_eq, rules_eq}
use netlane.Engine.{PolicySession, RoutingEngine, new, apply, close}
use netlane.Engine.Laws.{IsTransactional}
use netlane.Engine.Installed.{Installs}
use netlane.Engine.Sync.{InSync, apply_same, apply-InSync, apply-previous}

-- What the agent asks of its engine.
pub data Command : Type 0 where
  applies : List PlannedRule → Command
  closes : Command

module _ {S K : Type 0} (p : PolicySession S K) where
  unfoldable pub step : RoutingEngine S K → Command → RoutingEngine S K
  step e (Command.applies rules) = (apply p e rules).1
  step e Command.closes = (close p e).1

  unfoldable pub run : RoutingEngine S K → List Command → RoutingEngine S K
  run e [] = e
  run e (c ∷ cs) = run (step e c) cs

mode_eq_refl : (m : RouteMode) → mode_eq m m ≡ true
mode_eq_refl m = ground arith

option_eq_refl : (o : Option Text) → option_eq o o ≡ true
option_eq_refl none = refl
option_eq_refl (some s) = str_eq_refl s

rules_eq_refl : (rs : List PlannedRule) → rules_eq rs rs ≡ true
unfolding rules_eq
rules_eq_refl [] = refl
rules_eq_refl (r ∷ rs) = ground (
  arith,
  str_eq_refl r.application,
  option_eq_refl r.executable,
  mode_eq_refl r.mode,
  option_eq_refl r.interface_id,
  str_eq_refl r.detail,
  rules_eq_refl rs,
)

module _ {S K : Type 0} (p : PolicySession S K) (law : IsTransactional p) where
  open law use {installed}

  step-InSync : (e : RoutingEngine S K) (c : Command) → InSync p law e → InSync p law (step p e c)
  unfolding step close
  step-InSync e (Command.applies rules) i = apply-InSync p law e rules i
  step-InSync e Command.closes i = λ h. cc

  run-InSync :
      (e : RoutingEngine S K) (cs : List Command) → InSync p law e → InSync p law (run p e cs)
  unfolding run
  run-InSync e [] i = i
  run-InSync e (c ∷ cs) i = run-InSync (step p e c) cs (step-InSync e c i)

  -- From a session with no filters in force, after any sequence of calls and whatever of them
  -- failed: an engine that has not ended its session has in force exactly the filters of the
  -- non-automatic rules that it applied last, and holds exactly their keys.
  pub run-new-InSync :
      (s : S) (cs : List Command) → installed s ≡ [] → InSync p law (run p (new p s) cs)
  unfolding new
  run-new-InSync s cs h = run-InSync _ cs λ _. (rw h Installs.none_yet, rw h)

  repeated :
      (f : RoutingEngine S K) (rules : List PlannedRule)
      → f.poisoned ≡ false
      → f.previous ≡ rules
      → apply p f rules ≡ (ok tt, f)
  repeated f rules alive same = apply_same p law f rules alive (rw same (rules_eq_refl rules))

  -- Once rules are applied, applying them again succeeds and changes nothing.
  pub apply_again :
      (e : RoutingEngine S K) (rules : List PlannedRule)
      → e.poisoned ≡ false
      → (apply p e rules).0 ≡ ok tt
      → let f = (apply p e rules).1 in apply p f rules ≡ (ok tt, f)
  apply_again e rules live h =
      let (alive, same) = apply-previous p law e rules live h in
      repeated (apply p e rules).1 rules alive same
