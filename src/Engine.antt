-- ===== src/Engine.antt =====
-- crates/netlane-core/src/engine.rs: the engine that installs the planned rules in one policy
-- session. `PolicySession` is the trait; the session's state is a value of type `S`, and an
-- operation returns its result and the next state.
pub mod Laws
pub mod Installed
pub mod Sync
pub mod History
pub mod Closed
pub mod Memory
mod Tests
use netlane.Prelude.{Bool, true, false, not, List, [], ◌∷◌, ◌++◌, Text, text, select, if◌then◌else◌}
use netlane.Prelude.{Result, ok, err}
use netlane.Prelude.Actions.{Action, ◌>>=◌, ◌>>◌, pure}
use netlane.Model.{RouteMode, PlannedRule, mode_eq, rules_eq}

-- `trait PolicySession`
pub record PolicySession (S K : Type 0) : Type 0 where
  pub begin : Action S (Unit {0})
  pub add : PlannedRule → Action S (List K)
  pub delete : K → Action S (Unit {0})
  pub commit : Action S (Unit {0})
  pub abort : Action S (Unit {0})
  pub close : Action S (Unit {0})

-- `struct RoutingEngine`
pub record RoutingEngine (S K : Type 0) : Type 0 where
  pub session : S
  pub previous : List PlannedRule
  pub keys : List K
  pub poisoned : Bool

-- `rules.iter().filter(|r| r.mode != RouteMode::Automatic)`
abbrev pub active : List PlannedRule → List PlannedRule
active = select λ r. not (mode_eq r.mode RouteMode.automatic)

module _ {S K : Type 0} (p : PolicySession S K) where
  pub delete_all : List K → Action S (Unit {0})
  delete_all [] = pure tt
  delete_all (k ∷ ks) = p.delete k >> delete_all ks

  pub add_all : List PlannedRule → List K → Action S (List K)
  add_all [] keys = pure keys
  add_all (r ∷ rs) keys = p.add r >>= λ added. add_all rs (keys ++ added)

  -- The closure of `apply` between `begin` and the match on its result.
  pub transaction : List K → List PlannedRule → Action S (List K)
  transaction old rules = do delete_all old; keys ← add_all (active rules) []; p.commit; pure keys

  unfoldable pub new : S → RoutingEngine S K
  new s = record { session = s; previous = []; keys = []; poisoned = false }

  -- The `Err` arm of `apply`: roll back, and end the session if that fails.
  pub roll_back : RoutingEngine S K → RoutingEngine S K
  roll_back e =
      let (r, s) = p.abort e.session in
      elim r [
        | ok _ ↦ record e { session = s }
        | err _ ↦ record e { session = (p.close s).1; poisoned = true; keys = []; previous = [] }
      ]

  -- The match on the transaction's result.
  pub finish :
      RoutingEngine S K
      → List PlannedRule
      → Result (List K) × S
      → Result (Unit {0}) × RoutingEngine S K
  finish e rules (ok keys, s) = (ok tt, record e { session = s; previous = rules; keys = keys })
  finish e rules (err m, s) = (err m, roll_back (record e { session = s }))

  -- `begin()?` and what follows it.
  pub run_begun :
      RoutingEngine S K
      → List PlannedRule
      → Result (Unit {0}) × S
      → Result (Unit {0}) × RoutingEngine S K
  run_begun e rules (ok _, s) = finish e rules (transaction e.keys rules s)
  run_begun e rules (err m, s) = (err m, record e { session = s })

  -- `RoutingEngine::apply`
  pub apply : RoutingEngine S K → List PlannedRule → Result (Unit {0}) × RoutingEngine S K
  apply e rules =
      if e.poisoned
      then (err (text "Sessão encerrada após falha de rollback."), e)
      else (if rules_eq rules e.previous then (ok tt, e) else run_begun e rules (p.begin e.session))

  -- `RoutingEngine::close`
  unfoldable pub close : RoutingEngine S K → Result (Unit {0}) × RoutingEngine S K
  close e =
      let (r, s) = p.close e.session in
      (r, record { session = s; previous = []; keys = []; poisoned = true })

  -- `Drop`
  unfoldable pub drop : RoutingEngine S K → S
  drop e = (p.close e.session).1
