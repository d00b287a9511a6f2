-- ===== src/Agent/Cycle.antt =====
-- crates/netlane-agent/src/lib.rs, `apply_cycle`: one cycle of a session, from policies to filters.
use netlane.Prelude.{Bool, List, Text, Result, ok, err}
use netlane.Model.{RoutingPolicy, Adapter, PlannedRule}
use netlane.Model.Policies.{Library}
use netlane.Planning.{plan, expand_related, retire_missing}
use netlane.Engine.{PolicySession, RoutingEngine, apply}

-- `engine.apply(&rules)?; Ok(rules)`
pub applied :
    {S K : Type 0}
    → List PlannedRule
    → Result (Unit {0}) × RoutingEngine S K
    → Result (List PlannedRule) × RoutingEngine S K
applied rules (ok _, e) = (ok rules, e)
applied rules (err m, e) = (err m, e)

module _ {S K V : Type 0} (lib : Library) (p : PolicySession S K) where
  -- The rules of a cycle.
  abbrev pub rules_for : List (RoutingPolicy V) → List Adapter → (Text → Bool) → List PlannedRule
  rules_for policies adapters exists =
      retire_missing (plan lib (expand_related lib policies exists) adapters) exists

  -- `apply_cycle`
  pub apply_cycle :
      RoutingEngine S K
      → List (RoutingPolicy V)
      → Result (List Adapter)
      → (Text → Bool)
      → Result (List PlannedRule) × RoutingEngine S K
  unfolding applied
  apply_cycle e policies (err m) exists = (err m, e)
  apply_cycle e policies (ok adapters) exists =
      let rules = rules_for policies adapters exists in applied rules (apply p e rules)
