-- ===== src/DefaultConnection/Types.antt =====
-- The data of crates/netlane-core/src/default_connection.rs. A `Uuid` is its 128-bit number, zero
-- for the nil one; a `u32` is a number, and `as u32` is written out where the source casts.
use netlane.Prelude.{ℕ, ◌+◌, Bool, true, false, ◌&&◌, List, [], ◌∷◌, Option, none, some, Text, ◌==◌}
use netlane.Model.{bool_eq}

-- `Kind`
pub data Kind : Type 0 where
  cable wifi : Kind

-- `Interface`
pub record Interface : Type 0 where
  pub id : ℕ
  pub name : Text
  pub kind : Kind
  pub index : ℕ
  pub connected : Bool
  pub automatic_metric : Bool
  pub metric : ℕ
  pub default_route_metric : Option ℕ
  pub saved_metric : Option ℕ

-- `Route`
pub record Route : Type 0 where
  pub index : ℕ
  pub name : Text
  pub interface_metric : ℕ
  pub route_metric : ℕ

-- `Route::total`: the sum of two `u32` in a `u64`, which cannot overflow.
abbrev pub total : Route → ℕ
total r = r.interface_metric + r.route_metric

-- `Snapshot`
pub record Snapshot : Type 0 where
  pub interfaces : List Interface
  pub routes : List Route

-- `Metric`
pub record Metric : Type 0 where
  pub id : ℕ
  pub automatic_metric : Bool
  pub metric : ℕ

-- `Request`
pub record Request : Type 0 where
  pub expected : Snapshot
  pub changes : List Metric
  pub preferred_interface : Option ℕ

-- `OperationResult`
pub record OperationResult : Type 0 where
  pub snapshot : Snapshot
  pub success : Bool
  pub detail : Text
  pub rollback_confirmed : Bool

-- `Receipt`
pub record Receipt : Type 0 where
  pub result : OperationResult
  pub original : List Interface
  pub changes : List Metric

-- `Journal`, over the type of the JSON values of other versions' fields.
pub record Journal (Value : Type 0) : Type 0 where
  pub original : List Metric
  pub applied : List Metric
  pub previous : List Metric
  pub extra : List (Text × Value)

-- The derived `PartialEq`s that the code uses.
abbrev pub kind_eq : Kind → Kind → Bool
kind_eq Kind.cable Kind.cable = true
kind_eq Kind.wifi Kind.wifi = true
kind_eq _ _ = false

abbrev pub option_nat_eq : Option ℕ → Option ℕ → Bool
option_nat_eq none none = true
option_nat_eq (some a) (some b) = a == b
option_nat_eq _ _ = false

abbrev pub metric_eq : Metric → Metric → Bool
metric_eq a b =
    a.id == b.id && bool_eq a.automatic_metric b.automatic_metric && a.metric == b.metric

abbrev pub metrics_eq : List Metric → List Metric → Bool
metrics_eq [] [] = true
metrics_eq (a ∷ xs) (b ∷ ys) = metric_eq a b && metrics_eq xs ys
metrics_eq _ _ = false
