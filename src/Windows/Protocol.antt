-- ===== src/Windows/Protocol.antt =====
-- crates/netlane-windows/src/protocol.rs: the messages between the panel and the elevated agent.
pub mod Frames
use netlane.Prelude.{ℕ, Bool, List, Option, Text}
use netlane.Model.{RoutingPolicy, PlannedRule}
use netlane.DefaultConnection.{Request, OperationResult}

-- `VERSION`
abbrev pub version : ℕ
version = 2

-- `enum Message`
pub data Message (V : Type 0) : Type 0 where
  default_hello : ℕ → Message V
  default_apply : Request → Message V
  default_result : OperationResult → Message V
  default_ack : Message V
  default_finished : Bool → Message V
  hello : ℕ → Message V
  start : Text → List (RoutingPolicy V) → Bool → Message V
  update : List (RoutingPolicy V) → Message V
  ping : Message V
  stop : Message V
  snapshot : ℕ → Text → Option Text → List PlannedRule → Text → Message V
  error : Text → Message V
  stopped : Bool → Text → Message V
