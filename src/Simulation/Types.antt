-- ===== src/Simulation/Types.antt =====
-- `SimulationResult` of crates/primitives/src/lib.rs and crates/simulation/src/error.rs.
use sidecar.Prelude.{Bool, Option, List, Bytes}
use sidecar.Mailbox.Types.{CrossRollupDependency, CrossRollupMessage}
use sidecar.Mailbox.Overrides.{StateOverride}

pub record SimulationResult : Type 0 where
  pub success : Bool
  pub error : Option Bytes
  pub state_overrides : Option StateOverride
  pub dependencies : List CrossRollupDependency
  pub outbound_messages : List CrossRollupMessage

pub data SimulationError : Type 0 where
  rpc decode failed other : Bytes → SimulationError
  timeout : SimulationError
