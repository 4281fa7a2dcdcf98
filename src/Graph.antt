-- ===== src/Graph.antt =====
-- packages/tc-sdlc/src/graph: the task graph.
pub mod Paths
pub mod Validation
pub mod Acyclic
pub mod Selector
pub mod Affected
pub mod Executors
pub mod Identity
pub mod Declaration
pub mod Presets
pub mod Construction
