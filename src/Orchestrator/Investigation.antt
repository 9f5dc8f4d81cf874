-- ===== src/Orchestrator/Investigation.antt =====
-- src/payops/orchestrator/state.py, nodes.py and graph.py: the life cycle of one investigation. LangGraph
-- runs the nodes; SQLite keeps the checkpoints.
pub mod States
pub mod Nodes
pub mod Steps
pub mod Walk
pub mod Dispatch
pub mod Attempts
pub mod Progress
pub mod Operations
pub mod Checking
pub mod Gathering
pub mod Ranking
pub mod Completion
pub mod Termination
pub mod Worker
pub mod Lifecycle
mod Tests
