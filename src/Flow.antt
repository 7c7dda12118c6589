-- ===== src/Flow.antt =====
-- flow_graph/: control flow graphs of native instructions, and the orders on nodes and edges.
pub mod Containers
pub mod Edge
pub mod Native
pub mod Graph
pub mod Provider
