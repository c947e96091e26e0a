-- ===== src/SchemaGraph.antt =====
-- src/xdr_cli/schema_graph: the semantic graph of hunting tables and the search for routes in it.
pub mod Model
pub mod Step
pub mod Adjacency
pub mod Search
pub mod Paths
pub mod Lineage
pub mod CapturePlan
