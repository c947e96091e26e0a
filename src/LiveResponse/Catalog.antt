-- ===== src/LiveResponse/Catalog.antt =====
-- src/xdr_cli/live_response/catalog.py: the pinned commands, the index of their names and aliases,
-- and the merge of a session's definitions from the server.
pub mod Sources
pub mod Local
pub mod Inspection
pub mod Actions
pub mod Pinned
pub mod Aliases
pub mod Merge
