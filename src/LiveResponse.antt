-- ===== src/LiveResponse.antt =====
-- src/xdr_cli/live_response: the console-line parser and its catalog.
pub mod Models
pub mod Failure
pub mod Tokens
pub mod Suffix
pub mod Bind
pub mod Parser
pub mod Catalog
pub mod Console
pub mod SessionAliases
