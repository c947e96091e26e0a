-- ===== src/LiveResponse/SessionAliases.antt =====
-- src/xdr_cli/live_response/session_aliases.py: short names for Live Response sessions, in a registry
-- that only grows. Access to files is modelled by what it finds; `OSError` and a lock that is not
-- granted in time are not.
pub mod Syntax
pub mod Registry
pub mod Files
pub mod Operations
