-- ===== src/SchemaGraph/Lineage.antt =====
-- src/xdr_cli/schema_graph/lineage.py: which field of a table a column of a query shows.
pub mod Lexer
pub mod Split
pub mod Origins
pub mod Expression
pub mod Recover
