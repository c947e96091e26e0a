-- ===== src/Lib.antt =====
-- A command-line client for Microsoft Defender XDR (src/xdr_cli). Modelled are parts of it that
-- decide by themselves, without the service: the console of Live Response, which turns a line of
-- text into at most one checked command, the registry of short names for its sessions, the
-- schema graph, which finds ways from one table of the hunting schema to another, the lineage of
-- query columns, the plan of which tables to capture, and the OData filters that the client
-- writes into its requests.
--
-- LiveResponse is src/xdr_cli/live_response. Models holds the records of models.py. Tokens is
-- `tokenize` of parser.py, Suffix `_split_suffix`, Bind `_bind`, Parser everything from
-- `_validate` to `_finish`, and Console the entry points `parse_console_line` and
-- `build_command`. Catalog is catalog.py: Local, Inspection, Actions and Pinned the table
-- `_SPECS`, Aliases `build_alias_index`, Merge `merge_definitions`. Console looks a command up
-- in the index that Catalog builds, without the place in the table that Catalog keeps beside
-- each specification to tell them apart, and passes the tokens of Tokens through Suffix, Bind
-- and Parser.
--
-- LiveResponse.SessionAliases is session_aliases.py: Syntax its identifiers, Registry
-- `_validate` and `_find` on JSON values (Base.Json), Files what `_read_file` finds and
-- `_read_state`, Operations `assign`, `resolve` and `alias_for`, which return the files also
-- where they raise.
--
-- SchemaGraph is src/xdr_cli/schema_graph. Model holds the records of model.py that the
-- traversal reads, Step the ranks of `GraphStep` and `GraphPath` in traversal.py, Adjacency
-- `_adjacency` with `_step`, Search the queue of `table_paths`, and Paths `table_paths` and
-- `pivot` themselves. Lineage is lineage.py: Lexer `_tokens`, Split `_split`, Origins
-- `FieldOrigins` with the constructor of `FieldLocator`, Expression `_expression` and Recover
-- `recover_field_origins`. What `ast.literal_eval` makes of a quoted token is a parameter.
-- CapturePlan is capture_plan.py: which tables are captured and over which interval.
--
-- Helpers is the filter of src/xdr_cli/helpers.py: `odata_string_literal` and
-- `build_odata_filter`; Helpers.Literals reads the string literals of a filter by the rules of
-- OData.
--
-- A text is the list of its code points, a dictionary a list of pairs in insertion order, and an
-- exception a value of a result type (Failure for the console, MergeError for a session's
-- definitions, PathError for the graph, AliasError, Unsupported and IntervalError). `str.lower`
-- and `str.casefold`, the printing of a field locator, the size of what `json.dumps` writes and
-- the instant of a relative time are parameters. The tokenizer's loop runs on fuel, one more
-- than the line is long; each round consumes a character. `_expression` runs on fuel, one more
-- than it has tokens; the argument of a call is shorter. `_tokens` runs on fuel, as much as the
-- query is long; each match takes a character. The search runs on fuel, one more than the
-- entries that it may generate; each round takes one of them off the queue.
--
-- Not modelled: the network and credentials, access to files beyond what is found in them, and
-- locks, the command line and its output, the capture of schema evidence itself, and the wording
-- of messages.
pub mod Base
pub mod LiveResponse
pub mod SchemaGraph
pub mod Helpers
pub mod Tests
