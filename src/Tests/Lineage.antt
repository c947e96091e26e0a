-- ===== src/Tests/Lineage.antt =====
-- A query that reads a nested field, and takes its column away.
use m365_xdr_cli.Base.{
  ◌≡◌, ◌≢◌, refl, Bool, true, Option, none, some, List, [], ◌∷◌, Text, Text-discrete, codes,
  is_space, All, inl, inr,
}
use m365_xdr_cli.Base.Decimal.{is_digit}
use m365_xdr_cli.Base.Dict.{lookup, insert, remove}
use m365_xdr_cli.Base.Attempt.{returned, raised}
use m365_xdr_cli.SchemaGraph.Model.{FieldLocator}
use m365_xdr_cli.SchemaGraph.Lineage.Lexer.{
  span, block_end, quoted, verbatim_quoted, fraction, numeral, plain_piece, next_piece, lex,
  tokens_of,
}
use m365_xdr_cli.SchemaGraph.Lineage.Lexer.Cover.{Lexed}
use m365_xdr_cli.SchemaGraph.Lineage.Split.{Unsupported, nest, advance, split_from, split}
use m365_xdr_cli.SchemaGraph.Lineage.Split.Inverse.{IsChunk, glue, split-IsChunk, split-glue}
use m365_xdr_cli.SchemaGraph.Lineage.Origins.{
  FieldOrigins, is_ident, is_identifier, is_segment, field_locator, origin, column_expression,
  string_of, name_of, single_quotes,
}
use m365_xdr_cli.SchemaGraph.Lineage.Expression.{
  deeper, enclosed, cast, accesses, cast_base, name_base, base_of, extend_path, expression,
}
use m365_xdr_cli.SchemaGraph.Lineage.Recover.Total.{recover_field_origins-ne-exhausted}
use m365_xdr_cli.SchemaGraph.Lineage.Recover.{
  withhold, remove_all, write_output, hide, before_writes, value_of, rename_from, assign_column,
  group_column, away_column, each_assignment, each_group, each_away, apply_projection, apply_away,
  apply_groups, apply_summarize, apply_operator, apply_operators, is_scalar, let_name,
  read_pipeline, read_statements, recover_origins, recover_field_origins,
}
use m365_xdr_cli.SchemaGraph.Lineage.Recover.Result.{IsQuery, recover_field_origins-IsQuery}
use m365_xdr_cli.SchemaGraph.Lineage.Recover.Away.{apply_away_hides}

-- No text is a literal here.
abbrev no_literal : Text → Option Text
no_literal token = none

abbrev call : List Text
call = codes "tostring" ∷ codes "(" ∷ codes "A" ∷ codes "," ∷ codes "B" ∷ codes ")" ∷ []

abbrev listed : List Text
listed =
    codes "C"
    ∷ codes ","
    ∷ codes "tostring"
    ∷ codes "("
    ∷ codes "A"
    ∷ codes ","
    ∷ codes "B"
    ∷ codes ")"
    ∷ []

split-IsChunk_example :
    (glue (codes ",") ((codes "C" ∷ []) ∷ call ∷ []) ≡ listed)
    × All (IsChunk (codes ",")) ((codes "C" ∷ []) ∷ call ∷ [])
unfolding split split_from advance nest Text-discrete
split-IsChunk_example = split-IsChunk (codes ",") listed ((codes "C" ∷ []) ∷ call ∷ []) refl

split-glue_example : split (codes ",") listed ≡ returned ((codes "C" ∷ []) ∷ call ∷ [])
unfolding split split_from advance nest Text-discrete
split-glue_example = split-glue (codes ",") (codes "C" ∷ []) (call ∷ []) (refl, (refl, tt))

abbrev query : Text
query = codes "T | extend B = parse_json(C).x // nested\n| project-away C"

abbrev nested : FieldLocator
nested = record { table = codes "T"; column = codes "C"; json_path = codes "x" ∷ [] }

abbrev recovered : FieldOrigins
recovered = record {
  table = codes "T";
  columns = (codes "B", some nested) ∷ (codes "C", none) ∷ [];
  passthrough = true;
  expressions =
      (codes "B", record { locator = nested; root_decoded = true; stringified = Bool.false }) ∷ [];
}

recover_field_origins-IsQuery_example :
    (tokens : List Text) × Lexed is_digit query tokens × IsQuery no_literal tokens recovered
unfolding recover_field_origins is_space span block_end quoted verbatim_quoted fraction numeral
    plain_piece next_piece lex tokens_of split split_from advance nest Text-discrete lookup insert
    remove is_digit is_ident is_identifier is_segment field_locator origin column_expression
    string_of name_of single_quotes deeper enclosed cast accesses cast_base name_base base_of
    extend_path expression withhold remove_all write_output hide before_writes value_of rename_from
    assign_column group_column away_column each_assignment each_group each_away apply_projection
    apply_away apply_groups apply_summarize apply_operator apply_operators is_scalar let_name
    read_pipeline read_statements recover_origins
recover_field_origins-IsQuery_example =
    recover_field_origins-IsQuery no_literal is_digit is_digit query recovered refl

recover_field_origins-ne-exhausted_example :
    recover_field_origins no_literal is_digit is_digit query ≢ raised Unsupported.exhausted
recover_field_origins-ne-exhausted_example =
    recover_field_origins-ne-exhausted no_literal is_digit is_digit query

abbrev plain : FieldOrigins
plain = record { table = codes "T"; columns = []; passthrough = true; expressions = [] }

abbrev away : FieldOrigins
away = record {
  table = codes "T";
  columns = (codes "A", none) ∷ (codes "B", none) ∷ [];
  passthrough = true;
  expressions = [];
}

apply_away_hides_example :
    (origin away (codes "B") ≡ returned none) × (column_expression away (codes "B") ≡ returned none)
unfolding split split_from advance nest Text-discrete lookup insert remove is_digit is_ident
    is_identifier is_segment field_locator origin column_expression string_of name_of single_quotes
    deeper enclosed cast accesses cast_base name_base base_of extend_path expression withhold
    remove_all write_output hide before_writes value_of rename_from assign_column group_column
    away_column each_assignment each_group each_away apply_projection apply_away apply_groups
    apply_summarize apply_operator apply_operators is_scalar let_name read_pipeline read_statements
    recover_origins
apply_away_hides_example =
    apply_away_hides no_literal (codes "B") plain away (codes "A" ∷ codes "," ∷ codes "B" ∷ [])
      (codes "B" ∷ []) ((codes "A" ∷ []) ∷ (codes "B" ∷ []) ∷ []) refl refl (inr (inl refl)) refl
