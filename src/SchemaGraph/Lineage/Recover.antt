-- ===== src/SchemaGraph/Lineage/Recover.antt =====
-- `recover_field_origins` of lineage.py, behind `_split`, `_tokens` and `_expression`.
pub mod OneTable
pub mod Operators
pub mod Away
pub mod Total
pub mod Result
use m365_xdr_cli.Base.{
  ℕ, zero, suc, ◌+◌, Bool, true, false, ◌&&◌, ◌||◌, not, Option, none, some, List, [], ◌∷◌, Text,
  codes, text_eq, contains, length, ltb, ◌==◌, if◌then◌else◌,
}
use m365_xdr_cli.Base.Dict.{Dict, insert, remove}
use m365_xdr_cli.Base.Attempt.{Attempt, returned, raised, ◌>>=◌}
use m365_xdr_cli.SchemaGraph.Model.{FieldLocator}
use m365_xdr_cli.SchemaGraph.Lineage.Lexer.{tokens_of}
use m365_xdr_cli.SchemaGraph.Lineage.Split.{Unsupported, split}
use m365_xdr_cli.SchemaGraph.Lineage.Origins.{ExpressionOrigin, FieldOrigins, reproducible, name_of}
use m365_xdr_cli.SchemaGraph.Lineage.Expression.{Attributed, is_quoted, expression}

-- `[part for part in parts if part]`
abbrev pub non_empty : List (List Text) → List (List Text)
non_empty [] = []
non_empty ([] ∷ more) = non_empty more
non_empty ((t ∷ ts) ∷ more) = (t ∷ ts) ∷ non_empty more

-- The columns and expressions of the operator that is read.
pub record Outputs : Type 0 where
  pub columns : Dict (Option FieldLocator)
  pub expressions : Dict ExpressionOrigin
  pub written : List Text

-- `{**columns, **dict.fromkeys(names)}`
unfoldable pub withhold : List Text → Dict (Option FieldLocator) → Dict (Option FieldLocator)
withhold [] columns = columns
withhold (name ∷ names) columns = insert name none (withhold names columns)

-- `pop` of each name
unfoldable pub remove_all : List Text → Dict ExpressionOrigin → Dict ExpressionOrigin
remove_all [] expressions = expressions
remove_all (name ∷ names) expressions = remove name (remove_all names expressions)

abbrev pub shown : Option ExpressionOrigin → Option FieldLocator
shown none = none
shown (some e) = reproducible e

-- An entry for a value that has an origin.
abbrev pub record_value :
    Text → Option ExpressionOrigin → Dict ExpressionOrigin → Dict ExpressionOrigin
record_value name none expressions = expressions
record_value name (some e) expressions = insert name e expressions

-- A column that is written by `project`, `extend` or `project-rename`.
unfoldable pub write_output : Text → Option ExpressionOrigin → Outputs → Outputs
write_output name value w = record {
  columns = insert name (shown value) w.columns;
  expressions = record_value name value (remove name w.expressions);
  written = name ∷ w.written;
}

-- A column that is gone.
unfoldable pub hide : Text → Outputs → Outputs
hide name w = record w {
  columns = insert name none w.columns;
  expressions = remove name w.expressions;
}

-- `FieldOrigins` as an expression sees it: without what the operator has written.
unfoldable pub before_writes : FieldOrigins → List Text → FieldOrigins
before_writes o written = record o {
  columns = withhold written o.columns;
  expressions = remove_all written o.expressions;
}

abbrev pub last_of : List Text → List (List Text) → List Text
last_of first [] = first
last_of first (rhs ∷ more) = last_of rhs more

module _ (literal : Text → Option Text) where
  unfoldable pub value_of : FieldOrigins → List Text → Attributed
  value_of o tokens = expression literal o (suc (length tokens)) tokens

  -- The rest of the assignment of a `project-rename`.
  unfoldable pub rename_from : List (List Text) → List Text → Outputs → Attempt Unsupported Outputs
  rename_from more rhs w = name_of literal rhs >>= λ old. elim old [
    | none ↦ raised Unsupported.rename
    | some name ↦ if length more == 1 then returned (hide name w) else raised Unsupported.rename
  ]

  -- One assignment, split at `=`.
  unfoldable pub assign_column :
      FieldOrigins → Bool → List Text → List (List Text) → Outputs → Attempt Unsupported Outputs
  assign_column o renames first more w = name_of literal first >>= λ output. elim output [
    | none ↦ raised Unsupported.projection
    | some name ↦
        if ltb 1 (length more)
        then raised Unsupported.projection
        else value_of (before_writes o w.written) (last_of first more) >>= λ value.
            if renames
            then rename_from more (last_of first more) (write_output name value w)
            else returned (write_output name value w)
  ]

  -- One part of a `summarize` or `distinct`.
  unfoldable pub group_column :
      FieldOrigins → List Text → List (List Text) → Outputs → Attempt Unsupported Outputs
  group_column o first more w = name_of literal first >>= λ output. elim output [
    | none ↦ returned w
    | some name ↦
        if ltb 1 (length more)
        then returned w
        else value_of o (last_of first more) >>= λ value. returned (record w {
          columns = insert name (shown value) w.columns;
          expressions = record_value name value w.expressions;
        })
  ]

  -- One name of a `project-away`.
  unfoldable pub away_column : List Text → Outputs → Attempt Unsupported Outputs
  away_column tokens w = name_of literal tokens >>= λ name. elim name [
    | none ↦ raised Unsupported.project_away
    | some n ↦ returned (hide n w)
  ]

  -- `split` at `=`, and then what an operator does with the first part and the others.
  abbrev pub at_equals :
      List Text
      → (List Text → List (List Text) → Attempt Unsupported Outputs)
      → Attempt Unsupported Outputs
  at_equals tokens handle = split (codes "=") tokens >>= λ parts. elim parts [
    | [] ↦ handle [] []
    | first ∷ more ↦ handle first more
  ]

  unfoldable pub each_assignment :
      FieldOrigins → Bool → List (List Text) → Outputs → Attempt Unsupported Outputs
  each_assignment o renames [] w = returned w
  each_assignment o renames (tokens ∷ others) w =
      at_equals tokens (λ first more. assign_column o renames first more w) >>= λ next.
      each_assignment o renames others next

  unfoldable pub each_group :
      FieldOrigins → List (List Text) → Outputs → Attempt Unsupported Outputs
  each_group o [] w = returned w
  each_group o (tokens ∷ others) w =
      at_equals tokens (λ first more. group_column o first more w) >>= λ next.
      each_group o others next

  unfoldable pub each_away : List (List Text) → Outputs → Attempt Unsupported Outputs
  each_away [] w = returned w
  each_away (tokens ∷ others) w = away_column tokens w >>= λ next. each_away others next

  abbrev pub outputs_of : FieldOrigins → Outputs
  outputs_of o = record { columns = o.columns; expressions = o.expressions; written = [] }

  abbrev pub no_outputs : Outputs
  no_outputs = record { columns = []; expressions = []; written = [] }

  abbrev pub with_outputs : FieldOrigins → Bool → Outputs → FieldOrigins
  with_outputs o passthrough w = record {
    table = o.table;
    columns = w.columns;
    passthrough = passthrough;
    expressions = w.expressions;
  }

  -- `project`, `extend` and `project-rename`
  unfoldable pub apply_projection :
      FieldOrigins → Bool → Bool → List Text → Attempt Unsupported FieldOrigins
  apply_projection o projects renames body = split (codes ",") body >>= λ parts.
      each_assignment o renames parts (if projects then no_outputs else outputs_of o) >>= λ w.
      returned (with_outputs o (o.passthrough && not projects) w)

  -- `project-away`
  unfoldable pub apply_away : FieldOrigins → List Text → Attempt Unsupported FieldOrigins
  apply_away o body = split (codes ",") body >>= λ parts.
      each_away parts (outputs_of o) >>= λ w. returned (with_outputs o o.passthrough w)

  unfoldable pub apply_groups : FieldOrigins → List Text → Attempt Unsupported FieldOrigins
  apply_groups o keys = split (codes ",") keys >>= λ parts.
      each_group o parts no_outputs >>= λ w. returned (with_outputs o false w)

  -- `summarize`
  unfoldable pub apply_summarize : FieldOrigins → List Text → Attempt Unsupported FieldOrigins
  apply_summarize o body = split (codes "by") body >>= λ groups. elim groups [
    | [] ↦ raised Unsupported.grouping
    | aggregates ∷ others ↦ elim others [
      | [] ↦ raised Unsupported.grouping
      | keys ∷ more ↦ elim more [ [] ↦ apply_groups o keys | g ∷ gs ↦ raised Unsupported.grouping ]
    ]
  ]

  abbrev pub is_filter : Text → Bool
  is_filter op = contains op (
      codes "where"
      ∷ codes "take"
      ∷ codes "limit"
      ∷ codes "top"
      ∷ codes "sort"
      ∷ codes "order"
      ∷ codes "sample"
      ∷ [])

  -- One operator of the pipeline.
  unfoldable pub apply_operator : FieldOrigins → List Text → Attempt Unsupported FieldOrigins
  apply_operator o [] = raised Unsupported.empty_operator
  apply_operator o (op ∷ body) =
      if is_filter op
      then returned o
      else if contains op (codes "project" ∷ codes "extend" ∷ codes "project-rename" ∷ [])
      then apply_projection o (text_eq op (codes "project")) (text_eq op (codes "project-rename"))
          body
      else if text_eq op (codes "project-away")
      then apply_away o body
      else if text_eq op (codes "summarize")
      then apply_summarize o body
      else if text_eq op (codes "distinct")
      then apply_groups o body
      else raised Unsupported.operator

  unfoldable pub apply_operators :
      FieldOrigins → List (List Text) → Attempt Unsupported FieldOrigins
  apply_operators o [] = returned o
  apply_operators o (part ∷ parts) = apply_operator o part >>= λ next. apply_operators next parts

  -- `str.isdigit` on one character
  module _ (isdigit : ℕ → Bool) where
    -- The right side of a `let`: a literal, a number or the call of a scalar constructor.
    unfoldable pub is_scalar : Text → Bool
    is_scalar t =
        is_quoted t
        || (contains t (
              codes "datetime"
              ∷ codes "timespan"
              ∷ codes "dynamic"
              ∷ codes "ago"
              ∷ codes "now"
              ∷ [])
            || elim t [ [] ↦ false | c ∷ cs ↦ isdigit c ])

    -- The name that a `let` binds.
    unfoldable pub let_name : List Text → Attempt Unsupported Text
    let_name (keyword ∷ name ∷ equals ∷ value ∷ more) =
        if text_eq keyword (codes "let") && text_eq equals (codes "=")
        then (split (codes "|") (value ∷ more) >>= λ pieces.
            if length pieces == 1 && is_scalar value
            then returned name
            else raised Unsupported.let_binding)
        else raised Unsupported.statement
    let_name _ = raised Unsupported.statement

    -- The pipeline, for the names that are bound.
    unfoldable pub read_pipeline : List Text → List Text → Attempt Unsupported FieldOrigins
    read_pipeline bindings statement = split (codes "|") statement >>= λ pipeline. elim pipeline [
      | [] ↦ raised Unsupported.table_source
      | source ∷ parts ↦ name_of literal source >>= λ table. elim table [
        | none ↦ raised Unsupported.table_source
        | some name ↦
            if contains name bindings
            then raised Unsupported.table_source
            else apply_operators
                (record {
                  table = name;
                  columns = withhold bindings [];
                  passthrough = true;
                  expressions = [];
                })
                parts
      ]
    ]

    -- The statements: bindings, and then the pipeline.
    unfoldable pub read_statements : List Text → List (List Text) → Attempt Unsupported FieldOrigins
    read_statements bindings [] = raised Unsupported.empty_query
    read_statements bindings (statement ∷ []) = read_pipeline bindings statement
    read_statements bindings (statement ∷ next ∷ more) =
        let_name statement >>= λ name. read_statements (name ∷ bindings) (next ∷ more)

    -- `recover_field_origins` behind `_tokens`
    unfoldable pub recover_origins : List Text → Attempt Unsupported FieldOrigins
    recover_origins tokens =
        split (codes ";") tokens >>= λ parts. read_statements [] (non_empty parts)

    -- `recover_field_origins`; `is_decimal` is what `\d` matches.
    unfoldable pub recover_field_origins : (ℕ → Bool) → Text → Attempt Unsupported FieldOrigins
    recover_field_origins is_decimal query =
        tokens_of is_decimal query >>= λ tokens. recover_origins tokens
