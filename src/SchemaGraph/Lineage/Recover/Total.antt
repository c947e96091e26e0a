-- ===== src/SchemaGraph/Lineage/Recover/Total.antt =====
-- `recover_field_origins` of lineage.py comes to an end.
use m365_xdr_cli.Base.{
  ℕ, ◌≢◌, Bool, true, ◌&&◌, Option, none, some, List, [], ◌∷◌, Text, codes, text_eq, contains,
  length, ltb, ◌==◌, if◌then◌else◌,
}
use m365_xdr_cli.Base.Attempt.{Attempt, raised, ◌>>=◌}
use m365_xdr_cli.SchemaGraph.Lineage.Lexer.{tokens_of}
use m365_xdr_cli.SchemaGraph.Lineage.Lexer.Total.{tokens_of-ne-exhausted}
use m365_xdr_cli.SchemaGraph.Lineage.Split.{Unsupported, split}
use m365_xdr_cli.SchemaGraph.Lineage.Split.Total.{split-Ends}
use m365_xdr_cli.SchemaGraph.Lineage.Origins.{FieldOrigins, name_of}
use m365_xdr_cli.SchemaGraph.Lineage.Expression.Fuel.{Ends, ends, Ends-bind, Ends-if, name_of-Ends}
use m365_xdr_cli.SchemaGraph.Lineage.Expression.Total.{value_of-ne-exhausted}
use m365_xdr_cli.SchemaGraph.Lineage.Recover.{
  Outputs, before_writes, last_of, value_of, withhold, rename_from, assign_column, group_column,
  away_column, at_equals, each_assignment, each_group, each_away, outputs_of, no_outputs,
  apply_projection, apply_away, apply_groups, apply_summarize, apply_operator, apply_operators,
  read_pipeline, let_name, is_scalar, read_statements, recover_origins, recover_field_origins,
  non_empty, is_filter,
}

module _ (literal : Text → Option Text) where
  -- A step that starts with a name.
  named_Ends :
      {A : Type 0} (tokens : List Text) (k : Option Text → Attempt Unsupported A)
      → Ends (k none)
      → ((name : Text) → Ends (k (some name)))
      → Ends (name_of literal tokens >>= k)
  named_Ends tokens k h f = Ends-bind (name_of literal tokens) k (name_of-Ends literal tokens) go
    where
      go : (found : Option Text) → Ends (k found)
      go none = h
      go (some name) = f name

  assign_column-Ends :
      (o : FieldOrigins) (renames : Bool) (first : List Text) (more : List (List Text))
      (w : Outputs)
      → Ends (assign_column literal o renames first more w)
  unfolding assign_column rename_from
  assign_column-Ends o renames first more w =
      named_Ends first _ (λ p. cc)
        (λ name.
          Ends-if (ltb 1 (length more)) _ _ (λ p. cc)
            (Ends-bind (value_of literal (before_writes o w.written) (last_of first more)) _
              (value_of-ne-exhausted literal (before_writes o w.written) (last_of first more))
              (λ value.
                Ends-if renames _ _
                  (named_Ends (last_of first more) _ (λ p. cc)
                    (λ old. Ends-if (length more == 1) _ _ (ends _) (λ p. cc)))
                  (ends _))))

  group_column-Ends :
      (o : FieldOrigins) (first : List Text) (more : List (List Text)) (w : Outputs)
      → Ends (group_column literal o first more w)
  unfolding group_column
  group_column-Ends o first more w = named_Ends first _ (ends w) (λ name.
      Ends-if (ltb 1 (length more)) _ _ (ends w) (
        Ends-bind (value_of literal o (last_of first more)) _
          (value_of-ne-exhausted literal o (last_of first more)) (λ value. ends _)))

  at_equals-Ends :
      (tokens : List Text) (handle : List Text → List (List Text) → Attempt Unsupported Outputs)
      → ((first : List Text) (more : List (List Text)) → Ends (handle first more))
      → Ends (at_equals literal tokens handle)
  at_equals-Ends tokens handle f =
      Ends-bind (split (codes "=") tokens) _ (split-Ends (codes "=") tokens) go
    where
      go :
          (parts : List (List Text))
          → Ends {A = Outputs} (elim parts [ [] ↦ handle [] [] | first ∷ more ↦ handle first more ])
      go [] = f [] []
      go (first ∷ more) = f first more

  each_assignment-Ends :
      (o : FieldOrigins) (renames : Bool) (parts : List (List Text)) (w : Outputs)
      → Ends (each_assignment literal o renames parts w)
  unfolding each_assignment
  each_assignment-Ends o renames [] w = ends w
  each_assignment-Ends o renames (tokens ∷ others) w =
      Ends-bind
        (at_equals literal tokens (λ first more. assign_column literal o renames first more w)) _
        (at_equals-Ends tokens (λ first more. assign_column literal o renames first more w)
          (λ first more. assign_column-Ends o renames first more w))
        (λ next. each_assignment-Ends o renames others next)

  each_group-Ends :
      (o : FieldOrigins) (parts : List (List Text)) (w : Outputs)
      → Ends (each_group literal o parts w)
  unfolding each_group
  each_group-Ends o [] w = ends w
  each_group-Ends o (tokens ∷ others) w =
      Ends-bind (at_equals literal tokens (λ first more. group_column literal o first more w)) _
        (at_equals-Ends tokens (λ first more. group_column literal o first more w)
          (λ first more. group_column-Ends o first more w))
        (λ next. each_group-Ends o others next)

  each_away-Ends : (parts : List (List Text)) (w : Outputs) → Ends (each_away literal parts w)
  unfolding each_away away_column
  each_away-Ends [] w = ends w
  each_away-Ends (tokens ∷ others) w =
      Ends-bind (away_column literal tokens w) _ (named_Ends tokens _ (λ p. cc) (λ name. ends _))
        (λ next. each_away-Ends others next)

  split_Ends :
      {A : Type 0} (separator : Text) (tokens : List Text)
      (k : List (List Text) → Attempt Unsupported A)
      → ((parts : List (List Text)) → Ends (k parts))
      → Ends (split separator tokens >>= k)
  split_Ends separator tokens k f =
      Ends-bind (split separator tokens) k (split-Ends separator tokens) f

  apply_groups-Ends : (o : FieldOrigins) (keys : List Text) → Ends (apply_groups literal o keys)
  unfolding apply_groups
  apply_groups-Ends o keys = split_Ends (codes ",") keys _ (λ parts.
      Ends-bind (each_group literal o parts (no_outputs literal)) _
        (each_group-Ends o parts (no_outputs literal)) (λ w. ends _))

  apply_summarize-Ends :
      (o : FieldOrigins) (body : List Text) → Ends (apply_summarize literal o body)
  unfolding apply_summarize
  apply_summarize-Ends o body = split_Ends (codes "by") body _ go
    where
      go :
          (groups : List (List Text))
          → Ends {A = FieldOrigins} (elim groups [
            | [] ↦ raised Unsupported.grouping
            | aggregates ∷ others ↦ elim others [
              | [] ↦ raised Unsupported.grouping
              | keys ∷ more ↦ elim more [
                | [] ↦ apply_groups literal o keys
                | g ∷ gs ↦ raised Unsupported.grouping
              ]
            ]
          ])
      go [] = λ p. cc
      go (aggregates ∷ []) = λ p. cc
      go (aggregates ∷ keys ∷ []) = apply_groups-Ends o keys
      go (aggregates ∷ keys ∷ g ∷ gs) = λ p. cc

  apply_operator-Ends : (o : FieldOrigins) (part : List Text) → Ends (apply_operator literal o part)
  unfolding apply_operator apply_projection apply_away
  apply_operator-Ends o [] = λ p. cc
  apply_operator-Ends o (op ∷ body) = Ends-if (is_filter literal op) _ _ (ends o) (
      Ends-if (contains op (codes "project" ∷ codes "extend" ∷ codes "project-rename" ∷ [])) _ _
        (split_Ends (codes ",") body _ (λ parts.
          Ends-bind
            (each_assignment literal o (text_eq op (codes "project-rename")) parts
              (if text_eq op (codes "project") then no_outputs literal else outputs_of literal o))
            _
            (each_assignment-Ends o (text_eq op (codes "project-rename")) parts
              (if text_eq op (codes "project") then no_outputs literal else outputs_of literal o))
            (λ w. ends _)))
        (Ends-if (text_eq op (codes "project-away")) _ _
          (split_Ends (codes ",") body _ (λ parts.
            Ends-bind (each_away literal parts (outputs_of literal o)) _
              (each_away-Ends parts (outputs_of literal o)) (λ w. ends _)))
          (Ends-if (text_eq op (codes "summarize")) _ _ (apply_summarize-Ends o body)
            (Ends-if (text_eq op (codes "distinct")) _ _ (apply_groups-Ends o body) (λ p. cc)))))

  apply_operators-Ends :
      (o : FieldOrigins) (parts : List (List Text)) → Ends (apply_operators literal o parts)
  unfolding apply_operators
  apply_operators-Ends o [] = ends o
  apply_operators-Ends o (part ∷ parts) =
      Ends-bind (apply_operator literal o part) _ (apply_operator-Ends o part)
        (λ next. apply_operators-Ends next parts)

  module _ (isdigit : ℕ → Bool) where
    let_name-Ends : (statement : List Text) → Ends (let_name literal isdigit statement)
    unfolding let_name
    let_name-Ends [] = λ p. cc
    let_name-Ends (a ∷ []) = λ p. cc
    let_name-Ends (a ∷ b ∷ []) = λ p. cc
    let_name-Ends (a ∷ b ∷ c ∷ []) = λ p. cc
    let_name-Ends (keyword ∷ name ∷ equals ∷ value ∷ more) =
        Ends-if (text_eq keyword (codes "let") && text_eq equals (codes "=")) _ _
          (split_Ends (codes "|") (value ∷ more) _ (λ pieces.
            Ends-if (length pieces == 1 && is_scalar literal isdigit value) _ _ (ends name)
              (λ p. cc)))
          (λ p. cc)

    read_pipeline-Ends :
        (bindings statement : List Text) → Ends (read_pipeline literal isdigit bindings statement)
    unfolding read_pipeline
    read_pipeline-Ends bindings statement = split_Ends (codes "|") statement _ go
      where
        go :
            (parts : List (List Text))
            → Ends {A = FieldOrigins} (elim parts [
              | [] ↦ raised Unsupported.table_source
              | source ∷ operators ↦ name_of literal source >>= λ table. elim table [
                | none ↦ raised Unsupported.table_source
                | some name ↦
                    if contains name bindings
                    then raised Unsupported.table_source
                    else apply_operators literal
                        (record {
                          table = name;
                          columns = withhold bindings [];
                          passthrough = true;
                          expressions = [];
                        })
                        operators
              ]
            ])
        go [] = λ p. cc
        go (source ∷ operators) =
            named_Ends source _ (λ p. cc)
              (λ name.
                Ends-if (contains name bindings) _ _ (λ p. cc) (apply_operators-Ends _ operators))

    read_statements-Ends :
        (names : List Text) (statements : List (List Text))
        → Ends (read_statements literal isdigit names statements)
    unfolding read_statements
    read_statements-Ends names [] = λ p. cc
    read_statements-Ends names (statement ∷ []) = read_pipeline-Ends names statement
    read_statements-Ends names (statement ∷ next ∷ more) =
        Ends-bind (let_name literal isdigit statement) _ (let_name-Ends statement)
          (λ name. read_statements-Ends (name ∷ names) (next ∷ more))

    -- For every query, origins are recovered or one of the code's own errors is raised: no loop and no
    -- recursion goes on for ever.
    pub recover_field_origins-ne-exhausted :
        (is_decimal : ℕ → Bool) (query : Text)
        → recover_field_origins literal isdigit is_decimal query ≢ raised Unsupported.exhausted
    unfolding recover_field_origins recover_origins
    recover_field_origins-ne-exhausted is_decimal query =
        Ends-bind (tokens_of is_decimal query) _ (tokens_of-ne-exhausted is_decimal query)
          (λ tokens.
            split_Ends (codes ";") tokens _ (λ parts. read_statements-Ends [] (non_empty parts)))
