-- ===== src/SchemaGraph/Lineage/Recover/Result.antt =====
-- The result of `recover_field_origins` of lineage.py: the pipeline and the statements.
use m365_xdr_cli.Base.{
  ℕ, ◌≡◌, refl, ap, Bool, true, Option, none, some, List, [], ◌∷◌, ◌++◌, Text, codes, contains,
  if◌then◌else◌,
}
use m365_xdr_cli.Base.Attempt.{returned, raised, ◌>>=◌, >>=-eq-returned}
use m365_xdr_cli.Base.Outcomes.{
  Returns, Returns-bind, Returns-if, Returns-eq, Returns-self, Returns-map, Always, always,
}
use m365_xdr_cli.SchemaGraph.Model.{FieldLocator}
use m365_xdr_cli.SchemaGraph.Lineage.Lexer.{tokens_of}
use m365_xdr_cli.SchemaGraph.Lineage.Lexer.Cover.{Lexed, tokens_of-Lexed}
use m365_xdr_cli.SchemaGraph.Lineage.Split.{Unsupported, split}
use m365_xdr_cli.SchemaGraph.Lineage.Origins.{FieldOrigins, origin, name_of}
use m365_xdr_cli.SchemaGraph.Lineage.Origins.OneTable.{
  IsField, MayField, IsOneTable, origin-MayField,
}
use m365_xdr_cli.SchemaGraph.Lineage.Recover.{
  withhold, apply_operators, read_pipeline, let_name, read_statements, recover_origins,
  recover_field_origins, non_empty,
}
use m365_xdr_cli.SchemaGraph.Lineage.Recover.OneTable.{withhold-AllValues}
use m365_xdr_cli.SchemaGraph.Lineage.Recover.Operators.{apply_operators-IsOneTable}

module _ (literal : Text → Option Text) where
  -- The origins were read from the pipeline: its first part names the table, and they show nothing but
  -- well-formed fields of this table.
  pub record IsPipeline (statement : List Text) (o : FieldOrigins) : Type 0 where
    pub source : List Text
    pub operators : List (List Text)
    pub table : Text
    pub pipeline : split (codes "|") statement ≡ returned (source ∷ operators)
    pub named : name_of literal source ≡ returned (some table)
    pub fields :
        (column : Text) (l : FieldLocator) → origin o column ≡ returned (some l) → IsField table l

  -- The pipeline is the last statement of the query.
  pub record IsQuery (tokens : List Text) (o : FieldOrigins) : Type 0 where
    pub parts : List (List Text)
    pub bindings : List (List Text)
    pub statement : List Text
    pub statements : split (codes ";") tokens ≡ returned parts
    pub last : non_empty parts ≡ bindings ++ (statement ∷ [])
    pub read : IsPipeline statement o

  module _ (isdigit : ℕ → Bool) where
    read_source-IsPipeline :
        (bindings statement source : List Text) (operators : List (List Text)) (table : Text)
        → split (codes "|") statement ≡ returned (source ∷ operators)
        → name_of literal source ≡ returned (some table)
        → Returns (IsPipeline statement) (
            apply_operators literal
              (record {
                table = table;
                columns = withhold bindings [];
                passthrough = true;
                expressions = [];
              })
              operators)
    read_source-IsPipeline bindings statement source operators table e n =
        Returns-map (IsOneTable table) (IsPipeline statement) _
          (apply_operators-IsOneTable literal table operators _ (record {
            named = refl;
            columns = withhold-AllValues table bindings [] tt;
            expressions = tt;
          }))
          (λ o k. record {
            source = source;
            operators = operators;
            table = table;
            pipeline = e;
            named = n;
            fields = λ column l p.
                Returns-eq (MayField table) (origin o column) (some l) p
                  (origin-MayField table o k column);
          })

    read_pipeline-IsPipeline :
        (bindings statement : List Text)
        → Returns (IsPipeline statement) (read_pipeline literal isdigit bindings statement)
    unfolding read_pipeline
    read_pipeline-IsPipeline bindings statement =
        Returns-bind (λ parts. split (codes "|") statement ≡ returned parts) (IsPipeline statement)
          (split (codes "|") statement) _ (Returns-self (split (codes "|") statement)) parts_case
      where
        table_case :
            (source : List Text) (operators : List (List Text)) (table : Option Text)
            → split (codes "|") statement ≡ returned (source ∷ operators)
            → name_of literal source ≡ returned table
            → Returns (IsPipeline statement) (elim table [
              | none ↦ raised Unsupported.table_source
              | some name ↦
                  if contains name bindings
                  then raised Unsupported.table_source
                  else apply_operators literal
                      (record {
                        table = name;
                        columns = withhold bindings [];
                        passthrough = true;
                        expressions = [];
                      })
                      operators
            ])
        table_case source operators none e n = tt
        table_case source operators (some name) e n =
            Returns-if (IsPipeline statement) (contains name bindings) _ _ tt
              (read_source-IsPipeline bindings statement source operators name e n)

        parts_case :
            (parts : List (List Text))
            → split (codes "|") statement ≡ returned parts
            → Returns (IsPipeline statement) (elim parts [
              | [] ↦ raised Unsupported.table_source
              | source ∷ operators ↦ name_of literal source >>= λ table. elim table [
                | none ↦ raised Unsupported.table_source
                | some name ↦
                    if contains name bindings
                    then raised Unsupported.table_source
                    else apply_operators literal
                        (record {
                          table = name;
                          columns = withhold bindings [];
                          passthrough = true;
                          expressions = [];
                        })
                        operators
              ]
            ])
        parts_case [] e = tt
        parts_case (source ∷ operators) e =
            Returns-bind (λ table. name_of literal source ≡ returned table) (IsPipeline statement)
              (name_of literal source) _ (Returns-self (name_of literal source))
              (λ table n. table_case source operators table e n)

    -- The pipeline stands at the end of the statements.
    record IsLast (statements : List (List Text)) (o : FieldOrigins) : Type 0 where
      bindings : List (List Text)
      statement : List Text
      last : statements ≡ bindings ++ (statement ∷ [])
      read : IsPipeline statement o

    read_statements-IsLast :
        (names : List Text) (statements : List (List Text))
        → Returns (IsLast statements) (read_statements literal isdigit names statements)
    unfolding read_statements
    read_statements-IsLast names [] = tt
    read_statements-IsLast names (statement ∷ []) =
        Returns-map (IsPipeline statement) (IsLast (statement ∷ [])) _
          (read_pipeline-IsPipeline names statement)
          (λ o k. record { bindings = []; statement = statement; last = refl; read = k })
    read_statements-IsLast names (statement ∷ next ∷ more) =
        Returns-bind Always (IsLast (statement ∷ next ∷ more)) (let_name literal isdigit statement)
          _ (always (let_name literal isdigit statement))
          (λ name u.
            Returns-map (IsLast (next ∷ more)) (IsLast (statement ∷ next ∷ more)) _
              (read_statements-IsLast (name ∷ names) (next ∷ more))
              (λ o k. record {
                bindings = statement ∷ k.bindings;
                statement = k.statement;
                last = ap (λ (xs : List (List Text)). statement ∷ xs) k.last;
                read = k.read;
              }))

    recover_origins-IsQuery :
        (tokens : List Text) (o : FieldOrigins)
        → recover_origins literal isdigit tokens ≡ returned o
        → IsQuery tokens o
    unfolding recover_origins
    recover_origins-IsQuery tokens o h =
        Returns-eq (IsQuery tokens) (recover_origins literal isdigit tokens) o h (
          Returns-bind (λ parts. split (codes ";") tokens ≡ returned parts) (IsQuery tokens)
            (split (codes ";") tokens) _ (Returns-self (split (codes ";") tokens))
            (λ parts e.
              Returns-map (IsLast (non_empty parts)) (IsQuery tokens) _
                (read_statements-IsLast [] (non_empty parts))
                (λ o k. record {
                  parts = parts;
                  bindings = k.bindings;
                  statement = k.statement;
                  statements = e;
                  last = k.last;
                  read = k.read;
                })))

    -- Where origins are recovered, the query is made up of matches, some of which are its tokens; the last
    -- statement of these that is not empty is a pipeline whose first part names a table, and every column
    -- with an origin shows a well-formed field of this table.
    pub recover_field_origins-IsQuery :
        (is_decimal : ℕ → Bool) (query : Text) (o : FieldOrigins)
        → recover_field_origins literal isdigit is_decimal query ≡ returned o
        → (tokens : List Text) × Lexed is_decimal query tokens × IsQuery tokens o
    unfolding recover_field_origins
    recover_field_origins-IsQuery is_decimal query o h =
        let (tokens, lexed, rest) = >>=-eq-returned (tokens_of is_decimal query) _ h in
        (
          tokens,
          tokens_of-Lexed is_decimal query tokens lexed,
          recover_origins-IsQuery tokens o rest,
        )
