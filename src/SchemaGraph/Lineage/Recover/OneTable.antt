-- ===== src/SchemaGraph/Lineage/Recover/OneTable.antt =====
-- The table of what `recover_field_origins` of lineage.py returns.
use m365_xdr_cli.Base.{
  suc, Bool, true, false, ◌&&◌, Option, none, some, List, [], ◌∷◌, Text, length, ltb, ◌==◌,
  if◌then◌else◌,
}
use m365_xdr_cli.Base.Dict.{Dict, remove}
use m365_xdr_cli.Base.Attempt.{Attempt, ◌>>=◌}
use m365_xdr_cli.Base.Outcomes.{
  Returns, Returns-bind, Returns-if, Always, always, AllValues, insert-AllValues, remove-AllValues,
}
use m365_xdr_cli.SchemaGraph.Model.{FieldLocator}
use m365_xdr_cli.SchemaGraph.Lineage.Split.{Unsupported}
use m365_xdr_cli.SchemaGraph.Lineage.Origins.{ExpressionOrigin, FieldOrigins, is_root, name_of}
use m365_xdr_cli.SchemaGraph.Lineage.Origins.OneTable.{
  MayField, FieldExpression, MayExpression, IsOneTable,
}
use m365_xdr_cli.SchemaGraph.Lineage.Expression.OneTable.{expression-MayExpression}
use m365_xdr_cli.SchemaGraph.Lineage.Recover.{
  Outputs, withhold, remove_all, shown, record_value, write_output, hide, before_writes, last_of,
  value_of, rename_from, assign_column, group_column,
}

pub withhold-AllValues :
    (table : Text) (names : List Text) (d : Dict (Option FieldLocator))
    → AllValues (MayField table) d
    → AllValues (MayField table) (withhold names d)
unfolding withhold
withhold-AllValues table [] d h = h
withhold-AllValues table (name ∷ names) d h =
    insert-AllValues (MayField table) name none (withhold names d) tt
      (withhold-AllValues table names d h)

remove_all-AllValues :
    (table : Text) (names : List Text) (d : Dict ExpressionOrigin)
    → AllValues (FieldExpression table) d
    → AllValues (FieldExpression table) (remove_all names d)
unfolding remove_all
remove_all-AllValues table [] d h = h
remove_all-AllValues table (name ∷ names) d h =
    remove-AllValues (FieldExpression table) name (remove_all names d)
      (remove_all-AllValues table names d h)

shown-MayField :
    (table : Text) (value : Option ExpressionOrigin)
    → MayExpression table value
    → MayField table (shown value)
shown-MayField table none h = tt
shown-MayField table (some e) h = go (e.root_decoded && is_root e.locator)
  where
    go : (b : Bool) → MayField table (if b then none else some e.locator)
    go true = tt
    go false = h

record_value-AllValues :
    (table name : Text) (value : Option ExpressionOrigin) (d : Dict ExpressionOrigin)
    → MayExpression table value
    → AllValues (FieldExpression table) d
    → AllValues (FieldExpression table) (record_value name value d)
record_value-AllValues table name none d p h = h
record_value-AllValues table name (some e) d p h =
    insert-AllValues (FieldExpression table) name e d p h

-- What an operator has made so far is of the table.
pub record IsOutputs (table : Text) (w : Outputs) : Type 0 where
  pub columns : AllValues (MayField table) w.columns
  pub expressions : AllValues (FieldExpression table) w.expressions

write_output-IsOutputs :
    (table name : Text) (value : Option ExpressionOrigin) (w : Outputs)
    → MayExpression table value
    → IsOutputs table w
    → IsOutputs table (write_output name value w)
unfolding write_output
write_output-IsOutputs table name value w p h = record {
  columns =
      insert-AllValues (MayField table) name (shown value) w.columns (shown-MayField table value p)
        h.columns;
  expressions =
      record_value-AllValues table name value (remove name w.expressions) p
        (remove-AllValues (FieldExpression table) name w.expressions h.expressions);
}

pub hide-IsOutputs :
    (table name : Text) (w : Outputs) → IsOutputs table w → IsOutputs table (hide name w)
unfolding hide
hide-IsOutputs table name w h = record {
  columns = insert-AllValues (MayField table) name none w.columns tt h.columns;
  expressions = remove-AllValues (FieldExpression table) name w.expressions h.expressions;
}

before_writes-IsOneTable :
    (table : Text) (o : FieldOrigins) (written : List Text)
    → IsOneTable table o
    → IsOneTable table (before_writes o written)
unfolding before_writes
before_writes-IsOneTable table o written h = record {
  named = h.named;
  columns = withhold-AllValues table written o.columns h.columns;
  expressions = remove_all-AllValues table written o.expressions h.expressions;
}

module _ (literal : Text → Option Text) (table : Text) where
  value_of-MayExpression :
      (o : FieldOrigins) (tokens : List Text)
      → IsOneTable table o
      → Returns (MayExpression table) (value_of literal o tokens)
  unfolding value_of
  value_of-MayExpression o tokens h =
      expression-MayExpression literal table o h (suc (length tokens)) tokens

  -- A step that starts with a name.
  pub named_step :
      {A : Type 0} (P : A → Type 0) (tokens : List Text) (k : Option Text → Attempt Unsupported A)
      → Returns P (k none)
      → ((name : Text) → Returns P (k (some name)))
      → Returns P (name_of literal tokens >>= k)
  named_step P tokens k h f =
      Returns-bind Always P (name_of literal tokens) k (always (name_of literal tokens))
        (λ found u. go found)
    where
      go : (found : Option Text) → Returns P (k found)
      go none = h
      go (some name) = f name

  rename_from-IsOutputs :
      (more : List (List Text)) (rhs : List Text) (w : Outputs)
      → IsOutputs table w
      → Returns (IsOutputs table) (rename_from literal more rhs w)
  unfolding rename_from
  rename_from-IsOutputs more rhs w h = named_step (IsOutputs table) rhs _ tt (λ name.
      Returns-if (IsOutputs table) (length more == 1) _ _ (hide-IsOutputs table name w h) tt)

  module _ (o : FieldOrigins) (q : IsOneTable table o) where
    pub assign_column-IsOutputs :
        (renames : Bool) (first : List Text) (more : List (List Text)) (w : Outputs)
        → IsOutputs table w
        → Returns (IsOutputs table) (assign_column literal o renames first more w)
    unfolding assign_column
    assign_column-IsOutputs renames first more w h =
        named_step (IsOutputs table) first _ tt (λ name.
          Returns-if (IsOutputs table) (ltb 1 (length more)) _ _ tt (
            Returns-bind (MayExpression table) (IsOutputs table)
              (value_of literal (before_writes o w.written) (last_of first more)) _
              (value_of-MayExpression (before_writes o w.written) (last_of first more)
                (before_writes-IsOneTable table o w.written q))
              (λ value p.
                let written = write_output-IsOutputs table name value w p h in
                Returns-if (IsOutputs table) renames _ _
                  (rename_from-IsOutputs more (last_of first more) (write_output name value w)
                    written)
                  written)))

    pub group_column-IsOutputs :
        (first : List Text) (more : List (List Text)) (w : Outputs)
        → IsOutputs table w
        → Returns (IsOutputs table) (group_column literal o first more w)
    unfolding group_column
    group_column-IsOutputs first more w h = named_step (IsOutputs table) first _ h (λ name.
        Returns-if (IsOutputs table) (ltb 1 (length more)) _ _ h (
          Returns-bind (MayExpression table) (IsOutputs table)
            (value_of literal o (last_of first more)) _
            (value_of-MayExpression o (last_of first more) q)
            (λ value p. record {
              columns =
                  insert-AllValues (MayField table) name (shown value) w.columns
                    (shown-MayField table value p) h.columns;
              expressions = record_value-AllValues table name value w.expressions p h.expressions;
            })))
