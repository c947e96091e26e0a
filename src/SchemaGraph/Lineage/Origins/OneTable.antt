-- ===== src/SchemaGraph/Lineage/Origins/OneTable.antt =====
-- The locators that `FieldOrigins` of lineage.py gives.
use m365_xdr_cli.Base.{
  ◌≡◌, Bool, true, false, ◌&&◌, Option, none, some, List, [], Text, all, Bool-cases, &&-left,
  &&-right, inl, inr, if◌then◌else◌,
}
use m365_xdr_cli.Base.Dict.{lookup}
use m365_xdr_cli.Base.Attempt.{returned, ◌>>=◌}
use m365_xdr_cli.Base.Outcomes.{Given, Returns, Returns-bind, AllValues, lookup-Given}
use m365_xdr_cli.SchemaGraph.Model.{FieldLocator}
use m365_xdr_cli.SchemaGraph.Lineage.Split.{Unsupported}
use m365_xdr_cli.SchemaGraph.Lineage.Origins.{
  ExpressionOrigin, FieldOrigins, is_ident, is_identifier, is_segment, field_locator, origin,
  column_expression, plain_origin,
}

-- A well-formed field of the table.
pub record IsField (table : Text) (l : FieldLocator) : Type 0 where
  pub same : l.table ≡ table
  pub table_form : is_identifier l.table ≡ true
  pub column_form : is_identifier l.column ≡ true
  pub path_form : all is_segment l.json_path ≡ true

abbrev pub MayField : Text → Option FieldLocator → Type 0
MayField table = Given (IsField table)

abbrev pub FieldExpression : Text → ExpressionOrigin → Type 0
FieldExpression table e = IsField table e.locator

abbrev pub MayExpression : Text → Option ExpressionOrigin → Type 0
MayExpression table = Given (FieldExpression table)

-- All that the origins know is of one table.
pub record IsOneTable (table : Text) (o : FieldOrigins) : Type 0 where
  pub named : o.table ≡ table
  pub columns : AllValues (MayField table) o.columns
  pub expressions : AllValues (FieldExpression table) o.expressions

pub field_locator-IsField :
    (t table column : Text) (path : List Text)
    → table ≡ t
    → Returns (IsField t) (field_locator table column path)
unfolding field_locator
field_locator-IsField t table column path e = elim (Bool-cases test) [
  | inl y ↦ rw y (record {
    same = e;
    table_form = &&-left (is_identifier table) _ y;
    column_form = &&-left (is_identifier column) _ (&&-right (is_identifier table) _ y);
    path_form = &&-right (is_identifier column) _ (&&-right (is_identifier table) _ y);
  })
  | inr n ↦ rw n tt
]
  where
    test : Bool
    test = is_identifier table && (is_identifier column && all is_segment path)

module _ (t : Text) (o : FieldOrigins) (h : IsOneTable t o) where
  pub origin-MayField : (column : Text) → Returns (MayField t) (origin o column)
  unfolding origin
  origin-MayField column =
      go (lookup column o.columns) (lookup-Given (MayField t) column o.columns h.columns)
    where
      fresh :
          (b : Bool)
          → Returns (MayField t) (
              if b
              then (field_locator o.table column [] >>= λ l. returned (some l))
              else returned none)
      fresh false = tt
      fresh true =
          Returns-bind (IsField t) (MayField t) (field_locator o.table column []) _
            (field_locator-IsField t o.table column [] h.named) (λ l p. p)

      go :
          (found : Option (Option FieldLocator))
          → Given (MayField t) found
          → Returns (MayField t) (elim found [
            | some value ↦ returned value
            | none ↦
                if o.passthrough && is_ident column
                then (field_locator o.table column [] >>= λ l. returned (some l))
                else returned none
          ])
      go (some value) p = p
      go none p = fresh (o.passthrough && is_ident column)

  pub column_expression-MayExpression :
      (column : Text) → Returns (MayExpression t) (column_expression o column)
  unfolding column_expression
  column_expression-MayExpression column =
      go (lookup column o.expressions)
        (lookup-Given (FieldExpression t) column o.expressions h.expressions)
        (origin-MayField column)
    where
      wrap :
          (found : Option FieldLocator)
          → MayField t found
          → Returns {E = Unsupported}
              (MayExpression t)
              (elim found [ none ↦ returned none | some l ↦ returned (some (plain_origin l)) ])
      wrap none p = tt
      wrap (some l) p = p

      go :
          (found : Option ExpressionOrigin)
          → MayExpression t found
          → Returns (MayField t) (origin o column)
          → Returns (MayExpression t) (elim found [
            | some value ↦ returned (some value)
            | none ↦ origin o column >>= λ found. elim found [
              | none ↦ returned none
              | some l ↦ returned (some (plain_origin l))
            ]
          ])
      go (some value) p q = p
      go none p q = Returns-bind (MayField t) (MayExpression t) (origin o column) _ q wrap
