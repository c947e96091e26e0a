-- ===== src/SchemaGraph/Lineage/Expression/OneTable.antt =====
-- The locator that `_expression` of lineage.py finds.
use m365_xdr_cli.Base.{
  ℕ, zero, suc, ◌&&◌, Option, none, some, List, [], ◌∷◌, ◌++◌, Text, codes, text_eq, arith,
}
use m365_xdr_cli.Base.Attempt.{returned, raised, ◌>>=◌}
use m365_xdr_cli.Base.Outcomes.{
  Given, Returns, Returns-bind, Returns-if, Returns-found, Always, always, found_any,
}
use m365_xdr_cli.SchemaGraph.Lineage.Split.{Unsupported}
use m365_xdr_cli.SchemaGraph.Lineage.Origins.{
  ExpressionOrigin, FieldOrigins, is_ident, field_locator, column_expression, string_of, name_of,
}
use m365_xdr_cli.SchemaGraph.Lineage.Origins.OneTable.{
  IsField, FieldExpression, MayExpression, IsOneTable, field_locator-IsField,
  column_expression-MayExpression,
}
use m365_xdr_cli.SchemaGraph.Lineage.Expression.{
  Attributed, is_cast, cast, with_rest, enclosed, accesses, cast_base, name_base, base_of, locate,
  extend_path, expression,
}

cast-MayExpression :
    (table t : Text) (e : ExpressionOrigin)
    → FieldExpression table e
    → MayExpression table (cast t e)
unfolding cast
cast-MayExpression table t e h = ground arith

abbrev MayBase : Text → Option (ExpressionOrigin × List Text) → Type 0
MayBase table = Given (λ (found : ExpressionOrigin × List Text). FieldExpression table found.0)

with_rest-MayBase :
    (table : Text) (rest : List Text) (m : Attributed)
    → Returns (MayExpression table) m
    → Returns (MayBase table) (with_rest rest m)
with_rest-MayBase table rest (raised e) h = tt
with_rest-MayBase table rest (returned none) h = tt
with_rest-MayBase table rest (returned (some e)) h = h

locate-MayExpression :
    (table : Text) (e : ExpressionOrigin) (path : List Text)
    → FieldExpression table e
    → Returns (MayExpression table) (locate e path)
locate-MayExpression table e path h =
    Returns-bind (IsField table) (MayExpression table)
      (field_locator e.locator.table e.locator.column (e.locator.json_path ++ path)) _
      (field_locator-IsField table e.locator.table e.locator.column (e.locator.json_path ++ path)
        h.same)
      (λ l p. p)

module _ (literal : Text → Option Text) (table : Text) where
  extend_path-MayExpression :
      (base : ExpressionOrigin) (rest : List Text)
      → FieldExpression table base
      → Returns (MayExpression table) (extend_path literal base rest)
  unfolding extend_path
  extend_path-MayExpression base [] h = locate-MayExpression table base [] h
  extend_path-MayExpression base (t ∷ ts) h =
      Returns-if (MayExpression table) base.stringified _ _ tt (
        Returns-found Always (FieldExpression table) (accesses literal (t ∷ ts)) _
          (found_any (accesses literal (t ∷ ts)))
          (λ path u. locate-MayExpression table base path h))

  cast_base-MayBase :
      (inner : List Text → Attributed)
      → ((ts : List Text) → Returns (MayExpression table) (inner ts))
      → (t : Text) (ts : List Text) → Returns (MayBase table) (cast_base literal inner t ts)
  unfolding cast_base
  cast_base-MayBase inner f t ts = go (enclosed 0 ts)
    where
      go :
          (parts : Option (List Text × List Text))
          → Returns {E = Unsupported} (MayBase table) (elim parts [
            | none ↦ returned none
            | some (inside, rest) ↦ inner inside >>= λ found. elim found [
              | none ↦ returned none
              | some base ↦ with_rest rest (returned (cast t base))
            ]
          ])
      go none = tt
      go (some (inside, rest)) =
          Returns-found (FieldExpression table)
            (λ (x : ExpressionOrigin × List Text). FieldExpression table x.0) (inner inside) _
            (f inside)
            (λ base p.
              with_rest-MayBase table rest (returned (cast t base))
                (cast-MayExpression table t base p))

  module _ (o : FieldOrigins) (h : IsOneTable table o) where
    name_base-MayBase :
        (t : Text) (ts : List Text) → Returns (MayBase table) (name_base literal o t ts)
    unfolding name_base
    name_base-MayBase t ts = with_rest-MayBase table ts _ (
        Returns-if (MayExpression table) (is_ident t) _ _
          (column_expression-MayExpression table o h t) tt)

    base_of-MayBase :
        (inner : List Text → Attributed)
        → ((ts : List Text) → Returns (MayExpression table) (inner ts))
        → (ts : List Text) → Returns (MayBase table) (base_of literal o inner ts)
    unfolding base_of
    base_of-MayBase inner f [] = tt
    base_of-MayBase inner f (t ∷ []) = name_base-MayBase t []
    base_of-MayBase inner f (t ∷ b ∷ []) =
        Returns-if (MayBase table) (is_cast t && text_eq b (codes "(")) _ _
          (cast_base-MayBase inner f t []) (name_base-MayBase t (b ∷ []))
    base_of-MayBase inner f (t ∷ b ∷ c ∷ ts) =
        Returns-if (MayBase table) (is_cast t && text_eq b (codes "(")) _ _
          (cast_base-MayBase inner f t (c ∷ ts))
          (Returns-if (MayBase table) (text_eq t (codes "[") && text_eq c (codes "]")) _ _
            (Returns-bind Always (MayBase table) (string_of literal b) _
              (always (string_of literal b))
              (λ name u.
                with_rest-MayBase table ts (column_expression o name)
                  (column_expression-MayExpression table o h name)))
            (name_base-MayBase t (b ∷ c ∷ ts)))

    -- Where the origins are of one table, so is what an expression shows.
    pub expression-MayExpression :
        (fuel : ℕ) (ts : List Text) → Returns (MayExpression table) (expression literal o fuel ts)
    unfolding expression
    expression-MayExpression zero ts = tt
    expression-MayExpression (suc fuel) ts =
        Returns-bind Always (MayExpression table) (name_of literal ts) _
          (always (name_of literal ts)) (λ direct u. behind (expression-MayExpression fuel) direct)
      where
        behind :
            ((inside : List Text)
              → Returns (MayExpression table) (expression literal o fuel inside))
            → (direct : Option Text)
            → Returns {E = Unsupported} (MayExpression table) (elim direct [
              | some name ↦ column_expression o name
              | none ↦ base_of literal o (expression literal o fuel) ts >>= λ found. elim found [
                | none ↦ returned none
                | some (base, rest) ↦ extend_path literal base rest
              ]
            ])
        behind again (some name) = column_expression-MayExpression table o h name
        behind again none =
            Returns-found (λ (x : ExpressionOrigin × List Text). FieldExpression table x.0)
              (FieldExpression table) (base_of literal o (expression literal o fuel) ts) _
              (base_of-MayBase (expression literal o fuel) again ts)
              (λ found p. extend_path-MayExpression found.0 found.1 p)
