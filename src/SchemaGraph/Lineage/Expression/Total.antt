-- ===== src/SchemaGraph/Lineage/Expression/Total.antt =====
-- The recursion of `_expression` of lineage.py, and its fuel.
use m365_xdr_cli.Base.{
  ℕ, zero, suc, ◌<◌, ◌≢◌, ◌&&◌, Option, none, some, List, [], ◌∷◌, Text, codes, text_eq, length,
  arith,
}
use m365_xdr_cli.Base.Attempt.{returned, raised, ◌>>=◌}
use m365_xdr_cli.SchemaGraph.Lineage.Split.{Unsupported}
use m365_xdr_cli.SchemaGraph.Lineage.Origins.{
  ExpressionOrigin, FieldOrigins, is_ident, column_expression, string_of, name_of,
}
use m365_xdr_cli.SchemaGraph.Lineage.Expression.{
  Attributed, is_cast, cast, with_rest, deeper, put, enclosed, cast_base, name_base, base_of,
  extend_path, expression,
}
use m365_xdr_cli.Base.Outcomes.{Given}
use m365_xdr_cli.SchemaGraph.Lineage.Recover.{value_of}
use m365_xdr_cli.SchemaGraph.Lineage.Expression.Fuel.{
  Ends, ends, Ends-bind, Ends-found, Ends-if, column_expression-Ends, with_rest-Ends,
  string_of-Ends, name_of-Ends, extend_path-Ends,
}

abbrev IsShorter : ℕ → Option (List Text × List Text) → Type 0
IsShorter n = Given (λ (parts : List Text × List Text). length parts.0 < n)

put-IsShorter :
    (t : Text) (n : ℕ) (o : Option (List Text × List Text))
    → IsShorter n o
    → IsShorter (suc n) (put t o)
put-IsShorter t n none h = tt
put-IsShorter t n (some (inside, rest)) h = omega (arith, h)

-- The argument of a call is shorter than what stands behind its parenthesis.
enclosed-IsShorter : (depth : ℕ) (ts : List Text) → IsShorter (length ts) (enclosed depth ts)
unfolding enclosed
enclosed-IsShorter depth [] = tt
enclosed-IsShorter depth (t ∷ ts) = go (λ inner. enclosed-IsShorter inner ts) (deeper depth t)
  where
    go :
        ((inner : ℕ) → IsShorter (length ts) (enclosed inner ts))
        → (o : Option ℕ)
        → IsShorter
            (suc (length ts))
            (elim o [ none ↦ some ([], ts) | some inner ↦ put t (enclosed inner ts) ])
    go again none = omega arith
    go again (some inner) = put-IsShorter t (length ts) (enclosed inner ts) (again inner)

module _ (literal : Text → Option Text) where
  cast_base-Ends :
      (inner : List Text → Attributed) (t : Text) (ts : List Text)
      → ((shorter : List Text) → length shorter < length ts → Ends (inner shorter))
      → Ends (cast_base literal inner t ts)
  unfolding cast_base
  cast_base-Ends inner t ts h = go (enclosed 0 ts) (enclosed-IsShorter 0 ts)
    where
      go :
          (o : Option (List Text × List Text))
          → IsShorter (length ts) o
          → Ends {A = Option (ExpressionOrigin × List Text)} (elim o [
            | none ↦ returned none
            | some (inside, rest) ↦ inner inside >>= λ found. elim found [
              | none ↦ returned none
              | some base ↦ with_rest rest (returned (cast t base))
            ]
          ])
      go none q = ends none
      go (some (inside, rest)) q =
          Ends-found (inner inside) (λ base. with_rest rest (returned (cast t base))) (h inside q)
            (λ base. with_rest-Ends rest (returned (cast t base)) (ends (cast t base)))

  name_base-Ends : (o : FieldOrigins) (t : Text) (ts : List Text) → Ends (name_base literal o t ts)
  unfolding name_base
  name_base-Ends o t ts =
      with_rest-Ends ts _ (Ends-if (is_ident t) _ _ (column_expression-Ends o t) (ends none))

  base_of-Ends :
      (o : FieldOrigins) (inner : List Text → Attributed) (ts : List Text)
      → ((shorter : List Text) → length shorter < length ts → Ends (inner shorter))
      → Ends (base_of literal o inner ts)
  unfolding base_of
  base_of-Ends o inner [] h = ends none
  base_of-Ends o inner (t ∷ []) h = name_base-Ends o t []
  base_of-Ends o inner (t ∷ b ∷ []) h =
      Ends-if (is_cast t && text_eq b (codes "(")) _ _
        (cast_base-Ends inner t [] (λ shorter l. h shorter (omega (arith, l))))
        (name_base-Ends o t (b ∷ []))
  base_of-Ends o inner (t ∷ b ∷ c ∷ ts) h =
      Ends-if (is_cast t && text_eq b (codes "(")) _ _
        (cast_base-Ends inner t (c ∷ ts) (λ shorter l. h shorter (omega (arith, l))))
        (Ends-if (text_eq t (codes "[") && text_eq c (codes "]")) _ _
          (Ends-bind (string_of literal b) _ (string_of-Ends literal b)
            (λ name. with_rest-Ends ts (column_expression o name) (column_expression-Ends o name)))
          (name_base-Ends o t (b ∷ c ∷ ts)))

  expression-Ends :
      (o : FieldOrigins) (fuel : ℕ) (ts : List Text)
      → length ts < fuel
      → Ends (expression literal o fuel ts)
  unfolding expression
  expression-Ends o zero ts h = absurd (omega (arith, h))
  expression-Ends o (suc fuel) ts h =
      Ends-bind (name_of literal ts) _ (name_of-Ends literal ts)
        (behind (λ shorter l. expression-Ends o fuel shorter (omega (arith, h, l))))
    where
      behind :
          ((shorter : List Text)
            → length shorter < length ts
            → Ends (expression literal o fuel shorter))
          → (direct : Option Text)
          → Ends {A = Option ExpressionOrigin} (elim direct [
            | some name ↦ column_expression o name
            | none ↦ base_of literal o (expression literal o fuel) ts >>= λ found. elim found [
              | none ↦ returned none
              | some (base, rest) ↦ extend_path literal base rest
            ]
          ])
      behind again (some name) = column_expression-Ends o name
      behind again none =
          Ends-found (base_of literal o (expression literal o fuel) ts)
            (λ (x : ExpressionOrigin × List Text). extend_path literal x.0 x.1)
            (base_of-Ends o (expression literal o fuel) ts again)
            (λ found. extend_path-Ends literal found.0 found.1)

  -- Every expression is attributed, left without an origin, or refused by one of the code's own errors: the
  -- recursion ends within the fuel that it is given, one more than the tokens are many.
  pub value_of-ne-exhausted :
      (o : FieldOrigins) (tokens : List Text)
      → value_of literal o tokens ≢ raised Unsupported.exhausted
  unfolding value_of
  value_of-ne-exhausted o tokens = expression-Ends o (suc (length tokens)) tokens (omega arith)
