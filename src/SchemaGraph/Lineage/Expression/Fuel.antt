-- ===== src/SchemaGraph/Lineage/Expression/Fuel.antt =====
-- The parts of `_expression` of lineage.py, which do not recurse.
use m365_xdr_cli.Base.{
  ◌≡◌, Bool, true, false, ◌&&◌, Option, none, some, List, [], ◌∷◌, ◌++◌, Text, all, codes, text_eq,
  if◌then◌else◌,
}
use m365_xdr_cli.Base.Dict.{lookup}
use m365_xdr_cli.Base.Attempt.{Attempt, returned, raised, ◌>>=◌}
use m365_xdr_cli.SchemaGraph.Model.{FieldLocator}
use m365_xdr_cli.SchemaGraph.Lineage.Split.{Unsupported}
use m365_xdr_cli.SchemaGraph.Lineage.Origins.{
  ExpressionOrigin, FieldOrigins, is_ident, starts, field_locator, origin, plain_origin,
  column_expression, string_of, name_of, is_identifier, is_segment,
}
use m365_xdr_cli.SchemaGraph.Lineage.Expression.{
  Attributed, AccessPath, is_quoted, with_rest, then_path, accesses, locate, extend_path,
}

-- The model has not run out of fuel.
abbrev pub Ends : {A : Type 0} → Attempt Unsupported A → Type 0
Ends m = m ≡ raised Unsupported.exhausted → ⊥

pub ends : {A : Type 0} (a : A) → Ends (returned a)
ends a p = cc

pub Ends-bind :
    {A B : Type 0} (m : Attempt Unsupported A) (k : A → Attempt Unsupported B)
    → Ends m
    → ((a : A) → Ends (k a))
    → Ends (m >>= k)
Ends-bind (raised e) k h f = λ p. h (cc)
Ends-bind (returned a) k h f = f a

pub Ends-found :
    {A B : Type 0} (m : Attempt Unsupported (Option A)) (k : A → Attempt Unsupported (Option B))
    → Ends m
    → ((a : A) → Ends (k a))
    → Ends (m >>= λ found. elim found [ none ↦ returned none | some a ↦ k a ])
Ends-found (raised e) k h f = λ p. h (cc)
Ends-found (returned none) k h f = ends none
Ends-found (returned (some a)) k h f = f a

pub Ends-if :
    {A : Type 0} (b : Bool) (x y : Attempt Unsupported A)
    → Ends x
    → Ends y
    → Ends (if b then x else y)
Ends-if true x y h k = h
Ends-if false x y h k = k

field_locator-Ends :
    (table column : Text) (path : List Text) → Ends (field_locator table column path)
unfolding field_locator
field_locator-Ends table column path =
    Ends-if (is_identifier table && (is_identifier column && all is_segment path))
      (returned (record { table = table; column = column; json_path = path }))
      (raised Unsupported.invalid_locator) (ends _) (λ p. cc)

origin-Ends : (o : FieldOrigins) (column : Text) → Ends (origin o column)
unfolding origin
origin-Ends o column = go (lookup column o.columns)
  where
    go :
        (found : Option (Option FieldLocator))
        → Ends (elim found [
          | some value ↦ returned value
          | none ↦
              if o.passthrough && is_ident column
              then (field_locator o.table column [] >>= λ l. returned (some l))
              else returned none
        ])
    go (some value) = ends value
    go none =
        Ends-if (o.passthrough && is_ident column) _ _
          (Ends-bind (field_locator o.table column []) _ (field_locator-Ends o.table column [])
            (λ l. ends (some l)))
          (ends none)

pub column_expression-Ends : (o : FieldOrigins) (column : Text) → Ends (column_expression o column)
unfolding column_expression
column_expression-Ends o column = go (lookup column o.expressions) (origin-Ends o column)
  where
    go :
        (found : Option ExpressionOrigin)
        → Ends (origin o column)
        → Ends {A = Option ExpressionOrigin} (elim found [
          | some value ↦ returned (some value)
          | none ↦ origin o column >>= λ found. elim found [
            | none ↦ returned none
            | some l ↦ returned (some (plain_origin l))
          ]
        ])
    go (some value) h = ends (some value)
    go none h = Ends-found (origin o column) (λ l. returned (some (plain_origin l))) h (λ l. ends _)

pub with_rest-Ends : (rest : List Text) (m : Attributed) → Ends m → Ends (with_rest rest m)
with_rest-Ends rest (raised e) h = λ p. h (cc)
with_rest-Ends rest (returned none) h = ends none
with_rest-Ends rest (returned (some e)) h = ends (some (e, rest))

then_path-Ends : (s : Text) (m : AccessPath) → Ends m → Ends (then_path s m)
then_path-Ends s (raised e) h = λ p. h (cc)
then_path-Ends s (returned none) h = ends none
then_path-Ends s (returned (some path)) h = ends (some (s ∷ path))

locate-Ends : (e : ExpressionOrigin) (path : List Text) → Ends (locate e path)
locate-Ends e path =
    Ends-bind (field_locator e.locator.table e.locator.column (e.locator.json_path ++ path)) _
      (field_locator-Ends e.locator.table e.locator.column (e.locator.json_path ++ path))
      (λ l. ends (some (record e { locator = l })))

module _ (literal : Text → Option Text) where
  pub string_of-Ends : (token : Text) → Ends (string_of literal token)
  unfolding string_of
  string_of-Ends token =
      Ends-if (starts b'@' b'"' token) _ _ (ends _)
        (Ends-if (starts b'@' b'\'' token) _ _ (ends _) (go (literal token)))
    where
      go :
          (o : Option Text)
          → Ends (elim o [ none ↦ raised Unsupported.quoted_name | some value ↦ returned value ])
      go none = λ p. cc
      go (some value) = ends value

  pub name_of-Ends : (ts : List Text) → Ends (name_of literal ts)
  unfolding name_of
  name_of-Ends [] = ends none
  name_of-Ends (t ∷ []) = ends _
  name_of-Ends (a ∷ b ∷ []) = ends none
  name_of-Ends (a ∷ b ∷ c ∷ []) =
      Ends-if (text_eq a (codes "[") && text_eq c (codes "]")) _ _
        (Ends-bind (string_of literal b) _ (string_of-Ends b) (λ name. ends (some name)))
        (ends none)
  name_of-Ends (a ∷ b ∷ c ∷ d ∷ more) = ends none

  accesses-Ends : (ts : List Text) → Ends (accesses literal ts)
  unfolding accesses
  accesses-Ends [] = ends _
  accesses-Ends (a ∷ []) = ends none
  accesses-Ends (a ∷ b ∷ []) =
      Ends-if (text_eq a (codes ".") && is_ident b) _ _ (ends _) (ends none)
  accesses-Ends (a ∷ b ∷ c ∷ rest) =
      dotted (text_eq a (codes ".") && is_ident b)
        (text_eq a (codes "[") && (text_eq c (codes "]") && is_quoted b)) (accesses-Ends (c ∷ rest))
        (accesses-Ends rest)
    where
      dotted :
          (dot bracket : Bool)
          → Ends (accesses literal (c ∷ rest))
          → Ends (accesses literal rest)
          → Ends (elim dot [
            | true ↦ then_path b (accesses literal (c ∷ rest))
            | false ↦ elim bracket [
              | false ↦ returned none
              | true ↦ string_of literal b >>= λ s. then_path s (accesses literal rest)
            ]
          ])
      dotted true bracket h k = then_path-Ends b _ h
      dotted false false h k = ends none
      dotted false true h k =
          Ends-bind (string_of literal b) _ (string_of-Ends b) (λ s. then_path-Ends s _ k)

  pub extend_path-Ends :
      (base : ExpressionOrigin) (rest : List Text) → Ends (extend_path literal base rest)
  unfolding extend_path
  extend_path-Ends base [] = locate-Ends base []
  extend_path-Ends base (t ∷ ts) = Ends-if base.stringified _ _ (ends none) (
      Ends-found (accesses literal (t ∷ ts)) (locate base) (accesses-Ends (t ∷ ts))
        (λ path. locate-Ends base path))
