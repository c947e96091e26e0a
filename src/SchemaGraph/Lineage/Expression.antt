-- ===== src/SchemaGraph/Lineage/Expression.antt =====
-- `_expression` of lineage.py.
pub mod OneTable
pub mod Fuel
pub mod Total
use m365_xdr_cli.Base.{
  ℕ, zero, suc, ◌+◌, Bool, true, false, ◌&&◌, ◌||◌, not, Option, none, some, List, [], ◌∷◌, ◌++◌,
  Text, codes, text_eq, contains, ◌==◌, if◌then◌else◌,
}
use m365_xdr_cli.Base.Attempt.{Attempt, returned, raised, ◌>>=◌}
use m365_xdr_cli.SchemaGraph.Model.{FieldLocator}
use m365_xdr_cli.SchemaGraph.Lineage.Split.{Unsupported}
use m365_xdr_cli.SchemaGraph.Lineage.Origins.{
  ExpressionOrigin, FieldOrigins, is_ident, is_root, field_locator, column_expression, starts,
  string_of, name_of,
}

abbrev pub Attributed : Type 0
Attributed = Attempt Unsupported (Option ExpressionOrigin)

-- `tokens[0] in {"tostring", "parse_json", "todynamic"}`
abbrev is_cast : Text → Bool
is_cast t = contains t (codes "tostring" ∷ codes "parse_json" ∷ codes "todynamic" ∷ [])

-- Starts with a quote, or with `@` and a quote.
abbrev pub is_quoted : Text → Bool
is_quoted [] = false
is_quoted (c ∷ cs) =
    (c == b'"' || c == b'\'') || (starts b'@' b'"' (c ∷ cs) || starts b'@' b'\'' (c ∷ cs))

-- The number of parentheses that are open within the call, behind a token: `none` where the call ends.
unfoldable pub deeper : ℕ → Text → Option ℕ
deeper depth t =
    if text_eq t (codes "(")
    then some (suc depth)
    else if text_eq t (codes ")")
    then (elim depth [ zero ↦ none | suc less ↦ some less ])
    else some depth

abbrev pub put : Text → Option (List Text × List Text) → Option (List Text × List Text)
put t none = none
put t (some (inside, rest)) = some (t ∷ inside, rest)

-- The tokens up to the parenthesis that closes the call, and those behind it.
unfoldable pub enclosed : ℕ → List Text → Option (List Text × List Text)
enclosed depth [] = none
enclosed depth (t ∷ ts) = elim (deeper depth t) [
  | none ↦ some ([], ts)
  | some inner ↦ put t (enclosed inner ts)
]

-- `tostring`, or one of the two that decode.
unfoldable pub cast : Text → ExpressionOrigin → Option ExpressionOrigin
cast t e =
    if text_eq t (codes "tostring")
    then some (record e { stringified = true })
    else if e.stringified && (e.root_decoded || not (is_root e.locator))
    then none
    else some (record { locator = e.locator; root_decoded = true; stringified = false })

-- What the access behind the base starts with: the base and the tokens behind it.
abbrev pub Based : Type 0
Based = Attempt Unsupported (Option (ExpressionOrigin × List Text))

abbrev pub with_rest : List Text → Attributed → Based
with_rest rest (raised e) = raised e
with_rest rest (returned none) = returned none
with_rest rest (returned (some base)) = returned (some (base, rest))

abbrev pub AccessPath : Type 0
AccessPath = Attempt Unsupported (Option (List Text))

abbrev pub then_path : Text → AccessPath → AccessPath
then_path s (raised e) = raised e
then_path s (returned none) = returned none
then_path s (returned (some path)) = returned (some (s ∷ path))

-- What stands behind the base, as a locator.
abbrev pub locate : ExpressionOrigin → List Text → Attributed
locate e path =
    field_locator e.locator.table e.locator.column (e.locator.json_path ++ path) >>= λ l.
    returned (some (record e { locator = l }))

module _ (literal : Text → Option Text) where
  -- The loop over the accesses.
  unfoldable pub accesses : List Text → AccessPath
  accesses [] = returned (some [])
  accesses (a ∷ []) = returned none
  accesses (a ∷ b ∷ []) =
      if text_eq a (codes ".") && is_ident b then returned (some (b ∷ [])) else returned none
  accesses (a ∷ b ∷ c ∷ rest) = elim (text_eq a (codes ".") && is_ident b) [
    | true ↦ then_path b (accesses (c ∷ rest))
    | false ↦ elim (text_eq a (codes "[") && (text_eq c (codes "]") && is_quoted b)) [
      | false ↦ returned none
      | true ↦ string_of literal b >>= λ s. then_path s (accesses rest)
    ]
  ]

  -- The call of a cast; `inner` is `_expression` on its argument.
  unfoldable pub cast_base : (List Text → Attributed) → Text → List Text → Based
  cast_base inner t ts = elim (enclosed 0 ts) [
    | none ↦ returned none
    | some (inside, rest) ↦ inner inside >>= λ found. elim found [
      | none ↦ returned none
      | some base ↦ with_rest rest (returned (cast t base))
    ]
  ]

  unfoldable pub name_base : FieldOrigins → Text → List Text → Based
  name_base o t ts = with_rest ts (if is_ident t then column_expression o t else returned none)

  -- The three ways to start.
  unfoldable pub base_of : FieldOrigins → (List Text → Attributed) → List Text → Based
  base_of o inner [] = returned none
  base_of o inner (t ∷ []) = name_base o t []
  base_of o inner (t ∷ b ∷ []) =
      if is_cast t && text_eq b (codes "(") then cast_base inner t [] else name_base o t (b ∷ [])
  base_of o inner (t ∷ b ∷ c ∷ ts) =
      if is_cast t && text_eq b (codes "(")
      then cast_base inner t (c ∷ ts)
      else if text_eq t (codes "[") && text_eq c (codes "]")
      then (string_of literal b >>= λ name. with_rest ts (column_expression o name))
      else name_base o t (b ∷ c ∷ ts)

  -- Behind the base.
  unfoldable pub extend_path : ExpressionOrigin → List Text → Attributed
  extend_path base rest = elim rest [
    | [] ↦ locate base []
    | t ∷ ts ↦
        if base.stringified
        then returned none
        else accesses (t ∷ ts) >>= λ found. elim found [
          | none ↦ returned none
          | some path ↦ locate base path
        ]
  ]

  -- `_expression`
  unfoldable pub expression : FieldOrigins → ℕ → List Text → Attributed
  expression o zero tokens = raised Unsupported.exhausted
  expression o (suc fuel) tokens = name_of literal tokens >>= λ direct. elim direct [
    | some name ↦ column_expression o name
    | none ↦ base_of o (expression o fuel) tokens >>= λ found. elim found [
      | none ↦ returned none
      | some (base, rest) ↦ extend_path base rest
    ]
  ]
