-- ===== src/SchemaGraph/Lineage/Origins.antt =====
-- The origins of lineage.py: `_string`, `_name`, `_ExpressionOrigin` and `FieldOrigins`.
pub mod OneTable
use m365_xdr_cli.Base.{
  ℕ, Bool, true, false, ◌&&◌, ◌||◌, not, Option, none, some, List, [], ◌∷◌, ◌++◌, Text, codes,
  text_eq, all, leb, ◌==◌, if◌then◌else◌,
}
use m365_xdr_cli.Base.Decimal.{is_digit}
use m365_xdr_cli.Base.Dict.{Dict, lookup}
use m365_xdr_cli.Base.Attempt.{Attempt, returned, raised, ◌>>=◌}
use m365_xdr_cli.SchemaGraph.Model.{FieldLocator}
use m365_xdr_cli.SchemaGraph.Lineage.Split.{Unsupported}

abbrev pub is_alpha : ℕ → Bool
is_alpha c = (leb b'A' c && leb c b'Z') || (leb b'a' c && leb c b'z')

abbrev pub is_word_char : ℕ → Bool
is_word_char c = is_alpha c || (is_digit c || c == b'_')

-- `_IDENT` of lineage.py
unfoldable pub is_ident : Text → Bool
is_ident [] = false
is_ident (c ∷ cs) = (is_alpha c || c == b'_') && all is_word_char cs

-- `_IDENTIFIER` of model.py
unfoldable pub is_identifier : Text → Bool
is_identifier [] = false
is_identifier (c ∷ cs) = is_alpha c && all is_word_char cs

-- A segment of a path is not empty and has no control character.
unfoldable pub is_segment : Text → Bool
is_segment [] = false
is_segment (c ∷ cs) = all (λ x. leb 32 x) (c ∷ cs)

-- `FieldLocator(table, column, json_path)`, with `__post_init__`
unfoldable pub field_locator : Text → Text → List Text → Attempt Unsupported FieldLocator
field_locator table column json_path =
    if is_identifier table && (is_identifier column && all is_segment json_path)
    then returned (record { table = table; column = column; json_path = json_path })
    else raised Unsupported.invalid_locator

-- `_ExpressionOrigin`
pub record ExpressionOrigin : Type 0 where
  pub locator : FieldLocator
  pub root_decoded : Bool
  pub stringified : Bool

abbrev pub is_root : FieldLocator → Bool
is_root l = elim l.json_path [ [] ↦ true | s ∷ more ↦ false ]

-- `_ExpressionOrigin.reproducible`
abbrev pub reproducible : ExpressionOrigin → Option FieldLocator
reproducible e = if e.root_decoded && is_root e.locator then none else some e.locator

-- `FieldOrigins`
pub record FieldOrigins : Type 0 where
  pub table : Text
  pub columns : Dict (Option FieldLocator)
  pub passthrough : Bool
  pub expressions : Dict ExpressionOrigin

-- `FieldOrigins.origin`
unfoldable pub origin : FieldOrigins → Text → Attempt Unsupported (Option FieldLocator)
origin o column = elim (lookup column o.columns) [
  | some found ↦ returned found
  | none ↦
      if o.passthrough && is_ident column
      then (field_locator o.table column [] >>= λ l. returned (some l))
      else returned none
]

abbrev pub plain_origin : FieldLocator → ExpressionOrigin
plain_origin l = record { locator = l; root_decoded = false; stringified = false }

-- `FieldOrigins.expression`
unfoldable pub column_expression :
    FieldOrigins → Text → Attempt Unsupported (Option ExpressionOrigin)
column_expression o column = elim (lookup column o.expressions) [
  | some found ↦ returned (some found)
  | none ↦ origin o column >>= λ found. elim found [
    | none ↦ returned none
    | some l ↦ returned (some (plain_origin l))
  ]
]

-- `token[2:-1]`
abbrev but_last : Text → Text
but_last [] = []
but_last (c ∷ []) = []
but_last (c ∷ d ∷ cs) = c ∷ but_last (d ∷ cs)

abbrev verbatim : Text → Text
verbatim (x ∷ y ∷ cs) = but_last cs
verbatim _ = []

-- `.replace(q + q, q)`
unfoldable pub single_quotes : ℕ → Text → Text
single_quotes q [] = []
single_quotes q (c ∷ []) = c ∷ []
single_quotes q (c ∷ d ∷ cs) =
    let paired = single_quotes q cs in
    let next = single_quotes q (d ∷ cs) in if c == q && d == q then c ∷ paired else c ∷ next

abbrev pub starts : ℕ → ℕ → Text → Bool
starts x y (c ∷ d ∷ cs) = c == x && d == y
starts x y _ = false

-- `ast.literal_eval` on a token, where it makes a text.
module _ (literal : Text → Option Text) where
  -- `_string`
  unfoldable pub string_of : Text → Attempt Unsupported Text
  string_of token =
      if starts b'@' b'"' token
      then returned (single_quotes b'"' (verbatim token))
      else if starts b'@' b'\'' token
      then returned (single_quotes b'\'' (verbatim token))
      else elim (literal token) [
        | none ↦ raised Unsupported.quoted_name
        | some value ↦ returned value
      ]

  -- `_name`
  unfoldable pub name_of : List Text → Attempt Unsupported (Option Text)
  name_of (t ∷ []) = returned (if is_ident t then some t else none)
  name_of (a ∷ b ∷ c ∷ []) =
      if text_eq a (codes "[") && text_eq c (codes "]")
      then (string_of b >>= λ name. returned (some name))
      else returned none
  name_of _ = returned none
