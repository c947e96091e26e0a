-- ===== src/SchemaGraph/Lineage/Split.antt =====
-- `_split` of lineage.py, and what the module raises.
pub mod Inverse
pub mod Total
use m365_xdr_cli.Base.{
  ℕ, Bool, true, false, ◌&&◌, ◌||◌, Option, none, some, List, [], ◌∷◌, Text, codes, text_eq, length,
  ltb, if◌then◌else◌,
}
use m365_xdr_cli.Base.Attempt.{Attempt, returned, raised, ◌>>=◌}

pub data Unsupported : Type 0 where
  -- UnsupportedLineage, by its reason
  query_limit literal_or_comment expression_limit unbalanced quoted_name empty_query statement
        let_binding table_source empty_operator projection rename project_away grouping operator :
      Unsupported
  -- GraphValidationError of FieldLocator
  invalid_locator : Unsupported
  -- The model's own: no fuel left.
  exhausted : Unsupported

-- `closes.get(token)`
abbrev closer : Text → Option Text
closer t =
    if text_eq t (codes "(")
    then some (codes ")")
    else if text_eq t (codes "[")
    then some (codes "]")
    else if text_eq t (codes "{")
    then some (codes "}")
    else none

-- `token in closes.values()`
abbrev is_closer : Text → Bool
is_closer t = text_eq t (codes ")") || (text_eq t (codes "]") || text_eq t (codes "}"))

-- A token that is not the separator, with the brackets to close: the innermost first.
unfoldable pub nest : List Text → Text → Attempt Unsupported (List Text)
nest stack t = elim (closer t) [
  | some close ↦
      if ltb 64 (length (close ∷ stack))
      then raised Unsupported.expression_limit
      else returned (close ∷ stack)
  | none ↦
      if is_closer t
      then (elim stack [
        | [] ↦ raised Unsupported.unbalanced
        | top ∷ below ↦ if text_eq top t then returned below else raised Unsupported.unbalanced
      ])
      else returned stack
]

abbrev is_closed : List Text → Bool
is_closed [] = true
is_closed (_ ∷ _) = false

-- One round of the loop: `none` where a chunk ends.
unfoldable pub advance : Text → List Text → Text → Attempt Unsupported (Option (List Text))
advance separator stack t =
    if text_eq t separator && is_closed stack
    then returned none
    else (nest stack t >>= λ inner. returned (some inner))

-- What is left of the current chunk, and the chunks behind it.
abbrev pub Chunks : Type 0
Chunks = List Text × List (List Text)

-- Behind the last token.
abbrev pub last_chunk : List Text → Attempt Unsupported Chunks
last_chunk stack = if is_closed stack then returned ([], []) else raised Unsupported.unbalanced

-- The loop.
unfoldable pub split_from : Text → List Text → List Text → Attempt Unsupported Chunks
split_from separator stack [] = last_chunk stack
split_from separator stack (t ∷ ts) = elim (advance separator stack t) [
  | raised e ↦ raised e
  | returned none ↦ split_from separator [] ts >>= λ (chunk, more). returned ([], chunk ∷ more)
  | returned (some inner) ↦
      split_from separator inner ts >>= λ (chunk, more). returned (t ∷ chunk, more)
]

-- `_split`
unfoldable pub split : Text → List Text → Attempt Unsupported (List (List Text))
split separator tokens = split_from separator [] tokens >>= λ (chunk, more). returned (chunk ∷ more)
