-- ===== src/SchemaGraph/Lineage/Lexer.antt =====
-- `_tokens` of lineage.py.
pub mod Cover
pub mod Total
use m365_xdr_cli.Base.{
  ℕ, zero, suc, ◌+◌, Bool, true, false, ◌&&◌, ◌||◌, not, Option, none, some, List, [], ◌∷◌, ◌++◌,
  Text, length, is_space, ltb, ◌==◌, if◌then◌else◌,
}
use m365_xdr_cli.Base.Attempt.{Attempt, returned, raised, ◌>>=◌}
use m365_xdr_cli.SchemaGraph.Lineage.Split.{Unsupported}
use m365_xdr_cli.SchemaGraph.Lineage.Origins.{is_alpha, is_word_char}

-- A text in two: what is matched, and what is behind it.
abbrev pub Cut : Type 0
Cut = Text × Text

abbrev pub push : ℕ → Cut → Cut
push c (matched, rest) = (c ∷ matched, rest)

abbrev pub push_maybe : ℕ → Option Cut → Option Cut
push_maybe c none = none
push_maybe c (some cut) = some (push c cut)

-- The longest run of characters that pass the test.
unfoldable pub span : (ℕ → Bool) → Text → Cut
span test [] = ([], [])
span test (c ∷ cs) = let more = span test cs in if test c then push c more else ([], c ∷ cs)

-- Up to the end of a block comment.
unfoldable pub block_end : Text → Option Cut
block_end [] = none
block_end (c ∷ []) = none
block_end (c ∷ d ∷ cs) =
    let later = block_end (d ∷ cs) in
    if c == b'*' && d == b'/' then some (c ∷ d ∷ [], cs) else push_maybe c later

-- Up to the closing quote, with escapes; a dot matches no line feed.
unfoldable pub quoted : ℕ → Text → Option Cut
quoted q [] = none
quoted q (c ∷ []) = if c == q then some (c ∷ [], []) else none
quoted q (c ∷ d ∷ cs) = elim (c == q) [
  | true ↦ some (c ∷ [], d ∷ cs)
  | false ↦ elim (c == b'\\') [
    | true ↦ if d == 10 then none else push_maybe c (push_maybe d (quoted q cs))
    | false ↦ push_maybe c (quoted q (d ∷ cs))
  ]
]

-- Up to the closing quote, where two quotes stand for one.
unfoldable pub verbatim_quoted : ℕ → Text → Option Cut
verbatim_quoted q [] = none
verbatim_quoted q (c ∷ []) = if c == q then some (c ∷ [], []) else none
verbatim_quoted q (c ∷ d ∷ cs) = elim (c == q) [
  | true ↦ elim (d == q) [
    | true ↦ push_maybe c (push_maybe d (verbatim_quoted q cs))
    | false ↦ some (c ∷ [], d ∷ cs)
  ]
  | false ↦ push_maybe c (verbatim_quoted q (d ∷ cs))
]

-- A match: a token, or whitespace or a comment, which is dropped.
pub record Piece : Type 0 where
  pub kept : Bool
  pub cut : Cut

abbrev pub piece : Bool → Cut → Attempt Unsupported Piece
piece kept cut = returned (record { kept = kept; cut = cut })

-- A literal or a comment that must have its end.
abbrev pub closed_piece : Bool → Option Cut → Attempt Unsupported Piece
closed_piece kept none = raised Unsupported.literal_or_comment
closed_piece kept (some cut) = piece kept cut

-- `[A-Za-z_0-9-]`
abbrev pub is_name_char : ℕ → Bool
is_name_char c = is_word_char c || c == b'-'

-- `\d`
module _ (is_decimal : ℕ → Bool) where
  -- The digits behind a point.
  unfoldable pub fraction : Text → Cut
  fraction [] = ([], [])
  fraction (p ∷ []) = ([], p ∷ [])
  fraction (p ∷ d ∷ cs) =
      if p == b'.' && is_decimal d then push p (span is_decimal (d ∷ cs)) else ([], p ∷ d ∷ cs)

  unfoldable pub numeral : ℕ → Text → Cut
  numeral c cs =
      let (digits, rest) = span is_decimal cs in
      let (more, last) = fraction rest in (c ∷ (digits ++ more), last)

  -- One match that does not start with a slash or an `@`.
  unfoldable pub plain_piece : ℕ → Text → Attempt Unsupported Piece
  plain_piece c cs =
      if is_space c
      then piece false (push c (span is_space cs))
      else if c == b'"' || c == b'\''
      then closed_piece true (push_maybe c (quoted c cs))
      else if c == b'@' || c == b'`'
      then raised Unsupported.literal_or_comment
      else if is_alpha c || c == b'_'
      then piece true (push c (span is_name_char cs))
      else if is_decimal c
      then piece true (numeral c cs)
      else piece true (c ∷ [], cs)

  -- One match.
  unfoldable pub next_piece : ℕ → Text → Attempt Unsupported Piece
  next_piece c [] = plain_piece c []
  next_piece c (d ∷ cs) =
      if c == b'/' && d == b'/'
      then piece false (push c (push d (span (λ x. not (x == 10)) cs)))
      else if c == b'/' && d == b'*'
      then closed_piece false (push_maybe c (push_maybe d (block_end cs)))
      else if c == b'@' && (d == b'"' || d == b'\'')
      then closed_piece true (push_maybe c (push_maybe d (verbatim_quoted d cs)))
      else plain_piece c (d ∷ cs)

  abbrev pub add_token : Piece → List Text → List Text
  add_token p tokens = if p.kept then p.cut.0 ∷ tokens else tokens

  -- The loop.
  unfoldable pub lex : ℕ → Text → Attempt Unsupported (List Text)
  lex fuel [] = returned []
  lex zero (c ∷ cs) = raised Unsupported.exhausted
  lex (suc fuel) (c ∷ cs) =
      next_piece c cs >>= λ p. lex fuel p.cut.1 >>= λ tokens. returned (add_token p tokens)

  -- `_tokens`
  unfoldable pub tokens_of : Text → Attempt Unsupported (List Text)
  tokens_of query =
      if ltb 262_144 (length query)
      then raised Unsupported.query_limit
      else lex (length query) query
