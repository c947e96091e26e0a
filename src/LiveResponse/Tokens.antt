-- ===== src/LiveResponse/Tokens.antt =====
-- `tokenize` of src/xdr_cli/live_response/parser.py, over the code points of the console line.
pub mod Words
pub mod Cover
pub mod Fuel
pub mod Render
use m365_xdr_cli.Base.{
  ℕ, zero, suc, ◌+◌, Bool, true, false, ◌&&◌, ◌||◌, Option, none, some, List, [], ◌∷◌, Text, ltb,
  ◌==◌, any, has, length, is_space, if◌then◌else◌, not,
}
use m365_xdr_cli.LiveResponse.Failure.{
  Failure, Result, ok, err, ◌>>=◌, forbidden_char, control_char, compound, unbalanced_quote,
  quote_not_ended, quote_in_word, input_redirect, exhausted,
}

-- `_Token`
pub record Token : Type 0 where
  pub value : Text
  pub quoted : Bool
  pub position : ℕ
  pub operator : Bool

-- The tokens that the code builds: `_Token(…, True, index)`, `_Token(…, False, index)` and
-- `_Token(…, False, index, operator=True)`.
abbrev pub quoted_token : Text → ℕ → Token
quoted_token value index = record {
  value = value;
  quoted = true;
  position = index;
  operator = false;
}

abbrev pub word_token : Text → ℕ → Token
word_token value index = record {
  value = value;
  quoted = false;
  position = index;
  operator = false;
}

abbrev pub operator_token : ℕ → ℕ → Token
operator_token c index = record {
  value = c ∷ [];
  quoted = false;
  position = index;
  operator = true;
}

-- `_ALWAYS_FORBIDDEN`, in its order: newline, carriage return, NUL, backtick.
abbrev always_forbidden : List ℕ
always_forbidden = 0x0a ∷ 0x0d ∷ 0x00 ∷ 0x60 ∷ []

-- `_SEPARATORS`
abbrev separators : List ℕ
separators = 0x0b ∷ 0x0c ∷ 0x1c ∷ 0x1d ∷ 0x1e ∷ 0x85 ∷ 0x2028 ∷ 0x2029 ∷ []

-- `_OPERATORS`: the characters & and >
abbrev pub is_operator : ℕ → Bool
is_operator c = c == b'&' || c == b'>'

-- `_COMPOUND`: the characters ; and |
abbrev pub is_compound : ℕ → Bool
is_compound c = c == b';' || c == b'|'

-- The first forbidden character of the list that the line holds.
first_forbidden : List ℕ → Text → Option ℕ
first_forbidden [] text = none
first_forbidden (c ∷ rest) text = if has c text then some c else first_forbidden rest text

-- A control or separator character; the tab is allowed.
unfoldable pub is_control : ℕ → Bool
is_control c = has c separators || (ltb c 0x20 && not (c == 0x09))

-- The end of an unquoted word: whitespace, a quote or an operator.
abbrev pub ends_word : ℕ → Bool
ends_word c = is_space c || (c == b'"' || is_operator c)

-- The inner loop over an unquoted word: its characters, and what is left of the line.
unfoldable pub scan_word : ℕ → Text → Result (Text × Text)
scan_word index [] = ok ([], [])
scan_word index (c ∷ cs) =
    if ends_word c
    then ok ([], c ∷ cs)
    else if is_compound c
    then err (compound index)
    else if c == b'<'
    then err (input_redirect index)
    else do (word, rest) ← scan_word (suc index) cs; ok (c ∷ word, rest)

-- `text.find('"', …)`: what stands before the next quote and what stands behind it.
unfoldable pub split_quote : Text → Option (Text × Text)
split_quote [] = none
split_quote (c ∷ cs) =
    let behind : Option (Text × Text) = elim (split_quote cs) [
      | none ↦ none
      | some (value, rest) ↦ some (c ∷ value, rest)
    ] in
    if c == b'"' then some ([], cs) else behind

-- `index < length and not text[index].isspace() and text[index] not in _OPERATORS`
unfoldable pub glued : Text → Bool
glued [] = false
glued (c ∷ cs) = not (is_space c) && not (is_operator c)

-- `text.startswith(char, index)`
abbrev pub starts_with_char : ℕ → Text → Bool
starts_with_char c [] = false
starts_with_char c (d ∷ rest) = d == c

-- `index < length and text[index] == '"'`
abbrev pub at_quote : Text → Bool
at_quote text = starts_with_char b'"' text

-- The continuation of the outer loop: from a position, over the text that is left.
abbrev pub Loop : Type 0
Loop = ℕ → Text → Result (List Token)

-- A token in front of those that the loop goes on to find.
abbrev pub emit : Token → Result (List Token) → Result (List Token)
emit token more = do tokens ← more; ok (token ∷ tokens)

-- The branch for a double quote at `index`, with the text behind it.
unfoldable pub scan_quoted : Loop → ℕ → Text → Result (List Token)
scan_quoted loop index cs = elim (split_quote cs) [
  | none ↦ err (unbalanced_quote index)
  | some (value, rest) ↦
      let next = index + length value + 2 in
      if glued rest
      then err (quote_not_ended next)
      else emit (quoted_token value index) (loop next rest)
]

-- The branch for an operator.
unfoldable pub scan_operator : Loop → ℕ → ℕ → Text → Result (List Token)
scan_operator loop index c cs =
    if starts_with_char c cs
    then err (compound index)
    else emit (operator_token c index) (loop (suc index) cs)

-- The branch for an unquoted word that starts at `index`.
unfoldable pub scan_unquoted : Loop → ℕ → Text → Result (List Token)
scan_unquoted loop index text = do
  (value, rest) ← scan_word index text
  let next = index + length value
  if at_quote rest then err (quote_in_word next) else emit (word_token value index) (loop next rest)

-- The outer loop from `index`, where the rest of the line is `text`. Each round consumes a
-- character, so more fuel than the line is long never runs out.
unfoldable pub scan : ℕ → Loop
scan zero index text = err exhausted
scan (suc fuel) index [] = ok []
scan (suc fuel) index (c ∷ cs) =
    let skip = scan fuel (suc index) cs in
    if is_space c
    then skip
    else if c == b'"'
    then scan_quoted (scan fuel) index cs
    else if is_operator c
    then scan_operator (scan fuel) index c cs
    else scan_unquoted (scan fuel) index (c ∷ cs)

-- `tokenize`
unfoldable pub tokenize : Text → Result (List Token)
unfolding first_forbidden
tokenize text = elim (first_forbidden always_forbidden text) [
  | some c ↦ err (forbidden_char c)
  | none ↦ if any is_control text then err control_char else scan (suc (length text)) 0 text
]
