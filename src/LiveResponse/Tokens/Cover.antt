-- ===== src/LiveResponse/Tokens/Cover.antt =====
-- `tokenize` of live_response/parser.py against a description of how tokens stand in a line.
use m365_xdr_cli.Base.{
  ℕ, zero, suc, ◌+◌, ◌≡◌, refl, sym, Bool, true, false, ◌&&◌, not, Option, none, some, List, [],
  ◌∷◌, ◌++◌, Text, all, length, length-append, is_space, ◌==◌, arith, if◌then◌else◌, Bool-cases,
  ==→eq, inl, inr,
}
use mathlib.Core.Path.{subst}
use mathlib.Core.List.{append_assoc}
use m365_xdr_cli.LiveResponse.Failure.{Result, ok, err}
use m365_xdr_cli.LiveResponse.Tokens.{
  Token, Loop, quoted_token, word_token, operator_token, scan, scan_quoted, scan_operator,
  scan_unquoted, scan_word, split_quote, ends_word, is_operator, tokenize,
}
use m365_xdr_cli.LiveResponse.Tokens.Words.{
  word_char, free_of_quote, append-scan_word, scan_word-cons, append-split_quote,
}

-- The characters of the line that a token stands for.
unfoldable pub spelling : Token → Text
spelling t = if t.quoted then b'"' ∷ (t.value ++ b'"' ∷ []) else t.value

-- A quoted value holds no quote, an operator is one of the two, and a word is not empty and has
-- only characters that are free outside quotes.
unfoldable pub well_formed : Token → Bool
well_formed t =
    if t.quoted
    then free_of_quote t.value && not t.operator
    else if t.operator
    then all is_operator t.value && length t.value == 1
    else all word_char t.value && not (length t.value == 0)

-- `Covers index text tokens`: from `index` on, `text` is the spellings of the tokens in order, each at
-- its position, with whitespace around them.
pub data Covers : ℕ → Text → List Token → Type 0 where
  done : (index : ℕ) → Covers index [] []
  blank :
      {index c : ℕ} {text : Text} {tokens : List Token}
      → is_space c ≡ true
      → Covers (suc index) text tokens
      → Covers index (c ∷ text) tokens
  token :
      {index next : ℕ} {text rest : Text} {tokens : List Token} (t : Token)
      → t.position ≡ index
      → well_formed t ≡ true
      → text ≡ spelling t ++ rest
      → next ≡ index + length (spelling t)
      → Covers next rest tokens
      → Covers index text (t ∷ tokens)

-- What the continuation of the loop is known to do.
abbrev Sound : Loop → Type 0
Sound loop =
    (index : ℕ) (text : Text) (tokens : List Token)
    → loop index text ≡ ok tokens
    → Covers index text tokens

-- What each branch of the loop has found where it succeeds.
module _ (loop : Loop) (index : ℕ) where
  quoted_more :
      (cs value rest : Text) (r : Result (List Token)) {tokens : List Token}
      → split_quote cs ≡ some (value, rest)
      → loop (index + length value + 2) rest ≡ r
      → scan_quoted loop index cs ≡ ok tokens
      → (more : List Token) × (r ≡ ok more) × (tokens ≡ quoted_token value index ∷ more)
  unfolding scan_quoted
  quoted_more cs value rest (ok more) s l h = (more, refl, ground arith)
  quoted_more cs value rest (err e) s l h = absurd (ground arith)

  quoted_found :
      (cs : Text) (o : Option (Text × Text)) {tokens : List Token}
      → split_quote cs ≡ o
      → scan_quoted loop index cs ≡ ok tokens
      → (value rest : Text) × (o ≡ some (value, rest))
  unfolding scan_quoted
  quoted_found cs none s h = absurd (ground arith)
  quoted_found cs (some (value, rest)) s h = (value, rest, refl)

  operator_more :
      (c : ℕ) (cs : Text) {tokens : List Token}
      → scan_operator loop index c cs ≡ ok tokens
      → (more : List Token) × (loop (suc index) cs ≡ ok more)
        × (tokens ≡ operator_token c index ∷ more)
  unfolding scan_operator
  operator_more c cs h = ground arith

  word_found :
      (text : Text) (r : Result (Text × Text)) {tokens : List Token}
      → scan_word index text ≡ r
      → scan_unquoted loop index text ≡ ok tokens
      → (word rest : Text) × (r ≡ ok (word, rest))
  unfolding scan_unquoted
  word_found text (ok (word, rest)) s h = (word, rest, refl)
  word_found text (err e) s h = absurd (ground arith)

  word_more :
      (text word rest : Text) (r : Result (List Token)) {tokens : List Token}
      → scan_word index text ≡ ok (word, rest)
      → loop (index + length word) rest ≡ r
      → scan_unquoted loop index text ≡ ok tokens
      → (more : List Token) × (r ≡ ok more) × (tokens ≡ word_token word index ∷ more)
  unfolding scan_unquoted
  word_more text word rest (ok more) s l h = (more, refl, ground arith)
  word_more text word rest (err e) s l h = absurd (ground arith)

module _ (loop : Loop) (sound : Sound loop) (index : ℕ) where
  scan_quoted-Covers :
      (cs : Text) (tokens : List Token)
      → scan_quoted loop index cs ≡ ok tokens
      → Covers index (b'"' ∷ cs) tokens
  unfolding well_formed spelling
  scan_quoted-Covers cs tokens h =
      let (value, rest, s) = quoted_found loop index cs _ refl h in
      let (more, l, e) = quoted_more loop index cs value rest _ s refl h in
      let (t, free) = append-split_quote cs value rest s in
      rw e (
        Covers.token (quoted_token value index) refl (ground arith)
          (cc (t, append_assoc value (b'"' ∷ []) rest))
          (omega (arith, length-append {0} value (b'"' ∷ [])))
          (sound (index + length value + 2) rest more l))

  scan_operator-Covers :
      (c : ℕ) (cs : Text) (tokens : List Token)
      → is_operator c ≡ true
      → scan_operator loop index c cs ≡ ok tokens
      → Covers index (c ∷ cs) tokens
  unfolding well_formed spelling
  scan_operator-Covers c cs tokens o h =
      let (more, l, e) = operator_more loop index c cs h in
      rw e (
        Covers.token (operator_token c index) refl (ground arith) refl (omega arith)
          (sound (suc index) cs more l))

  scan_unquoted-Covers :
      (c : ℕ) (cs : Text) (tokens : List Token)
      → ends_word c ≡ false
      → scan_unquoted loop index (c ∷ cs) ≡ ok tokens
      → Covers index (c ∷ cs) tokens
  unfolding well_formed spelling
  scan_unquoted-Covers c cs tokens n h =
      let (word, rest, s) = word_found loop index (c ∷ cs) _ refl h in
      let (more, l, e) = word_more loop index (c ∷ cs) word rest _ s refl h in
      let (t, w) = append-scan_word index (c ∷ cs) word rest s in
      let (tail, g) = scan_word-cons index c cs word rest n s in
      rw e (
        Covers.token (word_token word index) refl (ground arith) (sym t) refl
          (sound (index + length word) rest more l))

scan-Covers : (fuel : ℕ) → Sound (scan fuel)
unfolding scan
scan-Covers zero index text tokens h = absurd (cc)
scan-Covers (suc fuel) index [] tokens h = subst (Covers index []) (cc) (Covers.done index)
scan-Covers (suc fuel) index (c ∷ cs) tokens h = elim (Bool-cases (is_space c)) [
  | inl s ↦ Covers.blank s (scan-Covers fuel (suc index) cs tokens (ground arith))
  | inr s ↦ elim (Bool-cases (c == b'"')) [
    | inl q ↦
        rw (==→eq c b'"' q)
          (scan_quoted-Covers (scan fuel) (scan-Covers fuel) index cs tokens (ground arith))
    | inr q ↦ elim (Bool-cases (is_operator c)) [
      | inl o ↦
          scan_operator-Covers (scan fuel) (scan-Covers fuel) index c cs tokens o (ground arith)
      | inr o ↦
          scan_unquoted-Covers (scan fuel) (scan-Covers fuel) index c cs tokens (ground arith)
            (ground arith)
    ]
  ]
]

-- A line that is accepted is covered by its tokens: they stand in it at their positions and in
-- order, each well formed, and all that stands between them is whitespace.
pub tokenize-Covers :
    (text : Text) (tokens : List Token) → tokenize text ≡ ok tokens → Covers 0 text tokens
unfolding tokenize
tokenize-Covers text tokens h = scan-Covers (suc (length text)) 0 text tokens (ground arith)
