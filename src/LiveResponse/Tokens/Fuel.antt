-- ===== src/LiveResponse/Tokens/Fuel.antt =====
-- The fuel of the loop of `tokenize` in live_response/parser.py.
use m365_xdr_cli.Base.{
  ℕ, zero, suc, ◌+◌, ◌<◌, ◌≡◌, ◌≢◌, refl, false, Option, none, some, [], ◌∷◌, Text, length,
  length-append, arith, ap,
}
use m365_xdr_cli.LiveResponse.Failure.{Result, ok, err, exhausted}
use m365_xdr_cli.LiveResponse.Tokens.{
  Loop, scan, scan_quoted, scan_operator, scan_unquoted, scan_word, split_quote, ends_word,
  tokenize,
}
use m365_xdr_cli.LiveResponse.Tokens.Words.{append-scan_word, scan_word-cons, append-split_quote}

-- The loop does not run out at any text shorter than `n`.
abbrev Total : ℕ → Loop → Type 0
Total n loop = (index : ℕ) (text : Text) → length text < n → loop index text ≢ err exhausted

scan_word-ne-exhausted : (index : ℕ) (text : Text) → scan_word index text ≢ err exhausted
unfolding scan_word
scan_word-ne-exhausted index [] = ground arith
scan_word-ne-exhausted index (c ∷ cs) = ground (arith, scan_word-ne-exhausted (suc index) cs)

module _ (loop : Loop) (n : ℕ) (total : Total n loop) (index : ℕ) where
  scan_quoted-ne-exhausted :
      (cs : Text) → length cs < suc n → scan_quoted loop index cs ≢ err exhausted
  unfolding scan_quoted
  scan_quoted-ne-exhausted cs h = go (split_quote cs) refl
    where
      go :
          (o : Option (Text × Text))
          → split_quote cs ≡ o
          → scan_quoted loop index cs ≢ err exhausted
      go none e = ground arith
      go (some (value, rest)) e = ground (
        arith,
        total (index + length value + 2) rest (
            omega (
              arith,
              ap length (append-split_quote cs value rest e).0,
              length-append {0} value (b'"' ∷ rest),
            )),
      )

  scan_operator-ne-exhausted :
      (c : ℕ) (cs : Text) → length cs < n → scan_operator loop index c cs ≢ err exhausted
  unfolding scan_operator
  scan_operator-ne-exhausted c cs h = ground (arith, total (suc index) cs h)

  scan_unquoted-ne-exhausted :
      (c : ℕ) (cs : Text)
      → ends_word c ≡ false
      → length cs < n
      → scan_unquoted loop index (c ∷ cs) ≢ err exhausted
  unfolding scan_unquoted
  scan_unquoted-ne-exhausted c cs stop h = go (scan_word index (c ∷ cs)) refl
    where
      go :
          (r : Result (Text × Text))
          → scan_word index (c ∷ cs) ≡ r
          → scan_unquoted loop index (c ∷ cs) ≢ err exhausted
      go (err e) s = ground (arith, scan_word-ne-exhausted index (c ∷ cs))
      go (ok (word, rest)) s = ground (
        arith,
        total (index + length word) rest (
            omega (
              arith,
              ap length (append-scan_word index (c ∷ cs) word rest s).0,
              ap length (scan_word-cons index c cs word rest stop s).1,
              length-append {0} word rest,
            )),
      )

scan-Total : (fuel : ℕ) → Total fuel (scan fuel)
unfolding scan
scan-Total zero index text h = absurd (omega arith)
scan-Total (suc fuel) index [] h = ground arith
scan-Total (suc fuel) index (c ∷ cs) h = ground (
  arith,
  scan-Total fuel (suc index) cs (omega arith),
  scan_quoted-ne-exhausted (scan fuel) fuel (scan-Total fuel) index cs (omega arith),
  scan_operator-ne-exhausted (scan fuel) fuel (scan-Total fuel) index c cs (omega arith),
  scan_unquoted-ne-exhausted (scan fuel) fuel (scan-Total fuel) index c cs,
)

-- Every line is tokenized or refused by one of the code's own errors: the loop ends.
pub tokenize-ne-exhausted : (text : Text) → tokenize text ≢ err exhausted
unfolding tokenize
tokenize-ne-exhausted text = ground (arith, scan-Total (suc (length text)) 0 text (omega arith))
