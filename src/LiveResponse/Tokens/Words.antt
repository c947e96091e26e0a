-- ===== src/LiveResponse/Tokens/Words.antt =====
-- The two inner scans of `tokenize` in live_response/parser.py: an unquoted word and a quoted value.
use m365_xdr_cli.Base.{
  ℕ, suc, ◌≡◌, refl, Bool, true, false, ◌&&◌, not, some, [], ◌∷◌, ◌++◌, Text, all, ◌==◌, arith,
}
use m365_xdr_cli.LiveResponse.Failure.{ok}
use m365_xdr_cli.LiveResponse.Tokens.{scan_word, split_quote, ends_word, is_compound}

-- A character that an unquoted word may hold.
unfoldable pub word_char : ℕ → Bool
word_char c = not (ends_word c) && (not (is_compound c) && not (c == b'<'))

abbrev pub free_of_quote : Text → Bool
free_of_quote = all (λ c. not (c == b'"'))

pub append-scan_word :
    (index : ℕ) (text word rest : Text)
    → scan_word index text ≡ ok (word, rest)
    → (word ++ rest ≡ text) × (all word_char word ≡ true)
unfolding scan_word word_char
append-scan_word index [] word rest h = ground arith
append-scan_word index (c ∷ cs) [] rest h = ground arith
append-scan_word index (c ∷ cs) (d ∷ word) rest h =
    ground (arith, append-scan_word (suc index) cs word rest)

-- A word that starts at a character which does not end words takes at least that character.
pub scan_word-cons :
    (index : ℕ) (c : ℕ) (cs word rest : Text)
    → ends_word c ≡ false
    → scan_word index (c ∷ cs) ≡ ok (word, rest)
    → (tail : Text) × (word ≡ c ∷ tail)
unfolding scan_word
scan_word-cons index c cs [] rest e h = ground arith
scan_word-cons index c cs (d ∷ word) rest e h = (word, ground arith)

-- The scan stops at the end of the line or at a character that ends words.
pub scan_word-stop :
    (index : ℕ) (text word : Text) (d : ℕ) (rest : Text)
    → scan_word index text ≡ ok (word, d ∷ rest)
    → ends_word d ≡ true
unfolding scan_word
scan_word-stop index [] word d rest h = ground arith
scan_word-stop index (c ∷ cs) [] d rest h = ground arith
scan_word-stop index (c ∷ cs) (b ∷ word) d rest h =
    ground (arith, scan_word-stop (suc index) cs word d rest)

-- Nothing, or a character that ends words, stands in front.
abbrev pub Stops : Text → Type 0
Stops [] = Unit
Stops (d ∷ rest) = ends_word d ≡ true

-- The whole word is read where it stops there.
pub scan_word_lem :
    (index : ℕ) (word rest : Text)
    → all word_char word ≡ true
    → Stops rest
    → scan_word index (word ++ rest) ≡ ok (word, rest)
unfolding scan_word word_char
scan_word_lem index [] [] w stop = refl
scan_word_lem index [] (d ∷ rest) w stop = ground arith
scan_word_lem index (c ∷ word) rest w stop =
    ground (arith, scan_word_lem (suc index) word rest (ground arith) stop)

pub append-split_quote :
    (text value rest : Text)
    → split_quote text ≡ some (value, rest)
    → (value ++ b'"' ∷ rest ≡ text) × (free_of_quote value ≡ true)
unfolding split_quote
append-split_quote [] value rest h = ground arith
append-split_quote (c ∷ cs) [] rest h = ground arith
append-split_quote (c ∷ cs) (d ∷ value) rest h = ground (arith, append-split_quote cs value rest)

pub split_quote_lem :
    (value rest : Text)
    → free_of_quote value ≡ true
    → split_quote (value ++ b'"' ∷ rest) ≡ some (value, rest)
unfolding split_quote
split_quote_lem [] rest h = refl
split_quote_lem (c ∷ value) rest h = ground (arith, split_quote_lem value rest)
