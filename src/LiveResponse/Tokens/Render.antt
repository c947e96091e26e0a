-- ===== src/LiveResponse/Tokens/Render.antt =====
-- `tokenize` of live_response/parser.py on lines that are written from values.
use m365_xdr_cli.Base.{
  ℕ, zero, suc, ◌+◌, ◌<◌, ◌≡◌, refl, sym, Bool, true, false, ◌&&◌, not, none, List, [], ◌∷◌, ◌++◌,
  Text, all, any, All, all-append, &&-left, &&-right, length, length-append, is_space, ◌==◌, arith,
  Bool-cases, ==→eq, inl, inr, ap, join, map, has, ◌∙◌,
}
use mathlib.Core.List.{append_assoc, append-nil}
use m365_xdr_cli.LiveResponse.Failure.{ok}
use m365_xdr_cli.LiveResponse.Tokens.{
  Token, quoted_token, word_token, Loop, emit, scan, scan_quoted, scan_unquoted, tokenize,
  first_forbidden, is_control, at_quote, glued, always_forbidden,
}
use m365_xdr_cli.LiveResponse.Tokens.Words.{
  word_char, free_of_quote, scan_word_lem, split_quote_lem, Stops,
}

-- One value of a line as it is written: in double quotes, or as a bare word.
pub data Piece : Type 0 where
  quoted : Text → Piece
  word : Text → Piece

abbrev pub write : Piece → Text
write (quoted v) = b'"' ∷ (v ++ b'"' ∷ [])
write (word v) = v

abbrev pub space : Text
space = 0x20 ∷ []

abbrev pub piece_token : Piece → ℕ → Token
piece_token (quoted v) index = quoted_token v index
piece_token (word v) index = word_token v index

-- The tokens of the pieces from `index` on, with one space between them.
abbrev pub layout : ℕ → List Piece → List Token
layout index [] = []
layout index (p ∷ rest) = piece_token p index ∷ layout (suc (index + length (write p))) rest

-- A piece that stands for one token: no quote in quotes, and a word of free characters without.
abbrev pub Writable : Piece → Type 0
Writable (quoted v) = free_of_quote v ≡ true
Writable (word v) = (all word_char v ≡ true) × (0 < length v)

-- A space, or the end of the line.
abbrev Ends : Text → Type 0
Ends [] = Unit
Ends (c ∷ rest) = c ≡ 0x20

glued-Ends : (rest : Text) → Ends rest → glued rest ≡ false
unfolding glued is_space
glued-Ends [] e = refl
glued-Ends (c ∷ rest) e = rw e refl

Stops-Ends : (rest : Text) → Ends rest → Stops rest × (at_quote rest ≡ false)
unfolding is_space
Stops-Ends [] e = (tt, refl)
Stops-Ends (c ∷ rest) e = rw e (refl, refl)

scan_quoted_lem :
    (loop : Loop) (index : ℕ) (v rest : Text)
    → free_of_quote v ≡ true
    → Ends rest
    → scan_quoted loop index (v ++ b'"' ∷ rest)
      ≡ emit (quoted_token v index) (loop (index + length v + 2) rest)
unfolding scan_quoted
scan_quoted_lem loop index v rest w e = ground (arith, split_quote_lem v rest w, glued-Ends rest e)

scan_unquoted_lem :
    (loop : Loop) (index : ℕ) (v rest : Text)
    → all word_char v ≡ true
    → Ends rest
    → scan_unquoted loop index (v ++ rest)
      ≡ emit (word_token v index) (loop (index + length v) rest)
unfolding scan_unquoted
scan_unquoted_lem loop index v rest w e =
    let (stops, unquoted) = Stops-Ends rest e in
    ground (arith, scan_word_lem index v rest w stops, unquoted)

scan_piece :
    (fuel index : ℕ) (p : Piece) (rest : Text)
    → Writable p
    → Ends rest
    → scan (suc fuel) index (write p ++ rest)
      ≡ emit (piece_token p index) (scan fuel (index + length (write p)) rest)
unfolding scan is_space word_char
scan_piece fuel index (quoted v) rest w e =
    rw (append_assoc v (b'"' ∷ []) rest, length-append v (b'"' ∷ []))
      (scan_quoted_lem (scan fuel) index v rest w e
        ∙ ap (λ (next : ℕ). emit (quoted_token v index) (scan fuel next rest)) (omega arith))
scan_piece fuel index (word []) rest (w, n) e = absurd (omega arith)
scan_piece fuel index (word (c ∷ v)) rest (w, n) e =
    ground (arith, scan_unquoted_lem (scan fuel) index (c ∷ v) rest w e)

write_pos : (p : Piece) → Writable p → 0 < length (write p)
write_pos (quoted v) w = omega arith
write_pos (word v) (w, n) = n

-- The last piece, with nothing behind it.
scan_last :
    (fuel index : ℕ) (p : Piece)
    → Writable p
    → length (write p) < suc fuel
    → scan (suc fuel) index (write p) ≡ ok (piece_token p index ∷ [])
unfolding scan
scan_last zero index p w h = absurd (omega (arith, write_pos p w))
scan_last (suc fuel) index p w h =
    ap (scan (suc (suc fuel)) index) (sym (append-nil (write p)))
    ∙ scan_piece (suc fuel) index p [] w tt

-- The line of the pieces, one space between them.
abbrev pub line : List Piece → Text
line pieces = join space (map write pieces)

scan-line :
    (fuel index : ℕ) (pieces : List Piece)
    → All Writable pieces
    → length (line pieces) < fuel
    → scan fuel index (line pieces) ≡ ok (layout index pieces)
unfolding scan is_space
scan-line zero index pieces w h = absurd (omega arith)
scan-line (suc fuel) index [] w h = refl
scan-line (suc fuel) index (p ∷ []) (w, _) h = scan_last fuel index p w h
scan-line (suc zero) index (p ∷ q ∷ rest) (w, ws) h =
    absurd (omega (arith, write_pos p w, length-append {0} (write p) (0x20 ∷ line (q ∷ rest))))
scan-line (suc (suc fuel)) index (p ∷ q ∷ rest) (w, ws) h =
    scan_piece (suc fuel) index p (0x20 ∷ line (q ∷ rest)) w refl
    ∙ ap (emit (piece_token p index)) (
        scan-line fuel (suc (index + length (write p))) (q ∷ rest) ws
          (omega (arith, write_pos p w, length-append {0} (write p) (0x20 ∷ line (q ∷ rest)))))

-- Characters that the checks before the loop let through.
unfoldable pub printable : ℕ → Bool
printable c = not (is_control c) && not (has c always_forbidden)

has-eq-false :
    (c : ℕ) (text : Text)
    → all printable text ≡ true
    → has c always_forbidden ≡ true
    → has c text ≡ false
unfolding printable
has-eq-false c [] h k = refl
has-eq-false c (x ∷ text) h k = elim (Bool-cases (x == c)) [
  | inl e ↦ absurd (
      let same : x ≡ c = ==→eq x c e in ground (arith, ap (λ (d : ℕ). has d always_forbidden) same))
  | inr e ↦ ground (arith, has-eq-false c text (ground arith) k)
]

first_forbidden-eq-none :
    (text : Text) (chars : List ℕ)
    → all printable text ≡ true
    → all (λ c. has c always_forbidden) chars ≡ true
    → first_forbidden chars text ≡ none
unfolding first_forbidden
first_forbidden-eq-none text [] h k = refl
first_forbidden-eq-none text (c ∷ chars) h k = ground (
  arith,
  first_forbidden-eq-none text chars h (&&-right (has c always_forbidden) _ k),
  has-eq-false c text h (&&-left (has c always_forbidden) _ k),
)

any-is_control : (text : Text) → all printable text ≡ true → any is_control text ≡ false
unfolding printable
any-is_control [] h = refl
any-is_control (c ∷ text) h = ground (arith, any-is_control text)

-- All characters of the value pass those checks.
abbrev pub Printable : Piece → Type 0
Printable (quoted v) = all printable v ≡ true
Printable (word v) = all printable v ≡ true

printable-write : (p : Piece) → Printable p → all printable (write p) ≡ true
unfolding printable is_control
printable-write (quoted v) h = rw (all-append printable v (b'"' ∷ [])) (rw h refl)
printable-write (word v) h = h

printable-space : printable 0x20 ≡ true
unfolding printable is_control
printable-space = refl

printable-line : (pieces : List Piece) → All Printable pieces → all printable (line pieces) ≡ true
printable-line [] h = refl
printable-line (p ∷ []) (h, _) = printable-write p h
printable-line (p ∷ q ∷ rest) (h, hs) =
    all-append printable (write p) (0x20 ∷ line (q ∷ rest))
    ∙ rw (printable-write p h, printable-space) (printable-line (q ∷ rest) hs)

-- A line of pieces, each a bare word of free characters or a quoted value with no quote in it, all
-- printable, is tokenized to exactly these values, in order, at the positions where they stand.
pub tokenize-line :
    (pieces : List Piece)
    → All Writable pieces
    → All Printable pieces
    → tokenize (line pieces) ≡ ok (layout 0 pieces)
unfolding tokenize
tokenize-line pieces w h = ground (
  arith,
  first_forbidden-eq-none (line pieces) always_forbidden (printable-line pieces h) refl,
  any-is_control (line pieces) (printable-line pieces h),
  scan-line (suc (length (line pieces))) 0 pieces w (omega arith),
)
