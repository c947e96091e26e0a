-- ===== src/SchemaGraph/Lineage/Lexer/Cover.antt =====
-- The matches of `_tokens` of lineage.py, side by side.
use m365_xdr_cli.Base.{
  ℕ, zero, suc, ◌≤◌, ◌≡◌, refl, ap, ◌∙◌, Bool, true, false, ◌&&◌, ◌||◌, not, Option, none, some,
  List, [], ◌∷◌, ◌++◌, Text, length, is_space, ltb, ◌==◌, if◌then◌else◌, arith,
}
use m365_xdr_cli.Base.Attempt.{returned}
use m365_xdr_cli.Base.Outcomes.{Given, Returns, Returns-bind, Returns-if, Returns-case, Returns-eq}
use m365_xdr_cli.SchemaGraph.Lineage.Origins.{is_alpha}
use m365_xdr_cli.SchemaGraph.Lineage.Lexer.{
  Cut, push, push_maybe, span, block_end, quoted, verbatim_quoted, Piece, piece, closed_piece,
  is_name_char, fraction, numeral, plain_piece, next_piece, add_token, lex, tokens_of,
}

-- What is matched and what is behind it are the text.
abbrev pub IsCut : Text → Cut → Type 0
IsCut t cut = cut.0 ++ cut.1 ≡ t

push-IsCut : (c : ℕ) (t : Text) (cut : Cut) → IsCut t cut → IsCut (c ∷ t) (push c cut)
push-IsCut c t cut h = ap (λ (x : Text). c ∷ x) h

push_maybe-IsCut :
    (c : ℕ) (t : Text) (o : Option Cut) → Given (IsCut t) o → Given (IsCut (c ∷ t)) (push_maybe c o)
push_maybe-IsCut c t none h = tt
push_maybe-IsCut c t (some cut) h = push-IsCut c t cut h

span-IsCut : (test : ℕ → Bool) (t : Text) → IsCut t (span test t)
unfolding span
span-IsCut test [] = refl
span-IsCut test (c ∷ cs) = go (test c) (span-IsCut test cs)
  where
    go :
        (b : Bool)
        → IsCut cs (span test cs)
        → IsCut (c ∷ cs) (if b then push c (span test cs) else ([], c ∷ cs))
    go true h = push-IsCut c cs (span test cs) h
    go false h = refl

Given-if :
    (t : Text) (b : Bool) (x y : Option Cut)
    → Given (IsCut t) x
    → Given (IsCut t) y
    → Given (IsCut t) (if b then x else y)
Given-if t true x y h k = h
Given-if t false x y h k = k

block_end-IsCut : (t : Text) → Given (IsCut t) (block_end t)
unfolding block_end
block_end-IsCut [] = tt
block_end-IsCut (c ∷ []) = tt
block_end-IsCut (c ∷ d ∷ cs) =
    Given-if (c ∷ d ∷ cs) (c == b'*' && d == b'/') (some (c ∷ d ∷ [], cs))
      (push_maybe c (block_end (d ∷ cs))) refl
      (push_maybe-IsCut c (d ∷ cs) (block_end (d ∷ cs)) (block_end-IsCut (d ∷ cs)))

quoted-IsCut : (q : ℕ) (t : Text) → Given (IsCut t) (quoted q t)
unfolding quoted
quoted-IsCut q [] = tt
quoted-IsCut q (c ∷ []) = Given-if (c ∷ []) (c == q) (some (c ∷ [], [])) none refl tt
quoted-IsCut q (c ∷ d ∷ cs) = go (c == q) (c == b'\\') (quoted-IsCut q cs) (quoted-IsCut q (d ∷ cs))
  where
    go :
        (b e : Bool)
        → Given (IsCut cs) (quoted q cs)
        → Given (IsCut (d ∷ cs)) (quoted q (d ∷ cs))
        → Given (IsCut (c ∷ d ∷ cs)) (elim b [
          | true ↦ some (c ∷ [], d ∷ cs)
          | false ↦ elim e [
            | true ↦ if d == 10 then none else push_maybe c (push_maybe d (quoted q cs))
            | false ↦ push_maybe c (quoted q (d ∷ cs))
          ]
        ])
    go true e h k = refl
    go false true h k =
        Given-if (c ∷ d ∷ cs) (d == 10) none (push_maybe c (push_maybe d (quoted q cs))) tt (
          push_maybe-IsCut c (d ∷ cs) (push_maybe d (quoted q cs))
            (push_maybe-IsCut d cs (quoted q cs) h))
    go false false h k = push_maybe-IsCut c (d ∷ cs) (quoted q (d ∷ cs)) k

verbatim_quoted-IsCut : (q : ℕ) (t : Text) → Given (IsCut t) (verbatim_quoted q t)
unfolding verbatim_quoted
verbatim_quoted-IsCut q [] = tt
verbatim_quoted-IsCut q (c ∷ []) = Given-if (c ∷ []) (c == q) (some (c ∷ [], [])) none refl tt
verbatim_quoted-IsCut q (c ∷ d ∷ cs) =
    go (c == q) (d == q) (verbatim_quoted-IsCut q cs) (verbatim_quoted-IsCut q (d ∷ cs))
  where
    go :
        (b e : Bool)
        → Given (IsCut cs) (verbatim_quoted q cs)
        → Given (IsCut (d ∷ cs)) (verbatim_quoted q (d ∷ cs))
        → Given (IsCut (c ∷ d ∷ cs)) (elim b [
          | true ↦ elim e [
            | true ↦ push_maybe c (push_maybe d (verbatim_quoted q cs))
            | false ↦ some (c ∷ [], d ∷ cs)
          ]
          | false ↦ push_maybe c (verbatim_quoted q (d ∷ cs))
        ])
    go true true h k =
        push_maybe-IsCut c (d ∷ cs) (push_maybe d (verbatim_quoted q cs))
          (push_maybe-IsCut d cs (verbatim_quoted q cs) h)
    go true false h k = refl
    go false e h k = push_maybe-IsCut c (d ∷ cs) (verbatim_quoted q (d ∷ cs)) k

abbrev starts_comment : Text → Bool
starts_comment [] = false
starts_comment (d ∷ cs) = d == b'/' || d == b'*'

-- Starts with whitespace, or as a comment does.
abbrev pub is_gap : Text → Bool
is_gap [] = false
is_gap (c ∷ cs) = is_space c || (c == b'/' && starts_comment cs)

-- A match at the head of a text: it takes at least a character, and is a gap if it is dropped.
pub record IsPiece (whole : Text) (p : Piece) : Type 0 where
  pub cuts : IsCut whole p.cut
  pub takes : 1 ≤ length p.cut.0
  pub gap : (p.kept || is_gap p.cut.0) ≡ true

pushed-IsPiece :
    (kept : Bool) (c : ℕ) (t : Text) (cut : Cut)
    → IsCut t cut
    → (kept || is_gap (c ∷ cut.0)) ≡ true
    → Returns (IsPiece (c ∷ t)) (piece kept (push c cut))
pushed-IsPiece kept c t cut h g = record {
  cuts = push-IsCut c t cut h;
  takes = omega arith;
  gap = g;
}

closed-IsPiece :
    (c : ℕ) (t : Text) (o : Option Cut)
    → Given (IsCut t) o
    → Returns (IsPiece (c ∷ t)) (closed_piece true (push_maybe c o))
closed-IsPiece c t none h = tt
closed-IsPiece c t (some cut) h = pushed-IsPiece true c t cut h refl

comment-IsPiece :
    (c d : ℕ) (t : Text) (o : Option Cut)
    → (c == b'/' && (d == b'/' || d == b'*')) ≡ true
    → Given (IsCut t) o
    → Returns (IsPiece (c ∷ d ∷ t)) (closed_piece false (push_maybe c (push_maybe d o)))
comment-IsPiece c d t none g h = tt
comment-IsPiece c d t (some cut) g h =
    pushed-IsPiece false c (d ∷ t) (push d cut) (push-IsCut d t cut h) (or_right (is_space c) _ g)
  where
    or_right : (a b : Bool) → b ≡ true → (a || b) ≡ true
    or_right true b e = refl
    or_right false b e = e

module _ (is_decimal : ℕ → Bool) where
  fraction-IsCut : (t : Text) → IsCut t (fraction is_decimal t)
  unfolding fraction
  fraction-IsCut [] = refl
  fraction-IsCut (p ∷ []) = refl
  fraction-IsCut (p ∷ d ∷ cs) = go (p == b'.' && is_decimal d)
    where
      go :
          (b : Bool)
          → IsCut (p ∷ d ∷ cs) (if b then push p (span is_decimal (d ∷ cs)) else ([], p ∷ d ∷ cs))
      go true = push-IsCut p (d ∷ cs) (span is_decimal (d ∷ cs)) (span-IsCut is_decimal (d ∷ cs))
      go false = refl

  append_assoc : (x y z : Text) → (x ++ y) ++ z ≡ x ++ (y ++ z)
  append_assoc [] y z = refl
  append_assoc (c ∷ x) y z = ap (λ (t : Text). c ∷ t) (append_assoc x y z)

  numeral-IsPiece :
      (c : ℕ) (cs : Text) → Returns (IsPiece (c ∷ cs)) (piece true (numeral is_decimal c cs))
  unfolding numeral
  numeral-IsPiece c cs =
      let digits = span is_decimal cs in
      let more = fraction is_decimal digits.1 in
      record {
        cuts =
            ap (λ (t : Text). c ∷ t)
              (append_assoc digits.0 more.0 more.1
                ∙ (ap (λ (t : Text). digits.0 ++ t) (fraction-IsCut digits.1)
                    ∙ span-IsCut is_decimal cs));
        takes = omega arith;
        gap = refl;
      }

  plain_piece-IsPiece :
      (c : ℕ) (cs : Text) → Returns (IsPiece (c ∷ cs)) (plain_piece is_decimal c cs)
  unfolding plain_piece
  plain_piece-IsPiece c cs =
      Returns-case (IsPiece (c ∷ cs)) (is_space c) _ _
        (λ e. pushed-IsPiece false c cs (span is_space cs) (span-IsCut is_space cs) (rw e refl))
        (Returns-if (IsPiece (c ∷ cs)) (c == b'"' || c == b'\'') _ _
          (closed-IsPiece c cs (quoted c cs) (quoted-IsCut c cs))
          (Returns-if (IsPiece (c ∷ cs)) (c == b'@' || c == b'`') _ _ tt (
            Returns-if (IsPiece (c ∷ cs)) (is_alpha c || c == b'_') _ _
              (pushed-IsPiece true c cs (span is_name_char cs) (span-IsCut is_name_char cs) refl)
              (Returns-if (IsPiece (c ∷ cs)) (is_decimal c) _ _ (numeral-IsPiece c cs)
                (record { cuts = refl; takes = omega arith; gap = refl })))))

  pub next_piece-IsPiece :
      (c : ℕ) (cs : Text) → Returns (IsPiece (c ∷ cs)) (next_piece is_decimal c cs)
  unfolding next_piece
  next_piece-IsPiece c [] = plain_piece-IsPiece c []
  next_piece-IsPiece c (d ∷ cs) =
      Returns-case (IsPiece (c ∷ d ∷ cs)) (c == b'/' && d == b'/') _ _
        (λ e.
          comment-IsPiece c d cs (some (span (λ x. not (x == 10)) cs)) (line_gap e)
            (span-IsCut (λ x. not (x == 10)) cs))
        (Returns-case (IsPiece (c ∷ d ∷ cs)) (c == b'/' && d == b'*') _ _
          (λ e. comment-IsPiece c d cs (block_end cs) (block_gap e) (block_end-IsCut cs))
          (Returns-if (IsPiece (c ∷ d ∷ cs)) (c == b'@' && (d == b'"' || d == b'\'')) _ _
            (closed-IsPiece c (d ∷ cs) (push_maybe d (verbatim_quoted d cs))
              (push_maybe-IsCut d cs (verbatim_quoted d cs) (verbatim_quoted-IsCut d cs)))
            (plain_piece-IsPiece c (d ∷ cs))))
    where
      line_gap : (c == b'/' && d == b'/') ≡ true → (c == b'/' && (d == b'/' || d == b'*')) ≡ true
      line_gap e = ground arith

      block_gap : (c == b'/' && d == b'*') ≡ true → (c == b'/' && (d == b'/' || d == b'*')) ≡ true
      block_gap e = ground arith

  -- The text is matches side by side, and the tokens are those of them that are kept, in order.
  pub data Lexed : Text → List Text → Type 0 where
    finished : Lexed [] []
    match :
        {text : Text} {tokens : List Text} (p : Piece)
        → IsPiece text p
        → Lexed p.cut.1 tokens
        → Lexed text (add_token is_decimal p tokens)

  lex-Lexed : (fuel : ℕ) (t : Text) → Returns (Lexed t) (lex is_decimal fuel t)
  unfolding lex
  lex-Lexed fuel [] = finished
  lex-Lexed zero (c ∷ cs) = tt
  lex-Lexed (suc fuel) (c ∷ cs) =
      Returns-bind (IsPiece (c ∷ cs)) (Lexed (c ∷ cs)) (next_piece is_decimal c cs) _
        (next_piece-IsPiece c cs)
        (λ p i.
          Returns-bind (Lexed p.cut.1) (Lexed (c ∷ cs)) (lex is_decimal fuel p.cut.1) _
            (lex-Lexed fuel p.cut.1) (λ tokens l. match p i l))

  -- The tokens of a query are some of the matches that make it up, side by side and in order; a match is
  -- not empty, and one that is left out starts with whitespace or as a comment does.
  pub tokens_of-Lexed :
      (query : Text) (tokens : List Text)
      → tokens_of is_decimal query ≡ returned tokens
      → Lexed query tokens
  unfolding tokens_of
  tokens_of-Lexed query tokens h = Returns-eq (Lexed query) (tokens_of is_decimal query) tokens h (
      Returns-if (Lexed query) (ltb 262_144 (length query)) _ _ tt (lex-Lexed (length query) query))
