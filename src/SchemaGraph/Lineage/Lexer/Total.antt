-- ===== src/SchemaGraph/Lineage/Lexer/Total.antt =====
-- The loop of `_tokens` of lineage.py, and its fuel.
use m365_xdr_cli.Base.{
  ℕ, zero, suc, ◌≤◌, ◌≢◌, ap, Bool, true, false, ◌&&◌, ◌||◌, Option, none, some, [], ◌∷◌, Text,
  length, length-append, is_space, ltb, ◌==◌, arith,
}
use m365_xdr_cli.Base.Attempt.{Attempt, returned, raised, ◌>>=◌}
use m365_xdr_cli.Base.Outcomes.{Returns}
use m365_xdr_cli.SchemaGraph.Lineage.Split.{Unsupported}
use m365_xdr_cli.SchemaGraph.Lineage.Origins.{is_alpha}
use m365_xdr_cli.SchemaGraph.Lineage.Expression.Fuel.{Ends, ends, Ends-bind, Ends-if}
use m365_xdr_cli.SchemaGraph.Lineage.Lexer.{
  Cut, push_maybe, block_end, quoted, verbatim_quoted, Piece, closed_piece, plain_piece, next_piece,
  add_token, lex, tokens_of,
}
use m365_xdr_cli.SchemaGraph.Lineage.Lexer.Cover.{IsPiece, next_piece-IsPiece}

closed_piece-Ends : (kept : Bool) (o : Option Cut) → Ends (closed_piece kept o)
closed_piece-Ends kept none = λ p. cc
closed_piece-Ends kept (some cut) = ends _

shorter : (whole : Text) (p : Piece) → IsPiece whole p → suc (length p.cut.1) ≤ length whole
shorter whole p i = omega (arith, i.takes, ap length i.cuts, length-append {0} p.cut.0 p.cut.1)

module _ (is_decimal : ℕ → Bool) where
  plain_piece-Ends : (c : ℕ) (cs : Text) → Ends (plain_piece is_decimal c cs)
  unfolding plain_piece
  plain_piece-Ends c cs = Ends-if (is_space c) _ _ (ends _) (
      Ends-if (c == b'"' || c == b'\'') _ _ (closed_piece-Ends true (push_maybe c (quoted c cs))) (
        Ends-if (c == b'@' || c == b'`') _ _ (λ p. cc)
          (Ends-if (is_alpha c || c == b'_') _ _ (ends _)
            (Ends-if (is_decimal c) _ _ (ends _) (ends _)))))

  next_piece-Ends : (c : ℕ) (cs : Text) → Ends (next_piece is_decimal c cs)
  unfolding next_piece
  next_piece-Ends c [] = plain_piece-Ends c []
  next_piece-Ends c (d ∷ cs) = Ends-if (c == b'/' && d == b'/') _ _ (ends _) (
      Ends-if (c == b'/' && d == b'*') _ _
        (closed_piece-Ends false (push_maybe c (push_maybe d (block_end cs))))
        (Ends-if (c == b'@' && (d == b'"' || d == b'\'')) _ _
          (closed_piece-Ends true (push_maybe c (push_maybe d (verbatim_quoted d cs))))
          (plain_piece-Ends c (d ∷ cs))))

  lex-Ends : (fuel : ℕ) (t : Text) → length t ≤ fuel → Ends (lex is_decimal fuel t)
  unfolding lex
  lex-Ends fuel [] h = ends []
  lex-Ends zero (c ∷ cs) h = absurd (omega (arith, h))
  lex-Ends (suc fuel) (c ∷ cs) h =
      go (λ p l. lex-Ends fuel p.cut.1 (omega (arith, h, l))) (next_piece is_decimal c cs)
        (next_piece-Ends c cs) (next_piece-IsPiece is_decimal c cs)
    where
      go :
          ((p : Piece)
            → suc (length p.cut.1) ≤ length (c ∷ cs)
            → Ends (lex is_decimal fuel p.cut.1))
          → (m : Attempt Unsupported Piece) → Ends m
          → Returns (IsPiece (c ∷ cs)) m
          → Ends (
              m >>= λ p.
              lex is_decimal fuel p.cut.1 >>= λ tokens. returned (add_token is_decimal p tokens))
      go again (raised e) k i = λ p. k (cc)
      go again (returned p) k i =
          Ends-bind (lex is_decimal fuel p.cut.1) _ (again p (shorter (c ∷ cs) p i))
            (λ tokens. ends _)

  -- Every query is tokenized or refused by one of the code's own errors: the loop ends within as many
  -- rounds as the query has characters.
  pub tokens_of-ne-exhausted :
      (query : Text) → tokens_of is_decimal query ≢ raised Unsupported.exhausted
  unfolding tokens_of
  tokens_of-ne-exhausted query =
      Ends-if (ltb 262_144 (length query)) (raised Unsupported.query_limit)
        (lex is_decimal (length query) query) (λ p. cc)
        (lex-Ends (length query) query (omega arith))
