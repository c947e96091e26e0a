-- ===== src/SchemaGraph/Step/Rank.antt =====
-- The order of `GraphPath.rank` in schema_graph/traversal.py.
use m365_xdr_cli.Base.{
  ℕ, ◌+◌, ◌≤◌, ◌<◌, ◌≡◌, true, false, List, [], ◌∷◌, ◌++◌, length, length-append, arith,
}
use Prim.Native.Nat.{max}
use m365_xdr_cli.Base.Sort.{lex_leb}
use m365_xdr_cli.SchemaGraph.Step.{
  GraphStep, max_of, sum_of, path_rank, evidence_rank, relation_weight,
}

max_of-append :
    (f : GraphStep → ℕ) (xs ys : List GraphStep)
    → max_of f (xs ++ ys) ≡ max (max_of f xs) (max_of f ys)
max_of-append f [] ys = omega arith
max_of-append f (x ∷ xs) ys = omega (arith, max_of-append f xs ys)

sum_of-append :
    (f : GraphStep → ℕ) (xs ys : List GraphStep) → sum_of f (xs ++ ys) ≡ sum_of f xs + sum_of f ys
sum_of-append f [] ys = omega arith
sum_of-append f (x ∷ xs) ys = omega (arith, sum_of-append f xs ys)

-- A tuple is before one whose first entries are no smaller and whose fourth is larger.
lex_leb_fourth :
    (a b c d a' b' c' d' : ℕ) (xs ys : List ℕ)
    → a ≤ a'
    → b ≤ b'
    → c ≤ c'
    → d < d'
    → (lex_leb (a ∷ b ∷ c ∷ d ∷ xs) (a' ∷ b' ∷ c' ∷ d' ∷ ys) ≡ true)
      × (lex_leb (a' ∷ b' ∷ c' ∷ d' ∷ ys) (a ∷ b ∷ c ∷ d ∷ xs) ≡ false)
unfolding lex_leb
lex_leb_fourth a b c d a' b' c' d' xs ys p q r s = ground arith

-- A path that is extended by any steps, at least one, ranks strictly behind the path itself.
pub path_rank-append :
    (path more : List GraphStep)
    → 0 < length more
    → (lex_leb (path_rank path) (path_rank (path ++ more)) ≡ true)
      × (lex_leb (path_rank (path ++ more)) (path_rank path) ≡ false)
unfolding path_rank
path_rank-append path more h =
    lex_leb_fourth _ _ _ _ _ _ _ _ _ _ (omega (arith, max_of-append evidence_rank path more))
      (omega (arith, max_of-append (λ s. relation_weight s.relationship) path more))
      (omega (arith, sum_of-append (λ s. relation_weight s.relationship) path more))
      (omega (arith, length-append {0} path more))
