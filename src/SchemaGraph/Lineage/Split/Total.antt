-- ===== src/SchemaGraph/Lineage/Split/Total.antt =====
-- `_split` of lineage.py raises its own errors only.
use m365_xdr_cli.Base.{
  ◌&&◌, Option, none, some, List, [], ◌∷◌, Text, text_eq, length, ltb, if◌then◌else◌,
}
use m365_xdr_cli.Base.Attempt.{Attempt, returned, raised, ◌>>=◌}
use m365_xdr_cli.SchemaGraph.Lineage.Split.{
  Unsupported, Chunks, nest, advance, split_from, split, closer, is_closer, is_closed,
}
use m365_xdr_cli.SchemaGraph.Lineage.Expression.Fuel.{Ends, ends, Ends-bind, Ends-if}

nest-Ends : (stack : List Text) (t : Text) → Ends (nest stack t)
unfolding nest
nest-Ends stack t = opening (closer t)
  where
    closing :
        (st : List Text)
        → Ends {A = List Text} (elim st [
          | [] ↦ raised Unsupported.unbalanced
          | top ∷ below ↦ if text_eq top t then returned below else raised Unsupported.unbalanced
        ])
    closing [] = λ p. cc
    closing (top ∷ below) = Ends-if (text_eq top t) _ _ (ends below) (λ p. cc)

    opening :
        (o : Option Text)
        → Ends {A = List Text} (elim o [
          | some close ↦
              if ltb 64 (length (close ∷ stack))
              then raised Unsupported.expression_limit
              else returned (close ∷ stack)
          | none ↦
              if is_closer t
              then (elim stack [
                | [] ↦ raised Unsupported.unbalanced
                | top ∷ below ↦
                    if text_eq top t then returned below else raised Unsupported.unbalanced
              ])
              else returned stack
        ])
    opening none = Ends-if (is_closer t) _ _ (closing stack) (ends stack)
    opening (some close) = Ends-if (ltb 64 (length (close ∷ stack))) _ _ (λ p. cc) (ends _)

advance-Ends : (separator : Text) (stack : List Text) (t : Text) → Ends (advance separator stack t)
unfolding advance
advance-Ends separator stack t =
    Ends-if (text_eq t separator && is_closed stack) _ _ (ends _)
      (Ends-bind (nest stack t) _ (nest-Ends stack t) (λ inner. ends _))

split_from-Ends : (separator : Text) (stack ts : List Text) → Ends (split_from separator stack ts)
unfolding split_from
split_from-Ends separator stack [] = Ends-if (is_closed stack) _ _ (ends _) (λ p. cc)
split_from-Ends separator stack (t ∷ ts) =
    go (λ st. split_from-Ends separator st ts) (advance separator stack t)
      (advance-Ends separator stack t)
  where
    go :
        ((st : List Text) → Ends (split_from separator st ts))
        → (o : Attempt Unsupported (Option (List Text))) → Ends o
        → Ends {A = Chunks} (elim o [
          | raised e ↦ raised e
          | returned none ↦
              split_from separator [] ts >>= λ (chunk, more). returned ([], chunk ∷ more)
          | returned (some inner) ↦
              split_from separator inner ts >>= λ (chunk, more). returned (t ∷ chunk, more)
        ])
    go again (raised e) h = λ p. h (cc)
    go again (returned none) h = Ends-bind (split_from separator [] ts) _ (again []) (λ c. ends _)
    go again (returned (some inner)) h =
        Ends-bind (split_from separator inner ts) _ (again inner) (λ c. ends _)

pub split-Ends : (separator : Text) (ts : List Text) → Ends (split separator ts)
unfolding split
split-Ends separator ts =
    Ends-bind (split_from separator [] ts) _ (split_from-Ends separator [] ts) (λ c. ends _)
