-- ===== src/SchemaGraph/Lineage/Recover/Operators.antt =====
-- The operators of a pipeline in `recover_field_origins` of lineage.py.
use m365_xdr_cli.Base.{
  Bool, true, false, ◌&&◌, not, Option, List, [], ◌∷◌, Text, codes, text_eq, contains,
  if◌then◌else◌,
}
use m365_xdr_cli.Base.Attempt.{Attempt, returned, raised, ◌>>=◌}
use m365_xdr_cli.Base.Outcomes.{Returns, Returns-bind, Returns-if, Always, always}
use m365_xdr_cli.SchemaGraph.Lineage.Split.{Unsupported, split}
use m365_xdr_cli.SchemaGraph.Lineage.Origins.{FieldOrigins}
use m365_xdr_cli.SchemaGraph.Lineage.Origins.OneTable.{IsOneTable}
use m365_xdr_cli.SchemaGraph.Lineage.Recover.{
  Outputs, assign_column, group_column, away_column, at_equals, each_assignment, each_group,
  each_away, outputs_of, no_outputs, with_outputs, apply_projection, apply_away, apply_groups,
  apply_summarize, apply_operator, apply_operators, is_filter,
}
use m365_xdr_cli.SchemaGraph.Lineage.Recover.OneTable.{
  IsOutputs, hide-IsOutputs, named_step, assign_column-IsOutputs, group_column-IsOutputs,
}

module _ (literal : Text → Option Text) (table : Text) where
  -- A step behind `_split`.
  split_step :
      {A : Type 0} (P : A → Type 0) (separator : Text) (tokens : List Text)
      (k : List (List Text) → Attempt Unsupported A)
      → ((parts : List (List Text)) → Returns P (k parts))
      → Returns P (split separator tokens >>= k)
  split_step P separator tokens k f =
      Returns-bind Always P (split separator tokens) k (always (split separator tokens))
        (λ parts u. f parts)

  at_equals-IsOutputs :
      (tokens : List Text) (handle : List Text → List (List Text) → Attempt Unsupported Outputs)
      → ((first : List Text) (more : List (List Text))
          → Returns (IsOutputs table) (handle first more))
      → Returns (IsOutputs table) (at_equals literal tokens handle)
  at_equals-IsOutputs tokens handle f = split_step (IsOutputs table) (codes "=") tokens _ go
    where
      go :
          (parts : List (List Text))
          → Returns {E = Unsupported}
              (IsOutputs table)
              (elim parts [ [] ↦ handle [] [] | first ∷ more ↦ handle first more ])
      go [] = f [] []
      go (first ∷ more) = f first more

  each_away-IsOutputs :
      (parts : List (List Text)) (w : Outputs)
      → IsOutputs table w
      → Returns (IsOutputs table) (each_away literal parts w)
  unfolding each_away away_column
  each_away-IsOutputs [] w h = h
  each_away-IsOutputs (tokens ∷ others) w h =
      Returns-bind (IsOutputs table) (IsOutputs table) (away_column literal tokens w)
        (each_away literal others)
        (named_step literal table (IsOutputs table) tokens _ tt
          (λ name. hide-IsOutputs table name w h))
        (λ next k. each_away-IsOutputs others next k)

  module _ (o : FieldOrigins) (q : IsOneTable table o) where
    each_assignment-IsOutputs :
        (renames : Bool) (parts : List (List Text)) (w : Outputs)
        → IsOutputs table w
        → Returns (IsOutputs table) (each_assignment literal o renames parts w)
    unfolding each_assignment
    each_assignment-IsOutputs renames [] w h = h
    each_assignment-IsOutputs renames (tokens ∷ others) w h =
        Returns-bind (IsOutputs table) (IsOutputs table)
          (at_equals literal tokens (λ first more. assign_column literal o renames first more w))
          (each_assignment literal o renames others)
          (at_equals-IsOutputs tokens _
            (λ first more. assign_column-IsOutputs literal table o q renames first more w h))
          (λ next k. each_assignment-IsOutputs renames others next k)

    each_group-IsOutputs :
        (parts : List (List Text)) (w : Outputs)
        → IsOutputs table w
        → Returns (IsOutputs table) (each_group literal o parts w)
    unfolding each_group
    each_group-IsOutputs [] w h = h
    each_group-IsOutputs (tokens ∷ others) w h =
        Returns-bind (IsOutputs table) (IsOutputs table)
          (at_equals literal tokens (λ first more. group_column literal o first more w))
          (each_group literal o others)
          (at_equals-IsOutputs tokens _
            (λ first more. group_column-IsOutputs literal table o q first more w h))
          (λ next k. each_group-IsOutputs others next k)

    with_outputs-IsOneTable :
        (passthrough : Bool) (m : Attempt Unsupported Outputs)
        → Returns (IsOutputs table) m
        → Returns (IsOneTable table) (m >>= λ w. returned (with_outputs literal o passthrough w))
    with_outputs-IsOneTable passthrough m h =
        Returns-bind (IsOutputs table) (IsOneTable table) m _ h
          (λ w k. record { named = q.named; columns = k.columns; expressions = k.expressions })

    outputs_of-IsOutputs : IsOutputs table (outputs_of literal o)
    outputs_of-IsOutputs = record { columns = q.columns; expressions = q.expressions }

    no_outputs-IsOutputs : IsOutputs table (no_outputs literal)
    no_outputs-IsOutputs = record { columns = tt; expressions = tt }

    apply_groups-IsOneTable :
        (keys : List Text) → Returns (IsOneTable table) (apply_groups literal o keys)
    unfolding apply_groups
    apply_groups-IsOneTable keys = split_step (IsOneTable table) (codes ",") keys _ (λ parts.
        with_outputs-IsOneTable false (each_group literal o parts (no_outputs literal))
          (each_group-IsOutputs parts (no_outputs literal) no_outputs-IsOutputs))

    apply_summarize-IsOneTable :
        (body : List Text) → Returns (IsOneTable table) (apply_summarize literal o body)
    unfolding apply_summarize
    apply_summarize-IsOneTable body = split_step (IsOneTable table) (codes "by") body _ go
      where
        go :
            (groups : List (List Text))
            → Returns {E = Unsupported} (IsOneTable table) (elim groups [
              | [] ↦ raised Unsupported.grouping
              | aggregates ∷ others ↦ elim others [
                | [] ↦ raised Unsupported.grouping
                | keys ∷ more ↦ elim more [
                  | [] ↦ apply_groups literal o keys
                  | g ∷ gs ↦ raised Unsupported.grouping
                ]
              ]
            ])
        go [] = tt
        go (aggregates ∷ []) = tt
        go (aggregates ∷ keys ∷ []) = apply_groups-IsOneTable keys
        go (aggregates ∷ keys ∷ g ∷ gs) = tt

    apply_away-IsOneTable :
        (body : List Text) → Returns (IsOneTable table) (apply_away literal o body)
    unfolding apply_away
    apply_away-IsOneTable body = split_step (IsOneTable table) (codes ",") body _ (λ parts.
        with_outputs-IsOneTable o.passthrough (each_away literal parts (outputs_of literal o))
          (each_away-IsOutputs parts (outputs_of literal o) outputs_of-IsOutputs))

    apply_projection-IsOneTable :
        (projects renames : Bool) (body : List Text)
        → Returns (IsOneTable table) (apply_projection literal o projects renames body)
    unfolding apply_projection
    apply_projection-IsOneTable projects renames body =
        split_step (IsOneTable table) (codes ",") body _ (λ parts.
          with_outputs-IsOneTable (o.passthrough && not projects)
            (each_assignment literal o renames parts
              (if projects then no_outputs literal else outputs_of literal o))
            (each_assignment-IsOutputs renames parts _ (start projects)))
      where
        start :
            (b : Bool) → IsOutputs table (if b then no_outputs literal else outputs_of literal o)
        start true = no_outputs-IsOutputs
        start false = outputs_of-IsOutputs

    apply_operator-IsOneTable :
        (part : List Text) → Returns (IsOneTable table) (apply_operator literal o part)
    unfolding apply_operator
    apply_operator-IsOneTable [] = tt
    apply_operator-IsOneTable (op ∷ body) =
        Returns-if (IsOneTable table) (is_filter literal op) _ _ q (
          Returns-if (IsOneTable table)
            (contains op (codes "project" ∷ codes "extend" ∷ codes "project-rename" ∷ [])) _ _
            (apply_projection-IsOneTable (text_eq op (codes "project"))
              (text_eq op (codes "project-rename")) body)
            (Returns-if (IsOneTable table) (text_eq op (codes "project-away")) _ _
              (apply_away-IsOneTable body)
              (Returns-if (IsOneTable table) (text_eq op (codes "summarize")) _ _
                (apply_summarize-IsOneTable body)
                (Returns-if (IsOneTable table) (text_eq op (codes "distinct")) _ _
                  (apply_groups-IsOneTable body) tt))))

  pub apply_operators-IsOneTable :
      (parts : List (List Text)) (o : FieldOrigins)
      → IsOneTable table o
      → Returns (IsOneTable table) (apply_operators literal o parts)
  unfolding apply_operators
  apply_operators-IsOneTable [] o q = q
  apply_operators-IsOneTable (part ∷ parts) o q =
      Returns-bind (IsOneTable table) (IsOneTable table) (apply_operator literal o part) _
        (apply_operator-IsOneTable o q part) (λ next k. apply_operators-IsOneTable parts next k)
