-- ===== src/SchemaGraph/Adjacency.antt =====
-- `_directions`, `_step` and `_adjacency` of src/xdr_cli/schema_graph/traversal.py: the steps that
-- leave each interpretation. `none` is the `KeyError` of a relationship or interpretation that
-- refers to a missing record.
pub mod Added
pub mod Steps
pub mod Built
pub mod Listed
pub mod Complete
use m365_xdr_cli.Base.{
  Bool, true, false, ◌&&◌, ◌||◌, not, Option, none, some, List, [], ◌∷◌, ◌++◌, map, Text, text_eq,
  contains, if◌then◌else◌, ◌>>=◌,
}
use m365_xdr_cli.Base.Dict.{Dict, lookup, lookup_or, insert, values}
use m365_xdr_cli.Base.Sort.{sort_by, lex_leb, then_leb}
use m365_xdr_cli.SchemaGraph.Model.{
  Graph, RelationshipRecord, InterpretationRecord, FieldRecord, FieldLocator, RelationshipStatus,
  candidate, deprecated, forward, reverse, both, Cardinality, one_to_many, many_to_one,
  FieldAvailability, available, unavailable, queryable,
}
use m365_xdr_cli.SchemaGraph.Step.{GraphStep, step_rank}

-- `_directions`
unfoldable pub directions : RelationshipRecord → List (Text × Text)
directions r = elim r.direction [
  | both ↦ (r.source, r.target) ∷ (r.target, r.source) ∷ []
  | forward ↦ (r.source, r.target) ∷ []
  | reverse ↦ (r.target, r.source) ∷ []
]

-- The optional arguments `available_fields` and `field_availability`.
pub record Availability : Type 0 where
  pub available_fields : Option (List Text)
  pub field_availability : Option (Dict FieldAvailability)

-- `state`, the inner function of `_step`
unfoldable pub field_state : Availability → Text → FieldAvailability
field_state a field_id = elim a.field_availability [
  | some table ↦ lookup_or field_id table unavailable
  | none ↦ elim a.available_fields [
    | none ↦ available
    | some fields ↦ if contains field_id fields then available else unavailable
  ]
]

-- The cardinality read against the direction of the relationship.
unfoldable pub reversed : Cardinality → Cardinality
reversed one_to_many = many_to_one
reversed many_to_one = one_to_many
reversed c = c

abbrev pub is_candidate : RelationshipStatus → Bool
is_candidate candidate = true
is_candidate _ = false

abbrev pub is_deprecated : RelationshipStatus → Bool
is_deprecated deprecated = true
is_deprecated _ = false

-- `show` is `str` of a locator.
module _ (show : FieldLocator → Text) (graph : Graph) (a : Availability) where
  -- The record that `_step` returns, from the records that it looks up.
  unfoldable pub build_step :
      RelationshipRecord
      → InterpretationRecord
      → InterpretationRecord
      → FieldRecord
      → FieldRecord
      → Text
      → Text
      → GraphStep
  build_step r si ti sf tf source target =
      let ahead = text_eq source r.source in
      let source_state = field_state a sf.id in
      let target_state = field_state a tf.id in
      record {
        source_interpretation = source;
        target_interpretation = target;
        source_locator = show sf.locator;
        target_locator = show tf.locator;
        relationship_id = r.id;
        relationship = r.relationship;
        relationship_direction = r.direction;
        traversal_direction = if ahead then forward else reverse;
        transform = r.transform;
        cardinality = if ahead then r.cardinality else reversed r.cardinality;
        temporal = r.temporal;
        confidence = r.confidence;
        provenance = r.provenance;
        source_entity_kind = si.entity_kind;
        source_namespace = si.namespace;
        source_role = si.role;
        target_entity_kind = ti.entity_kind;
        target_namespace = ti.namespace;
        target_role = ti.role;
        evidence_level = r.status;
        candidate = is_candidate r.status;
        source_available = queryable source_state;
        target_available = queryable target_state;
        source_availability = source_state;
        target_availability = target_state;
      }

  -- `_step`
  unfoldable pub step : RelationshipRecord → Text → Text → Option GraphStep
  unfolding build_step
  step r source target = do
    si ← lookup source graph.interpretations
    ti ← lookup target graph.interpretations
    sf ← lookup si.field_id graph.fields
    tf ← lookup ti.field_id graph.fields
    some (build_step r si ti sf tf source target)

  -- The flags of `_adjacency`.
  module _ (include_candidates include_unavailable : Bool) where
    -- `adjacency.setdefault(source, []).append(step)`
    abbrev append_step : Text → GraphStep → Dict (List GraphStep) → Dict (List GraphStep)
    append_step source s adjacency =
        insert source (lookup_or source adjacency [] ++ (s ∷ [])) adjacency

    -- The loop over the directions of one relationship.
    unfoldable pub add_directions :
        RelationshipRecord
        → List (Text × Text)
        → Dict (List GraphStep)
        → Option (Dict (List GraphStep))
    add_directions r [] adjacency = some adjacency
    add_directions r ((source, target) ∷ rest) adjacency = do
      s ← step r source target
      add_directions r rest (
          if include_unavailable || (s.source_available && s.target_available)
          then append_step source s adjacency
          else adjacency)

    -- The relationships that the search leaves out.
    unfoldable pub left_out : RelationshipRecord → Bool
    left_out r = is_deprecated r.status || (is_candidate r.status && not include_candidates)

    unfoldable pub add_relationships :
        List RelationshipRecord → Dict (List GraphStep) → Option (Dict (List GraphStep))
    add_relationships [] adjacency = some adjacency
    add_relationships (r ∷ rest) adjacency = do
      next ← if left_out r then some adjacency else add_directions r (directions r) adjacency
      add_relationships rest next

    -- The order of the steps that leave one interpretation.
    unfoldable pub step_leb : GraphStep → GraphStep → Bool
    step_leb s t = then_leb (step_rank s) (step_rank t) (
        then_leb s.relationship_id t.relationship_id
          (lex_leb s.target_interpretation t.target_interpretation))

    -- `_adjacency`
    unfoldable pub adjacency : Option (Dict (List GraphStep))
    adjacency = do
      found ← add_relationships (sort_by (λ r q. lex_leb r.id q.id) (values graph.relationships)) []
      some (map (λ (source, steps). (source, sort_by step_leb steps)) found)
