-- ===== src/SchemaGraph/Adjacency/Steps.antt =====
-- What a step of `_adjacency` of schema_graph/traversal.py is, described without its functions.
use m365_xdr_cli.Base.{◌≡◌, ◌≢◌, ◌⊎◌, Bool, true, false, none, some, List, Text, Among}
use m365_xdr_cli.Base.Dict.{Dict, lookup}
use m365_xdr_cli.SchemaGraph.Model.{
  Graph, RelationshipRecord, InterpretationRecord, FieldRecord, FieldLocator, RelationshipStatus,
  candidate, forward, reverse, Cardinality, one_to_one, one_to_many, many_to_one, many_to_many,
  unknown, FieldAvailability, available, outer_available_unobserved, unavailable,
}
use m365_xdr_cli.SchemaGraph.Step.{GraphStep}
use m365_xdr_cli.SchemaGraph.Adjacency.{Availability}

-- The state of a field: the one in the table of states, or whether it is among the known fields.
pub data HasState (a : Availability) (id : Text) (state : FieldAvailability) : Type 0 where
  stated :
      (table : Dict FieldAvailability)
      → a.field_availability ≡ some table
      → lookup id table ≡ some state
      → HasState a id state
  not_stated :
      (table : Dict FieldAvailability)
      → a.field_availability ≡ some table
      → lookup id table ≡ none
      → state ≡ unavailable
      → HasState a id state
  assumed :
      a.field_availability ≡ none
      → a.available_fields ≡ none
      → state ≡ available
      → HasState a id state
  known :
      (fields : List Text)
      → a.field_availability ≡ none
      → a.available_fields ≡ some fields
      → Among id fields
      → state ≡ available
      → HasState a id state
  not_known :
      (fields : List Text)
      → a.field_availability ≡ none
      → a.available_fields ≡ some fields
      → ¬ Among id fields
      → state ≡ unavailable
      → HasState a id state

-- The field can be queried, whether or not it was observed.
abbrev pub IsQueryable : FieldAvailability → Type 0
IsQueryable state = (state ≡ available) ⊎ (state ≡ outer_available_unobserved)

-- The flag tells whether the field can be queried.
abbrev pub Tells : Bool → FieldAvailability → Type 0
Tells flag state = ((flag ≡ true) × IsQueryable state) ⊎ ((flag ≡ false) × ¬ IsQueryable state)

-- A cardinality, read from the other end.
pub data IsFlip : Cardinality → Cardinality → Type 0 where
  single : IsFlip one_to_one one_to_one
  split : IsFlip one_to_many many_to_one
  merged : IsFlip many_to_one one_to_many
  many : IsFlip many_to_many many_to_many
  open_ended : IsFlip unknown unknown

-- The relationship leads from the source to the target: as it is written, against that, or, where both
-- ends are the same, back to where it started.
pub data IsWay (r : RelationshipRecord) (source target : Text) : Type 0 where
  ahead : r.direction ≢ reverse → source ≡ r.source → target ≡ r.target → IsWay r source target
  back : r.direction ≢ forward → source ≡ r.target → target ≡ r.source → IsWay r source target

-- How the step reads the relationship.
pub data IsReading (r : RelationshipRecord) (source : Text) (s : GraphStep) : Type 0 where
  as_written :
      source ≡ r.source
      → s.traversal_direction ≡ forward
      → s.cardinality ≡ r.cardinality
      → IsReading r source s
  turned :
      source ≢ r.source
      → s.traversal_direction ≡ reverse
      → IsFlip r.cardinality s.cardinality
      → IsReading r source s

-- Equality with a status, as a flag.
abbrev pub IsMark : Bool → RelationshipStatus → Type 0
IsMark flag status =
    ((flag ≡ true) × (status ≡ candidate)) ⊎ ((flag ≡ false) × (status ≢ candidate))

module _ (show : FieldLocator → Text) (graph : Graph) (a : Availability) where
  -- An end of a step: an interpretation of the graph, its field, and what is known of the field.
  pub record IsEnd (name locator kind namespace role : Text) (state : FieldAvailability)
      : Type 0 where
    pub interpretation : InterpretationRecord
    pub field : FieldRecord
    pub found : lookup name graph.interpretations ≡ some interpretation
    pub field_found : lookup interpretation.field_id graph.fields ≡ some field
    pub located : locator ≡ show field.locator
    pub entity : kind ≡ interpretation.entity_kind
    pub spaced : namespace ≡ interpretation.namespace
    pub cast : role ≡ interpretation.role
    pub known : HasState a field.id state

  -- The step of a relationship between two interpretations.
  pub record IsStep (r : RelationshipRecord) (source target : Text) (s : GraphStep) : Type 0 where
    pub from : s.source_interpretation ≡ source
    pub to : s.target_interpretation ≡ target
    pub source_end :
        IsEnd source s.source_locator s.source_entity_kind s.source_namespace s.source_role
          s.source_availability
    pub target_end :
        IsEnd target s.target_locator s.target_entity_kind s.target_namespace s.target_role
          s.target_availability
    pub source_told : Tells s.source_available s.source_availability
    pub target_told : Tells s.target_available s.target_availability
    pub reading : IsReading r source s
    pub marked : IsMark s.candidate r.status
    pub identified : s.relationship_id ≡ r.id
    pub kind : s.relationship ≡ r.relationship
    pub way : s.relationship_direction ≡ r.direction
    pub evidence : s.evidence_level ≡ r.status
    pub transform : s.transform ≡ r.transform
    pub temporal : s.temporal ≡ r.temporal
    pub confidence : s.confidence ≡ r.confidence
    pub provenance : s.provenance ≡ r.provenance
