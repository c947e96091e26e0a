-- ===== src/SchemaGraph/Model.antt =====
-- The records of src/xdr_cli/schema_graph/model.py that the traversal reads, and the field states of
-- effective.py. Free-form `extra` data is not modelled.
use m365_xdr_cli.Base.{Bool, true, false, List, Text}
use m365_xdr_cli.Base.Dict.{Dict}

pub data RelationshipKind : Type 0 where
  semantic_equivalent join_compatible transform_required bridge correlation_only : RelationshipKind

pub data RelationshipStatus : Type 0 where
  candidate observed validated reviewed deprecated reference_trusted : RelationshipStatus

pub data Direction : Type 0 where
  forward reverse both : Direction

pub data Cardinality : Type 0 where
  one_to_one one_to_many many_to_one many_to_many unknown : Cardinality

pub data Confidence : Type 0 where
  low medium high : Confidence

-- `FieldAvailability` of effective.py
pub data FieldAvailability : Type 0 where
  available outer_available_unobserved unavailable not_probed not_observed type_conflict :
      FieldAvailability

-- Membership in `QUERYABLE_AVAILABILITY`.
abbrev pub queryable : FieldAvailability → Bool
queryable available = true
queryable outer_available_unobserved = true
queryable _ = false

pub record FieldLocator : Type 0 where
  pub table : Text
  pub column : Text
  pub json_path : List Text

pub record FieldRecord : Type 0 where
  pub id : Text
  pub locator : FieldLocator

pub record InterpretationRecord : Type 0 where
  pub id : Text
  pub field_id : Text
  pub entity_kind : Text
  pub namespace : Text
  pub role : Text

pub record RelationshipRecord : Type 0 where
  pub id : Text
  pub source : Text
  pub target : Text
  pub relationship : RelationshipKind
  pub direction : Direction
  pub transform : Text
  pub cardinality : Cardinality
  pub temporal : Text
  pub status : RelationshipStatus
  pub confidence : Confidence
  pub provenance : List Text

pub record Graph : Type 0 where
  pub fields : Dict FieldRecord
  pub interpretations : Dict InterpretationRecord
  pub relationships : Dict RelationshipRecord
