-- ===== src/Tests/Listing.antt =====
-- The steps of a graph with a validated and a deprecated relationship.
use m365_xdr_cli.Base.{refl, inl, false, none, List, [], ◌∷◌, Text, codes, All, Text-discrete}
use m365_xdr_cli.Base.Dict.{Dict, lookup, lookup_or, insert}
use m365_xdr_cli.Base.Sort.{sort_by, insert_sorted, lex_leb}
use m365_xdr_cli.SchemaGraph.Model.{
  Graph, RelationshipRecord, RelationshipStatus, InterpretationRecord, FieldRecord, FieldLocator,
  join_compatible, both, one_to_many, high, validated, deprecated,
}
use m365_xdr_cli.SchemaGraph.Step.{GraphStep}
use m365_xdr_cli.SchemaGraph.Adjacency.{
  Availability, directions, field_state, build_step, step, add_directions, left_out,
  add_relationships, adjacency,
}
use m365_xdr_cli.SchemaGraph.Adjacency.Steps.{IsStep, IsWay}
use m365_xdr_cli.SchemaGraph.Adjacency.Complete.{IsThere, adjacency_complete}
use m365_xdr_cli.SchemaGraph.Adjacency.Listed.{IsListed, adjacency-IsListed}

abbrev account : Text → Text → InterpretationRecord
account id field_id = record {
  id = id;
  field_id = field_id;
  entity_kind = codes "account";
  namespace = codes "sid";
  role = codes "actor";
}

abbrev column : Text → Text → FieldRecord
column id table = record {
  id = id;
  locator = record { table = table; column = codes "AccountSid"; json_path = [] };
}

abbrev joined : Text → RelationshipStatus → RelationshipRecord
joined id status = record {
  id = id;
  source = codes "a";
  target = codes "b";
  relationship = join_compatible;
  direction = both;
  transform = codes "identity";
  cardinality = one_to_many;
  temporal = codes "same-event";
  status = status;
  confidence = high;
  provenance = [];
}

abbrev two_tables : Graph
two_tables = record {
  fields =
      (codes "f", column (codes "f") (codes "DeviceLogonEvents"))
      ∷ (codes "g", column (codes "g") (codes "IdentityInfo"))
      ∷ [];
  interpretations =
      (codes "a", account (codes "a") (codes "f"))
      ∷ (codes "b", account (codes "b") (codes "g"))
      ∷ [];
  relationships =
      (codes "r1", joined (codes "r1") validated)
      ∷ (codes "r2", joined (codes "r2") deprecated)
      ∷ [];
}

abbrev table_only : FieldLocator → Text
table_only locator = locator.table

abbrev anything : Availability
anything = record { available_fields = none; field_availability = none }

abbrev between : Text → Text → Text → Text → GraphStep
between source field target other =
    build_step table_only two_tables anything (joined (codes "r1") validated) (account source field)
      (account target other) (column field (codes "DeviceLogonEvents"))
      (column other (codes "IdentityInfo")) source target

abbrev back : GraphStep
back =
    build_step table_only two_tables anything (joined (codes "r1") validated)
      (account (codes "b") (codes "g")) (account (codes "a") (codes "f"))
      (column (codes "g") (codes "IdentityInfo")) (column (codes "f") (codes "DeviceLogonEvents"))
      (codes "b") (codes "a")

abbrev two_ways : Dict (List GraphStep)
two_ways =
    (codes "a", between (codes "a") (codes "f") (codes "b") (codes "g") ∷ [])
    ∷ (codes "b", back ∷ [])
    ∷ []

adjacency-IsListed_example :
    All
      (IsListed table_only two_tables anything false false (codes "b"))
      (lookup_or (codes "b") two_ways [])
unfolding lookup lookup_or insert sort_by insert_sorted lex_leb directions field_state build_step
    step add_directions left_out add_relationships adjacency Text-discrete
adjacency-IsListed_example =
    adjacency-IsListed table_only two_tables anything false false two_ways (codes "b") refl

adjacency_complete_example :
    (s : GraphStep) × IsStep table_only two_tables anything
      (joined (codes "r1") validated)
      (codes "b")
      (codes "a")
      s
    × IsThere table_only two_tables anything false false (codes "b") two_ways s
unfolding lookup lookup_or insert sort_by insert_sorted lex_leb directions field_state build_step
    step add_directions left_out add_relationships adjacency Text-discrete
adjacency_complete_example =
    adjacency_complete table_only two_tables anything false false two_ways
      (joined (codes "r1") validated) (codes "b") (codes "a") refl (inl refl)
      ((λ e. cc), inl (λ e. cc)) (IsWay.back (λ e. cc) refl refl)
