-- ===== src/SchemaGraph/Step.antt =====
-- `GraphStep` and `GraphPath` of src/xdr_cli/schema_graph/traversal.py: the preference of a step and
-- of a path.
pub mod Rank
use Prim.Native.Nat.{max}
use m365_xdr_cli.Base.{
  ℕ, ◌+◌, ◌*◌, ◌==◌, Bool, true, false, ◌&&◌, ◌||◌, not, List, [], ◌∷◌, length, Text, codes,
  text_eq, all, if◌then◌else◌,
}
use m365_xdr_cli.SchemaGraph.Model.{
  RelationshipKind, semantic_equivalent, join_compatible, transform_required, bridge,
  correlation_only, RelationshipStatus, candidate, observed, validated, reviewed, deprecated,
  reference_trusted, Direction, Cardinality, one_to_one, one_to_many, many_to_one, many_to_many,
  unknown, Confidence, low, medium, high, FieldAvailability, outer_available_unobserved,
}

-- The fields of a step, without the reference routes and discoveries that it only carries along.
pub record GraphStep : Type 0 where
  pub source_interpretation : Text
  pub target_interpretation : Text
  pub source_locator : Text
  pub target_locator : Text
  pub relationship_id : Text
  pub relationship : RelationshipKind
  pub relationship_direction : Direction
  pub traversal_direction : Direction
  pub transform : Text
  pub cardinality : Cardinality
  pub temporal : Text
  pub confidence : Confidence
  pub provenance : List Text
  pub source_entity_kind : Text
  pub source_namespace : Text
  pub source_role : Text
  pub target_entity_kind : Text
  pub target_namespace : Text
  pub target_role : Text
  pub evidence_level : RelationshipStatus
  pub candidate : Bool
  pub source_available : Bool
  pub target_available : Bool
  pub source_availability : FieldAvailability
  pub target_availability : FieldAvailability

-- `_RELATION_WEIGHT`
unfoldable pub relation_weight : RelationshipKind → ℕ
relation_weight join_compatible = 0
relation_weight semantic_equivalent = 10
relation_weight transform_required = 20
relation_weight bridge = 30
relation_weight correlation_only = 40

-- `_CONFIDENCE_PENALTY`
unfoldable pub confidence_penalty : Confidence → ℕ
confidence_penalty high = 0
confidence_penalty medium = 5
confidence_penalty low = 10

-- `_CARDINALITY_PENALTY`
unfoldable pub cardinality_penalty : Cardinality → ℕ
cardinality_penalty one_to_one = 0
cardinality_penalty one_to_many = 1
cardinality_penalty many_to_one = 1
cardinality_penalty many_to_many = 8
cardinality_penalty unknown = 10

-- `int(flag)`
abbrev pub flag : Bool → ℕ
flag true = 1
flag false = 0

-- Membership in `_LOSSY_TRANSFORMS`.
unfoldable pub lossy : Text → Bool
lossy transform = text_eq transform (codes "url-canonical")

abbrev is_observed : RelationshipStatus → Bool
is_observed observed = true
is_observed _ = false

abbrev is_low : Confidence → Bool
is_low low = true
is_low _ = false

abbrev is_unobserved : FieldAvailability → Bool
is_unobserved outer_available_unobserved = true
is_unobserved _ = false

-- The table of `evidence_rank`, 4 for any level that it does not list.
abbrev level_rank : RelationshipStatus → ℕ
level_rank validated = 0
level_rank observed = 1
level_rank reviewed = 2
level_rank reference_trusted = 3
level_rank candidate = 4
level_rank deprecated = 4

-- `GraphStep.evidence_rank`
unfoldable pub evidence_rank : GraphStep → ℕ
evidence_rank s =
    if is_observed s.evidence_level && is_low s.confidence then 2 else level_rank s.evidence_level

-- The evidence part of `weight`, indexed by the evidence rank.
abbrev evidence_weight : ℕ → ℕ
evidence_weight r =
    if r == 0 then 0 else if r == 1 then 20 else if r == 2 then 60 else if r == 3 then 80 else 100

unfoldable pub step_unavailable : GraphStep → Bool
step_unavailable s = not s.source_available || not s.target_available

unfoldable pub unobserved_ends : GraphStep → ℕ
unobserved_ends s =
    flag (is_unobserved s.source_availability) + flag (is_unobserved s.target_availability)

unfoldable pub temporal_unknown : GraphStep → Bool
temporal_unknown s = text_eq s.temporal (codes "unknown")

-- `GraphStep.weight`
unfoldable pub step_weight : GraphStep → ℕ
step_weight s =
    relation_weight s.relationship
    + (if step_unavailable s then 50 else 0)
    + 15 * unobserved_ends s
    + evidence_weight (evidence_rank s)
    + (if lossy s.transform then 10 else 0)
    + cardinality_penalty s.cardinality
    + confidence_penalty s.confidence
    + (if temporal_unknown s then 5 else 0)

-- `GraphStep.rank`
unfoldable pub step_rank : GraphStep → List ℕ
step_rank s =
    evidence_rank s
    ∷ relation_weight s.relationship
    ∷ flag (lossy s.transform)
    ∷ cardinality_penalty s.cardinality
    ∷ flag (step_unavailable s)
    ∷ unobserved_ends s
    ∷ confidence_penalty s.confidence
    ∷ flag (temporal_unknown s)
    ∷ []

-- `max(f(step) for step in steps)`, which raises for no steps and is 0 here: the steps of a `GraphPath`
-- are never none. Then `sum(f(step) for step in steps)`.
abbrev pub max_of : (GraphStep → ℕ) → List GraphStep → ℕ
max_of f [] = 0
max_of f (s ∷ rest) = max (f s) (max_of f rest)

abbrev pub sum_of : (GraphStep → ℕ) → List GraphStep → ℕ
sum_of f [] = 0
sum_of f (s ∷ rest) = f s + sum_of f rest

-- `step.cardinality in {"many-to-many", "unknown"}`
abbrev wide : Cardinality → Bool
wide many_to_many = true
wide unknown = true
wide _ = false

-- `GraphPath.weight`
unfoldable pub path_weight : List GraphStep → ℕ
path_weight steps = sum_of step_weight steps

-- `GraphPath.rank`
unfoldable pub path_rank : List GraphStep → List ℕ
path_rank steps =
    max_of evidence_rank steps
    ∷ max_of (λ s. relation_weight s.relationship) steps
    ∷ sum_of (λ s. relation_weight s.relationship) steps
    ∷ length steps
    ∷ sum_of (λ s. flag (lossy s.transform)) steps
    ∷ sum_of (λ s. flag (wide s.cardinality)) steps
    ∷ sum_of (λ s. flag (step_unavailable s)) steps
    ∷ sum_of (λ s. confidence_penalty s.confidence) steps
    ∷ sum_of (λ s. flag (temporal_unknown s)) steps
    ∷ []

abbrev is_join : RelationshipKind → Bool
is_join join_compatible = true
is_join _ = false

-- `GraphPath.direct_join`
unfoldable pub direct_join : List GraphStep → Bool
direct_join (s ∷ []) = is_join s.relationship
direct_join _ = false

-- `GraphPath.all_steps_join_compatible`
unfoldable pub all_steps_join_compatible : List GraphStep → Bool
all_steps_join_compatible [] = false
all_steps_join_compatible (s ∷ rest) = all (λ t. is_join t.relationship) (s ∷ rest)

pub data RouteKind : Type 0 where
  direct multi_hop sequential_pivot : RouteKind

-- `GraphPath.route_kind`
unfoldable pub route_kind : List GraphStep → RouteKind
unfolding direct_join all_steps_join_compatible
route_kind steps =
    if direct_join steps
    then direct
    else if all_steps_join_compatible steps
    then multi_hop
    else sequential_pivot
