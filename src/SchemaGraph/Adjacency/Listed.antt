-- ===== src/SchemaGraph/Adjacency/Listed.antt =====
-- Which steps `_adjacency` of schema_graph/traversal.py lists.
use m365_xdr_cli.Base.{
  ◌≡◌, ◌≢◌, refl, ◌⊎◌, inl, inr, Bool, true, false, ◌&&◌, ◌||◌, not, some, List, [], Text, &&-left,
  &&-right, Among, All, All-map,
}
use m365_xdr_cli.Base.Dict.{Dict, lookup_or, values}
use m365_xdr_cli.SchemaGraph.Model.{
  Graph, RelationshipRecord, FieldLocator, RelationshipStatus, candidate, deprecated,
  FieldAvailability,
}
use m365_xdr_cli.SchemaGraph.Step.{GraphStep}
use m365_xdr_cli.SchemaGraph.Adjacency.{
  Availability, left_out, is_deprecated, is_candidate, adjacency,
}
use m365_xdr_cli.SchemaGraph.Adjacency.Added.{IsAdded, adjacency-IsAdded}
use m365_xdr_cli.SchemaGraph.Adjacency.Steps.{IsQueryable, Tells, IsWay, IsStep}
use m365_xdr_cli.SchemaGraph.Adjacency.Built.{directions-IsWay, step-IsStep}

-- The relationship is used: it is not deprecated, and if it is a candidate, these were asked for.
abbrev pub IsUsed : Bool → RelationshipRecord → Type 0
IsUsed include_candidates r =
    (r.status ≢ deprecated) × ((r.status ≢ candidate) ⊎ (include_candidates ≡ true))

left_out-IsUsed :
    (include : Bool) (status : RelationshipStatus)
    → (is_deprecated status || (is_candidate status && not include)) ≡ false
    → (status ≢ deprecated) × ((status ≢ candidate) ⊎ (include ≡ true))
left_out-IsUsed true candidate h = (λ e. cc, inr refl)
left_out-IsUsed false candidate h = absurd (cc)
left_out-IsUsed include deprecated h = absurd (cc)
left_out-IsUsed include RelationshipStatus.observed h = (λ e. cc, inl (λ e. cc))
left_out-IsUsed include RelationshipStatus.validated h = (λ e. cc, inl (λ e. cc))
left_out-IsUsed include RelationshipStatus.reviewed h = (λ e. cc, inl (λ e. cc))
left_out-IsUsed include RelationshipStatus.reference_trusted h = (λ e. cc, inl (λ e. cc))

pub IsUsed-left_out :
    (include : Bool) (status : RelationshipStatus)
    → (status ≢ deprecated) × ((status ≢ candidate) ⊎ (include ≡ true))
    → (is_deprecated status || (is_candidate status && not include)) ≡ false
IsUsed-left_out true candidate h = refl
IsUsed-left_out false candidate (n, inl c) = absurd (c refl)
IsUsed-left_out false candidate (n, inr e) = absurd (cc)
IsUsed-left_out include deprecated (n, c) = absurd (n refl)
IsUsed-left_out include RelationshipStatus.observed h = refl
IsUsed-left_out include RelationshipStatus.validated h = refl
IsUsed-left_out include RelationshipStatus.reviewed h = refl
IsUsed-left_out include RelationshipStatus.reference_trusted h = refl

either : (b x y : Bool) → (b || (x && y)) ≡ true → (b ≡ true) ⊎ ((x ≡ true) × (y ≡ true))
either true x y h = inl refl
either false x y h = inr (&&-left x y h, &&-right x y h)

told-IsQueryable :
    (flag : Bool) (state : FieldAvailability) → Tells flag state → flag ≡ true → IsQueryable state
told-IsQueryable flag state (inl (e, q)) h = q
told-IsQueryable flag state (inr (e, n)) h = absurd (cc)

module _ (show : FieldLocator → Text) (graph : Graph) (a : Availability)
    (include_candidates include_unavailable : Bool) where
  -- A step that may be listed for an interpretation.
  pub record IsListed (source : Text) (s : GraphStep) : Type 0 where
    pub relationship : RelationshipRecord
    pub target : Text
    pub among : Among relationship (values graph.relationships)
    pub used : IsUsed include_candidates relationship
    pub way : IsWay relationship source target
    pub built : IsStep show graph a relationship source target s
    pub reachable :
        (include_unavailable ≡ true)
        ⊎ (IsQueryable s.source_availability × IsQueryable s.target_availability)

  IsAdded-IsListed :
      (source : Text) (s : GraphStep)
      → IsAdded show graph a include_candidates include_unavailable source s
      → IsListed source s
  unfolding left_out
  IsAdded-IsListed source s h =
      let built = step-IsStep show graph a h.relationship source h.target s h.built in
      record {
        relationship = h.relationship;
        target = h.target;
        among = h.among;
        used = left_out-IsUsed include_candidates h.relationship.status h.used;
        way = directions-IsWay h.relationship source h.target h.direction;
        built = built;
        reachable =
            elim (either include_unavailable s.source_available s.target_available h.reachable) [
              | inl y ↦ inl y
              | inr (x, y) ↦ inr (
                told-IsQueryable s.source_available s.source_availability built.source_told x,
                told-IsQueryable s.target_available s.target_availability built.target_told y,
              )
            ];
      }

  -- For every step that `_adjacency` lists for an interpretation there is a relationship of the graph,
  -- neither deprecated nor a candidate that was not asked for, that leads from that interpretation to
  -- the step's target, as it is written unless its direction is reverse, and against that unless it is
  -- forward. The step has the data of the relationship, its cardinality turned where it is read from its
  -- target, and at each end the locator, entity, namespace and role of the interpretation there and the
  -- state of its field; its flags tell whether these states can be queried and whether the relationship
  -- is a candidate; and both ends can be queried unless unavailable ones were asked for.
  pub adjacency-IsListed :
      (d : Dict (List GraphStep)) (source : Text)
      → adjacency show graph a include_candidates include_unavailable ≡ some d
      → All (IsListed source) (lookup_or source d [])
  adjacency-IsListed d source h =
      All-map (IsAdded show graph a include_candidates include_unavailable source) (IsListed source)
        (lookup_or source d []) (IsAdded-IsListed source)
        (adjacency-IsAdded show graph a include_candidates include_unavailable d source h)
