-- ===== src/SchemaGraph/Adjacency/Added.antt =====
-- The steps that `_adjacency` of schema_graph/traversal.py puts into its lists.
use mathlib.Core.Path.{subst}
use mathlib.Core.Option.{some-injective}
use m365_xdr_cli.Base.{
  ◌≡◌, refl, sym, inl, inr, Bool, true, false, ◌&&◌, ◌||◌, some, List, [], ◌∷◌, ◌++◌, map, Text,
  text_eq, arith, Among, All, All-append, All-within, Bool-cases, >>=-eq-some,
}
use m365_xdr_cli.Base.Dict.{
  Dict, lookup_or, lookup, lookup_or-insert, lookup_or-nil, values, insert,
}
use m365_xdr_cli.Base.Sort.{sort_by, All-sort_by, lex_leb}
use m365_xdr_cli.SchemaGraph.Model.{Graph, RelationshipRecord, FieldLocator}
use m365_xdr_cli.SchemaGraph.Step.{GraphStep}
use m365_xdr_cli.SchemaGraph.Adjacency.{
  directions, Availability, step, add_directions, left_out, add_relationships, step_leb, adjacency,
}

module _ (show : FieldLocator → Text) (graph : Graph) (a : Availability)
    (include_candidates include_unavailable : Bool) where
  -- A step from `source` along a relationship of the graph that is not left out.
  pub record IsAdded (source : Text) (s : GraphStep) : Type 0 where
    pub relationship : RelationshipRecord
    pub target : Text
    pub among : Among relationship (values graph.relationships)
    pub used : left_out show graph a include_candidates include_unavailable relationship ≡ false
    pub direction : Among (source, target) (directions relationship)
    pub built : step show graph a relationship source target ≡ some s
    pub reachable : (include_unavailable || (s.source_available && s.target_available)) ≡ true

  abbrev AllAdded : Dict (List GraphStep) → Type 0
  AllAdded d = (source : Text) → All (IsAdded source) (lookup_or source d [])

  append-AllAdded :
      (source : Text) (s : GraphStep) (d : Dict (List GraphStep))
      → IsAdded source s
      → AllAdded d
      → AllAdded (insert source (lookup_or source d [] ++ (s ∷ [])) d)
  append-AllAdded source s d h all other =
      rw (lookup_or-insert other source (lookup_or source d [] ++ (s ∷ [])) [] d)
        (elim (Bool-cases (text_eq other source)) [
          | inl y ↦
              let same : other ≡ source = ground arith in
              rw y (
                subst (λ (x : Text). All (IsAdded x) (lookup_or source d [] ++ (s ∷ []))) (sym same)
                  (All-append (IsAdded source) (lookup_or source d []) (s ∷ []) (all source)
                    (h, tt)))
          | inr n ↦ rw n (all other)
        ])

  add_directions-AllAdded :
      (r : RelationshipRecord) (pairs : List (Text × Text)) (d e : Dict (List GraphStep))
      → Among r (values graph.relationships)
      → left_out show graph a include_candidates include_unavailable r ≡ false
      → ((p : Text × Text) → Among p pairs → Among p (directions r))
      → AllAdded d
      → add_directions show graph a include_candidates include_unavailable r pairs d ≡ some e
      → AllAdded e
  unfolding add_directions
  add_directions-AllAdded r [] d e m u within all h = subst AllAdded (some-injective d e h) all
  add_directions-AllAdded r ((source, target) ∷ rest) d e m u within all h =
      let (s, built, more) = >>=-eq-some (step show graph a r source target) _ h in
      elim (Bool-cases (include_unavailable || (s.source_available && s.target_available))) [
        | inl y ↦
            add_directions-AllAdded r rest _ e m u (λ p k. within p (inr k))
              (append-AllAdded source s d
                (record {
                  relationship = r;
                  target = target;
                  among = m;
                  used = u;
                  direction = within (source, target) (inl refl);
                  built = built;
                  reachable = y;
                })
                all)
              (rw y at more)
        | inr n ↦
            add_directions-AllAdded r rest d e m u (λ p k. within p (inr k)) all (rw n at more)
      ]

  add_relationships-AllAdded :
      (rs : List RelationshipRecord) (d e : Dict (List GraphStep))
      → All (λ (r : RelationshipRecord). Among r (values graph.relationships)) rs
      → AllAdded d
      → add_relationships show graph a include_candidates include_unavailable rs d ≡ some e
      → AllAdded e
  unfolding add_relationships
  add_relationships-AllAdded [] d e m all h = subst AllAdded (some-injective d e h) all
  add_relationships-AllAdded (r ∷ rest) d e (m, ms) all h =
      elim (Bool-cases (left_out show graph a include_candidates include_unavailable r)) [
        | inl y ↦ add_relationships-AllAdded rest d e ms all (rw y at h)
        | inr n ↦
            let (next, f, more) =
              >>=-eq-some
                (add_directions show graph a include_candidates include_unavailable r (directions r)
                  d)
                _ (rw n at h) in
            add_relationships-AllAdded rest next e ms
              (add_directions-AllAdded r (directions r) d next m n (λ p k. k) all f) more
      ]

  -- The steps of one interpretation, sorted.
  pub lookup_or-map :
      (f : List GraphStep → List GraphStep) (source : Text) (d : Dict (List GraphStep))
      → f [] ≡ []
      → lookup_or source (map (λ (k, steps). (k, f steps)) d) [] ≡ f (lookup_or source d [])
  unfolding lookup_or lookup
  lookup_or-map f source [] z = sym z
  lookup_or-map f source ((k, steps) ∷ d) z = ground (arith, lookup_or-map f source d z)

  pub sort_by_nil : sort_by (step_leb show graph a include_candidates include_unavailable) [] ≡ []
  unfolding sort_by
  sort_by_nil = refl

  pub adjacency-IsAdded :
      (d : Dict (List GraphStep)) (source : Text)
      → adjacency show graph a include_candidates include_unavailable ≡ some d
      → All (IsAdded source) (lookup_or source d [])
  unfolding adjacency
  adjacency-IsAdded d source h =
      let relationships = values graph.relationships in
      let by_id : RelationshipRecord → RelationshipRecord → Bool = λ r q. lex_leb r.id q.id in
      let order = step_leb show graph a include_candidates include_unavailable in
      let (found, e, f) =
        >>=-eq-some
          (add_relationships show graph a include_candidates include_unavailable
            (sort_by by_id relationships) [])
          _ h in
      let listed =
        add_relationships-AllAdded (sort_by by_id relationships) [] found
          (All-sort_by by_id (λ (r : RelationshipRecord). Among r relationships) relationships
            (All-within (λ (r : RelationshipRecord). Among r relationships) relationships
              (λ r m. m)))
          none_added e in
      subst (λ (x : Dict (List GraphStep)). All (IsAdded source) (lookup_or source x []))
        (some-injective _ d f)
        (rw (lookup_or-map (sort_by order) source found sort_by_nil)
          (All-sort_by order (IsAdded source) (lookup_or source found []) (listed source)))
    where
      none_added : AllAdded []
      none_added other = rw (lookup_or-nil {V = List GraphStep} other []) tt
