-- ===== src/SchemaGraph/Adjacency/Complete.antt =====
-- That no step is missing from the lists of `_adjacency` of schema_graph/traversal.py.
use mathlib.Core.Path.{subst}
use mathlib.Core.Option.{some-injective}
use m365_xdr_cli.Base.{
  ◌≡◌, refl, sym, ap, ◌∙◌, ◌⊎◌, inl, inr, Bool, true, false, ◌&&◌, ◌||◌, some, List, [], ◌∷◌, ◌++◌,
  map, Text, text_eq, text_eq_sound, text_eq_self, Among, Among-append, Bool-cases, >>=-eq-some,
  if◌then◌else◌,
}
use m365_xdr_cli.Base.Dict.{Dict, lookup_or, lookup_or-insert, values, insert}
use m365_xdr_cli.Base.Sort.{sort_by, Among-sort_by, lex_leb}
use m365_xdr_cli.SchemaGraph.Model.{Graph, RelationshipRecord, FieldLocator, FieldAvailability}
use m365_xdr_cli.SchemaGraph.Step.{GraphStep}
use m365_xdr_cli.SchemaGraph.Adjacency.{
  directions, Availability, step, add_directions, left_out, add_relationships, step_leb, adjacency,
}
use m365_xdr_cli.SchemaGraph.Adjacency.Added.{lookup_or-map, sort_by_nil}
use m365_xdr_cli.SchemaGraph.Adjacency.Steps.{IsQueryable, Tells, IsWay, IsStep}
use m365_xdr_cli.SchemaGraph.Adjacency.Built.{IsWay-directions, step-IsStep}
use m365_xdr_cli.SchemaGraph.Adjacency.Listed.{IsUsed, IsUsed-left_out}

not_told :
    (flag : Bool) (state : FieldAvailability)
    → Tells flag state
    → flag ≡ false
    → ¬ IsQueryable state
not_told flag state (inl (e, q)) h = absurd (cc)
not_told flag state (inr (e, n)) h = n

neither : (b x y : Bool) → (b || (x && y)) ≡ false → (b ≡ false) × ((x ≡ false) ⊎ (y ≡ false))
neither true x y h = absurd (cc)
neither false false y h = (refl, inl refl)
neither false true y h = (refl, inr h)

-- What is listed stays listed.
abbrev Keeps : Dict (List GraphStep) → Dict (List GraphStep) → Type 0
Keeps d e = (k : Text) (s : GraphStep) → Among s (lookup_or k d []) → Among s (lookup_or k e [])

appended : Text → GraphStep → Dict (List GraphStep) → Dict (List GraphStep)
appended source s d = insert source (lookup_or source d [] ++ (s ∷ [])) d

append-Keeps :
    (source : Text) (s : GraphStep) (d : Dict (List GraphStep)) → Keeps d (appended source s d)
unfolding appended
append-Keeps source s d k t m =
    rw (lookup_or-insert k source (lookup_or source d [] ++ (s ∷ [])) [] d)
      (elim (Bool-cases (text_eq k source)) [
        | inl y ↦ rw y (
            Among-append t (lookup_or source d []) (s ∷ [])
              (inl (subst (λ (x : Text). Among t (lookup_or x d [])) (text_eq_sound k source y) m)))
        | inr n ↦ rw n m
      ])

append-Among :
    (source : Text) (s : GraphStep) (d : Dict (List GraphStep))
    → Among s (lookup_or source (appended source s d) [])
unfolding appended
append-Among source s d =
    rw
      (lookup_or-insert source source (lookup_or source d [] ++ (s ∷ [])) [] d, text_eq_self source)
      (Among-append s (lookup_or source d []) (s ∷ []) (inr (inl refl)))

module _ (show : FieldLocator → Text) (graph : Graph) (a : Availability)
    (include_candidates include_unavailable : Bool) where
  -- The step is in the list of its source, or unavailable steps are left out, and an end of it cannot be
  -- queried.
  pub data IsThere (source : Text) (d : Dict (List GraphStep)) (s : GraphStep) : Type 0 where
    listed : Among s (lookup_or source d []) → IsThere source d s
    unavailable_source :
        include_unavailable ≡ false → ¬ IsQueryable s.source_availability → IsThere source d s
    unavailable_target :
        include_unavailable ≡ false → ¬ IsQueryable s.target_availability → IsThere source d s

  IsThere-Keeps :
      (source : Text) (d e : Dict (List GraphStep)) (s : GraphStep)
      → Keeps d e
      → IsThere source d s
      → IsThere source e s
  IsThere-Keeps source d e s k (listed m) = listed (k source s m)
  IsThere-Keeps source d e s k (unavailable_source u q) = unavailable_source u q
  IsThere-Keeps source d e s k (unavailable_target u q) = unavailable_target u q

  -- What one round of the loop over the directions makes of the lists.
  abbrev after : Text → GraphStep → Dict (List GraphStep) → Dict (List GraphStep)
  after source s d =
      if include_unavailable || (s.source_available && s.target_available)
      then insert source (lookup_or source d [] ++ (s ∷ [])) d
      else d

  after-Keeps :
      (source : Text) (s : GraphStep) (d : Dict (List GraphStep)) → Keeps d (after source s d)
  unfolding appended
  after-Keeps source s d = go (include_unavailable || (s.source_available && s.target_available))
    where
      go :
          (b : Bool)
          → Keeps d (if b then insert source (lookup_or source d [] ++ (s ∷ [])) d else d)
      go true = append-Keeps source s d
      go false = λ k t m. m

  after-IsThere :
      (r : RelationshipRecord) (source target : Text) (s : GraphStep) (d : Dict (List GraphStep))
      → IsStep show graph a r source target s
      → IsThere source (after source s d) s
  unfolding appended
  after-IsThere r source target s d i =
      elim (Bool-cases (include_unavailable || (s.source_available && s.target_available))) [
        | inl y ↦ rw y (listed (append-Among source s d))
        | inr n ↦
            let (u, which) = neither include_unavailable s.source_available s.target_available n in
            elim which [
              | inl x ↦
                  unavailable_source u
                    (not_told s.source_available s.source_availability i.source_told x)
              | inr x ↦
                  unavailable_target u
                    (not_told s.target_available s.target_availability i.target_told x)
            ]
      ]

  add_directions-Keeps :
      (r : RelationshipRecord) (pairs : List (Text × Text)) (d e : Dict (List GraphStep))
      → add_directions show graph a include_candidates include_unavailable r pairs d ≡ some e
      → Keeps d e
  unfolding add_directions
  add_directions-Keeps r [] d e h = subst (Keeps d) (some-injective d e h) (λ k s m. m)
  add_directions-Keeps r ((source, target) ∷ rest) d e h =
      let (s, built, more) = >>=-eq-some (step show graph a r source target) _ h in
      λ k t m.
        add_directions-Keeps r rest (after source s d) e more k t (after-Keeps source s d k t m)

  -- The step of the relationship from the source to the target.
  abbrev Stepped : RelationshipRecord → Text → Text → Dict (List GraphStep) → Type 0
  Stepped r source target d =
      (s : GraphStep) × IsStep show graph a r source target s × IsThere source d s

  Stepped-Keeps :
      (r : RelationshipRecord) (source target : Text) (d e : Dict (List GraphStep))
      → Keeps d e
      → Stepped r source target d
      → Stepped r source target e
  Stepped-Keeps r source target d e k (s, i, t) = (s, i, IsThere-Keeps source d e s k t)

  add_directions-Stepped :
      (r : RelationshipRecord) (pairs : List (Text × Text)) (d e : Dict (List GraphStep))
      (p : Text × Text)
      → Among p pairs
      → add_directions show graph a include_candidates include_unavailable r pairs d ≡ some e
      → Stepped r p.0 p.1 e
  unfolding add_directions
  add_directions-Stepped r [] d e p m h = elim m [ ]
  add_directions-Stepped r ((source, target) ∷ rest) d e p (inl same) h =
      let (s, built, more) = >>=-eq-some (step show graph a r source target) _ h in
      let i = step-IsStep show graph a r source target s built in
      subst (λ (q : Text × Text). Stepped r q.0 q.1 e) (sym same)
        (Stepped-Keeps r source target (after source s d) e
          (add_directions-Keeps r rest (after source s d) e more)
          (s, i, after-IsThere r source target s d i))
  add_directions-Stepped r ((source, target) ∷ rest) d e p (inr m) h =
      let (s, built, more) = >>=-eq-some (step show graph a r source target) _ h in
      add_directions-Stepped r rest (after source s d) e p m more

  abbrev out : RelationshipRecord → Bool
  out = left_out show graph a include_candidates include_unavailable

  add_relationships-Keeps :
      (rs : List RelationshipRecord) (d e : Dict (List GraphStep))
      → add_relationships show graph a include_candidates include_unavailable rs d ≡ some e
      → Keeps d e
  unfolding add_relationships
  add_relationships-Keeps [] d e h = subst (Keeps d) (some-injective d e h) (λ k s m. m)
  add_relationships-Keeps (r ∷ rest) d e h = elim (Bool-cases (out r)) [
    | inl y ↦ add_relationships-Keeps rest d e (rw y at h)
    | inr n ↦
        let (next, f, more) =
          >>=-eq-some
            (add_directions show graph a include_candidates include_unavailable r (directions r) d)
            _ (rw n at h) in
        λ k s m.
          add_relationships-Keeps rest next e more k s
            (add_directions-Keeps r (directions r) d next f k s m)
  ]

  add_relationships-Stepped :
      (rs : List RelationshipRecord) (d e : Dict (List GraphStep)) (r : RelationshipRecord)
      (p : Text × Text)
      → Among r rs
      → out r ≡ false
      → Among p (directions r)
      → add_relationships show graph a include_candidates include_unavailable rs d ≡ some e
      → Stepped r p.0 p.1 e
  unfolding add_relationships
  add_relationships-Stepped [] d e r p m u w h = elim m [ ]
  add_relationships-Stepped (q ∷ rest) d e r p (inl same) u w h =
      let n : out q ≡ false = ap out (sym same) ∙ u in
      let (next, f, more) =
        >>=-eq-some
          (add_directions show graph a include_candidates include_unavailable q (directions q) d) _
          (rw n at h) in
      let found =
        add_directions-Stepped q (directions q) d next p
          (subst (λ (x : RelationshipRecord). Among p (directions x)) same w) f in
      Stepped-Keeps r p.0 p.1 next e (add_relationships-Keeps rest next e more)
        (subst (λ (x : RelationshipRecord). Stepped x p.0 p.1 next) (sym same) found)
  add_relationships-Stepped (q ∷ rest) d e r p (inr m) u w h = elim (Bool-cases (out q)) [
    | inl y ↦ add_relationships-Stepped rest d e r p m u w (rw y at h)
    | inr n ↦
        let (next, f, more) =
          >>=-eq-some
            (add_directions show graph a include_candidates include_unavailable q (directions q) d)
            _ (rw n at h) in
        add_relationships-Stepped rest next e r p m u w more
  ]

  sorted-Keeps :
      (d : Dict (List GraphStep))
      → Keeps d (
          map
            (λ (k, steps).
              (k, sort_by (step_leb show graph a include_candidates include_unavailable) steps))
            d)
  sorted-Keeps d k s m =
      let order = step_leb show graph a include_candidates include_unavailable in
      rw
        (lookup_or-map show graph a include_candidates include_unavailable (sort_by order) k d
          (sort_by_nil show graph a include_candidates include_unavailable))
        (Among-sort_by order s (lookup_or k d []) m)

  -- Where `_adjacency` answers, then for every relationship of the graph that is neither deprecated nor a
  -- candidate that was not asked for, and every source and target between which it leads, in the sense of
  -- its direction, there is its step from that source to that target, and it is in the list of the source,
  -- unless unavailable steps are left out and one of its ends cannot be queried.
  pub adjacency_complete :
      (d : Dict (List GraphStep)) (r : RelationshipRecord) (source target : Text)
      → adjacency show graph a include_candidates include_unavailable ≡ some d
      → Among r (values graph.relationships)
      → IsUsed include_candidates r
      → IsWay r source target
      → (s : GraphStep) × IsStep show graph a r source target s × IsThere source d s
  unfolding adjacency left_out
  adjacency_complete d r source target h m u w =
      let by_id : RelationshipRecord → RelationshipRecord → Bool = λ r q. lex_leb r.id q.id in
      let (found, e, f) =
        >>=-eq-some
          (add_relationships show graph a include_candidates include_unavailable
            (sort_by by_id (values graph.relationships)) [])
          _ h in
      let stepped =
        add_relationships-Stepped (sort_by by_id (values graph.relationships)) [] found r
          (source, target) (Among-sort_by by_id r (values graph.relationships) m)
          (IsUsed-left_out include_candidates r.status u) (IsWay-directions r source target w) e in
      subst (Stepped r source target) (some-injective _ d f)
        (Stepped-Keeps r source target found _ (sorted-Keeps found) stepped)
