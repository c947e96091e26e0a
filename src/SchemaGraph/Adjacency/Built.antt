-- ===== src/SchemaGraph/Adjacency/Built.antt =====
-- What `_step` and `_directions` of schema_graph/traversal.py return.
use mathlib.Core.Path.{subst}
use mathlib.Core.Option.{some-injective}
use m365_xdr_cli.Base.{
  ◌≡◌, refl, sym, ap, ◌∙◌, inl, inr, Bool, true, false, Option, none, some, List, [], ◌∷◌, Text,
  text_eq, text_eq_sound, text_eq_self, contains, contains-Among, Among-contains, Among, Bool-cases,
  >>=-eq-some, if◌then◌else◌,
}
use m365_xdr_cli.Base.Dict.{Dict, lookup, lookup_or}
use m365_xdr_cli.SchemaGraph.Model.{
  Graph, RelationshipRecord, InterpretationRecord, FieldRecord, FieldLocator, RelationshipStatus,
  candidate, deprecated, Direction, forward, reverse, both, Cardinality, one_to_one, one_to_many,
  many_to_one, many_to_many, unknown, FieldAvailability, available, outer_available_unobserved,
  unavailable, not_probed, not_observed, type_conflict, queryable,
}
use m365_xdr_cli.SchemaGraph.Step.{GraphStep}
use m365_xdr_cli.SchemaGraph.Adjacency.{
  Availability, directions, field_state, reversed, is_candidate, build_step, step,
}
use m365_xdr_cli.SchemaGraph.Adjacency.Steps.{
  HasState, stated, not_stated, assumed, known, not_known, Tells, IsFlip, single, split, merged,
  many, open_ended, IsWay, ahead, back, IsReading, as_written, turned, IsMark, IsStep,
}

Tells-queryable : (state : FieldAvailability) → Tells (queryable state) state
Tells-queryable available = inl (refl, inl refl)
Tells-queryable outer_available_unobserved = inl (refl, inr refl)
Tells-queryable unavailable = inr (refl, λ q. elim q [ inl e ↦ cc | inr e ↦ cc ])
Tells-queryable not_probed = inr (refl, λ q. elim q [ inl e ↦ cc | inr e ↦ cc ])
Tells-queryable not_observed = inr (refl, λ q. elim q [ inl e ↦ cc | inr e ↦ cc ])
Tells-queryable type_conflict = inr (refl, λ q. elim q [ inl e ↦ cc | inr e ↦ cc ])

flip-reversed : (c : Cardinality) → IsFlip c (reversed c)
unfolding reversed
flip-reversed one_to_one = single
flip-reversed one_to_many = split
flip-reversed many_to_one = merged
flip-reversed many_to_many = many
flip-reversed unknown = open_ended

pub directions-IsWay :
    (r : RelationshipRecord) (source target : Text)
    → Among {A = Text × Text} (source, target) (directions r)
    → IsWay r source target
unfolding directions
directions-IsWay r source target h = go r.direction refl h
  where
    one :
        (p : Text × Text) → Path (Text × Text) (source, target) p → (source ≡ p.0) × (target ≡ p.1)
    one p e = (ap (λ (x : Text × Text). x.0) e, ap (λ (x : Text × Text). x.1) e)

    go :
        (d : Direction)
        → r.direction ≡ d
        → Among {A = Text × Text}
            (source, target)
            (elim d [
              | both ↦ (r.source, r.target) ∷ (r.target, r.source) ∷ []
              | forward ↦ (r.source, r.target) ∷ []
              | reverse ↦ (r.target, r.source) ∷ []
            ])
        → IsWay r source target
    go both e (inl m) = let (x, y) = one (r.source, r.target) m in ahead (λ q. cc) x y
    go both e (inr (inr m)) = elim m [ ]
    go both e (inr (inl m)) = let (x, y) = one (r.target, r.source) m in back (λ q. cc) x y
    go forward e (inl m) = let (x, y) = one (r.source, r.target) m in ahead (λ q. cc) x y
    go forward e (inr m) = elim m [ ]
    go reverse e (inr m) = elim m [ ]
    go reverse e (inl m) = let (x, y) = one (r.target, r.source) m in back (λ q. cc) x y

HasState-field_state : (a : Availability) (id : Text) → HasState a id (field_state a id)
unfolding field_state lookup_or
HasState-field_state a id = go a.field_availability refl
  where
    absent : {b : Bool} → b ≡ false → b ≡ true → ⊥
    absent p q = cc

    in_table :
        (table : Dict FieldAvailability)
        → a.field_availability ≡ some table
        → (o : Option FieldAvailability) → lookup id table ≡ o
        → HasState a id (elim o [ none ↦ unavailable | some state ↦ state ])
    in_table table e none l = not_stated table e l refl
    in_table table e (some state) l = stated table e l

    in_fields :
        a.field_availability ≡ none
        → (o : Option (List Text)) → a.available_fields ≡ o
        → HasState a id (elim o [
          | none ↦ available
          | some fields ↦ if contains id fields then available else unavailable
        ])
    in_fields e none f = assumed e f refl
    in_fields e (some fields) f = elim (Bool-cases (contains id fields)) [
      | inl y ↦ rw y (known fields e f (contains-Among id fields y) refl)
      | inr n ↦ rw n (not_known fields e f (λ m. absent n (Among-contains id fields m)) refl)
    ]

    go :
        (o : Option (Dict FieldAvailability))
        → a.field_availability ≡ o
        → HasState a id (elim o [
          | some table ↦ lookup_or id table unavailable
          | none ↦ elim a.available_fields [
            | none ↦ available
            | some fields ↦ if contains id fields then available else unavailable
          ]
        ])
    go none e = in_fields e a.available_fields refl
    go (some table) e = in_table table e (lookup id table) refl

marked-is_candidate : (status : RelationshipStatus) → IsMark (is_candidate status) status
marked-is_candidate candidate = inl (refl, refl)
marked-is_candidate RelationshipStatus.observed = inr (refl, λ e. cc)
marked-is_candidate RelationshipStatus.validated = inr (refl, λ e. cc)
marked-is_candidate RelationshipStatus.reviewed = inr (refl, λ e. cc)
marked-is_candidate deprecated = inr (refl, λ e. cc)
marked-is_candidate RelationshipStatus.reference_trusted = inr (refl, λ e. cc)

pub IsWay-directions :
    (r : RelationshipRecord) (source target : Text)
    → IsWay r source target
    → Among {A = Text × Text} (source, target) (directions r)
unfolding directions
IsWay-directions r source target w = go r.direction refl w
  where
    pair : (x y : Text) → source ≡ x → target ≡ y → Path (Text × Text) (source, target) (x, y)
    pair x y p q = ap (λ (z : Text). (z, target)) p ∙ ap (λ (z : Text). (x, z)) q

    go :
        (d : Direction)
        → r.direction ≡ d
        → IsWay r source target
        → Among {A = Text × Text}
            (source, target)
            (elim d [
              | both ↦ (r.source, r.target) ∷ (r.target, r.source) ∷ []
              | forward ↦ (r.source, r.target) ∷ []
              | reverse ↦ (r.target, r.source) ∷ []
            ])
    go both e (ahead n p q) = inl (pair r.source r.target p q)
    go both e (back n p q) = inr (inl (pair r.target r.source p q))
    go forward e (ahead n p q) = inl (pair r.source r.target p q)
    go forward e (back n p q) = absurd (n e)
    go reverse e (ahead n p q) = absurd (n e)
    go reverse e (back n p q) = inl (pair r.target r.source p q)

module _ (show : FieldLocator → Text) (graph : Graph) (a : Availability) where
  IsReading-build_step :
      (r : RelationshipRecord) (si ti : InterpretationRecord) (sf tf : FieldRecord)
      (source target : Text)
      → IsReading r source (build_step show graph a r si ti sf tf source target)
  unfolding build_step
  IsReading-build_step r si ti sf tf source target = elim (Bool-cases (text_eq source r.source)) [
    | inl y ↦ as_written (text_eq_sound source r.source y) (rw y refl) (rw y refl)
    | inr n ↦
        turned (λ e. differ n (ap (λ (x : Text). text_eq source x) (sym e) ∙ text_eq_self source))
          (rw n refl) (rw n (flip-reversed r.cardinality))
  ]
    where
      differ : {b : Bool} → b ≡ false → b ≡ true → ⊥
      differ p q = cc

  build_step-IsStep :
      (r : RelationshipRecord) (si ti : InterpretationRecord) (sf tf : FieldRecord)
      (source target : Text)
      → lookup source graph.interpretations ≡ some si
      → lookup target graph.interpretations ≡ some ti
      → lookup si.field_id graph.fields ≡ some sf
      → lookup ti.field_id graph.fields ≡ some tf
      → IsStep show graph a r source target (build_step show graph a r si ti sf tf source target)
  unfolding build_step
  build_step-IsStep r si ti sf tf source target es et fs ft = record {
    from = refl;
    to = refl;
    source_end = record {
      interpretation = si;
      field = sf;
      found = es;
      field_found = fs;
      located = refl;
      entity = refl;
      spaced = refl;
      cast = refl;
      known = HasState-field_state a sf.id;
    };
    target_end = record {
      interpretation = ti;
      field = tf;
      found = et;
      field_found = ft;
      located = refl;
      entity = refl;
      spaced = refl;
      cast = refl;
      known = HasState-field_state a tf.id;
    };
    source_told = Tells-queryable (field_state a sf.id);
    target_told = Tells-queryable (field_state a tf.id);
    reading = IsReading-build_step r si ti sf tf source target;
    marked = marked-is_candidate r.status;
    identified = refl;
    kind = refl;
    way = refl;
    evidence = refl;
    transform = refl;
    temporal = refl;
    confidence = refl;
    provenance = refl;
  }

  pub step-IsStep :
      (r : RelationshipRecord) (source target : Text) (s : GraphStep)
      → step show graph a r source target ≡ some s
      → IsStep show graph a r source target s
  unfolding step
  step-IsStep r source target s h =
      let (si, es, h1) = >>=-eq-some (lookup source graph.interpretations) _ h in
      let (ti, et, h2) = >>=-eq-some (lookup target graph.interpretations) _ h1 in
      let (sf, fs, h3) = >>=-eq-some (lookup si.field_id graph.fields) _ h2 in
      let (tf, ft, h4) = >>=-eq-some (lookup ti.field_id graph.fields) _ h3 in
      subst (IsStep show graph a r source target) (some-injective _ s h4)
        (build_step-IsStep r si ti sf tf source target es et fs ft)
