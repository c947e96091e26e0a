-- ===== src/SchemaGraph/Search/Routes.antt =====
-- The paths in the queue of `table_paths` in schema_graph/traversal.py, and those found, as routes.
use mathlib.Core.Path.{subst}
use mathlib.Core.Option.{some-injective}
use m365_xdr_cli.Base.{
  Distinct, Distinct-append, ℕ, zero, suc, ◌≤◌, ◌<◌, ◌≡◌, refl, sym, ◌∙◌, true, false, Option, none,
  some, List, [], ◌∷◌, ◌++◌, length, length-append, Text, text_eq, contains, ltb, leb, arith, Among,
  Bool-cases, inl, inr, All, All-append, ap,
}
use m365_xdr_cli.SchemaGraph.Step.{GraphStep}
use m365_xdr_cli.SchemaGraph.Search.{
  Adjacency, leaving, targets, Item, Search, Limits, last_target, item_leb, pop_min, enqueue,
  enqueue_first, enqueue_sources, expand, visit, run,
}

-- Each step of the path is listed for the interpretation where the one before it ends.
abbrev pub Follows : Adjacency → Text → List GraphStep → Type 0
Follows adjacency source [] = Unit
Follows adjacency source (s ∷ rest) =
    Among s (leaving adjacency source) × Follows adjacency s.target_interpretation rest

-- A path from one of the sources, with at most `depth` steps.
pub record IsRoute (adjacency : Adjacency) (sources : List Text) (depth : ℕ) (path : List GraphStep)
    : Type 0 where
  pub source : Text
  pub from_source : contains source sources ≡ true
  pub follows : Follows adjacency source path
  pub distinct : Distinct (source ∷ targets path)
  pub some_steps : 0 < length path
  pub bounded : length path ≤ depth

abbrev pub end_of : Text → List GraphStep → Text
end_of source [] = source
end_of source (s ∷ rest) = end_of s.target_interpretation rest

pub last_target-eq-end_of :
    (source : Text) (path : List GraphStep)
    → 0 < length path
    → last_target path ≡ end_of source path
last_target-eq-end_of source [] h = absurd (omega arith)
last_target-eq-end_of source (s ∷ []) h = refl
last_target-eq-end_of source (s ∷ t ∷ rest) h =
    last_target-eq-end_of s.target_interpretation (t ∷ rest) (omega arith)

Follows-append :
    (adjacency : Adjacency) (source : Text) (path : List GraphStep) (s : GraphStep)
    → Follows adjacency source path
    → Among s (leaving adjacency (end_of source path))
    → Follows adjacency source (path ++ (s ∷ []))
Follows-append adjacency source [] s f l = (l, tt)
Follows-append adjacency source (t ∷ rest) s (g, f) l =
    (g, Follows-append adjacency t.target_interpretation rest s f l)

targets-append :
    (path : List GraphStep) (s : GraphStep)
    → targets (path ++ (s ∷ [])) ≡ targets path ++ (s.target_interpretation ∷ [])
targets-append [] s = refl
targets-append (t ∷ rest) s = ap (λ x. t.target_interpretation ∷ x) (targets-append rest s)

-- An entry of the queue: a route, and the interpretations on it.
pub record IsEntry (adjacency : Adjacency) (sources : List Text) (depth : ℕ) (item : Item)
    : Type 0 where
  pub route : IsRoute adjacency sources depth item.path
  pub visited : item.visited ≡ route.source ∷ targets item.path

-- What `heappop` takes off keeps a property of all entries.
All-pop_min :
    (P : Item → Type 0) (items rest : List Item) (x : Item)
    → All P items
    → pop_min items ≡ some (x, rest)
    → P x × All P rest
unfolding pop_min
All-pop_min P [] rest x a h = absurd (cc)
All-pop_min P (y ∷ items) rest x (p, a) h =
    go (pop_min items) refl (λ r z. All-pop_min P items r z a)
  where
    give : (z : Item) (r : List Item) → z ≡ x → r ≡ rest → P z → All P r → P x × All P rest
    give z r e f q b = (subst P e q, subst (All P) f b)

    go :
        (o : Option (Item × List Item))
        → pop_min items ≡ o
        → ((r : List Item) (z : Item) → pop_min items ≡ some (z, r) → P z × All P r)
        → P x × All P rest
    go none e ih = give y [] (ground arith) (ground arith) p tt
    go (some (z, r)) e ih =
        let (q, b) = ih r z e in
        elim (Bool-cases (item_leb y z)) [
          | inl t ↦ give y (z ∷ r) (ground arith) (ground arith) p (q, b)
          | inr t ↦ give z (y ∷ r) (ground arith) (ground arith) q (p, b)
        ]

module _ (l : Limits) (adjacency : Adjacency) (sources target_ids : List Text) where
  abbrev pub Entry : Item → Type 0
  Entry = IsEntry adjacency sources l.max_depth

  -- A path that is found: a route that ends in a target.
  abbrev pub Found : List GraphStep → Type 0
  Found path =
      IsRoute adjacency sources l.max_depth path × (contains (last_target path) target_ids ≡ true)

  pub record IsSound (s : Search) : Type 0 where
    pub queue : All Entry s.queue
    pub found : All Found s.found

  enqueue-IsSound :
      (path : List GraphStep) (visited : List Text) (s : Search)
      → ((n : ℕ) → Entry (record { path = path; visited = visited; sequence = n }))
      → IsSound s
      → IsSound (enqueue l path visited s)
  unfolding enqueue
  enqueue-IsSound path visited s e h = elim (Bool-cases (leb l.max_expansions s.generated)) [
    | inl y ↦ rw y (record { queue = h.queue; found = h.found })
    | inr n ↦ rw n (record { queue = (e s.generated, h.queue); found = h.found })
  ]

  first_entry :
      (source : Text) (step : GraphStep) (n : ℕ)
      → 1 ≤ l.max_depth
      → contains source sources ≡ true
      → Among step (leaving adjacency source)
      → text_eq step.target_interpretation source ≡ false
      → Entry (record {
        path = step ∷ [];
        visited = source ∷ step.target_interpretation ∷ [];
        sequence = n;
      })
  first_entry source step n d c m ne = record {
    route = record {
      source = source;
      from_source = c;
      follows = (m, tt);
      distinct = (ground arith, (refl, tt));
      some_steps = omega arith;
      bounded = d;
    };
    visited = refl;
  }

  next_entry :
      (item : Item) (step : GraphStep) (n : ℕ)
      → Entry item
      → length item.path < l.max_depth
      → Among step (leaving adjacency (last_target item.path))
      → contains step.target_interpretation item.visited ≡ false
      → Entry (record {
        path = item.path ++ (step ∷ []);
        visited = item.visited ++ (step.target_interpretation ∷ []);
        sequence = n;
      })
  next_entry item step n e d m f =
      let r = e.route in
      record {
        route = record {
          source = r.source;
          from_source = r.from_source;
          follows =
              Follows-append adjacency r.source item.path step r.follows
                (rw (← last_target-eq-end_of r.source item.path r.some_steps) m);
          distinct =
              subst (λ x. Distinct (r.source ∷ x)) (sym (targets-append item.path step))
                (Distinct-append (r.source ∷ targets item.path) step.target_interpretation
                  r.distinct
                  (subst (λ x. contains step.target_interpretation x ≡ false) e.visited f));
          some_steps = omega (arith, length-append {0} item.path (step ∷ []));
          bounded = omega (arith, length-append {0} item.path (step ∷ []));
        };
        visited =
            ap (λ x. x ++ (step.target_interpretation ∷ [])) e.visited
            ∙ ap (λ x. r.source ∷ x) (sym (targets-append item.path step));
      }

  expand-IsSound :
      (item : Item) (steps : List GraphStep) (s : Search)
      → Entry item
      → length item.path < l.max_depth
      → ((t : GraphStep) → Among t steps → Among t (leaving adjacency (last_target item.path)))
      → IsSound s
      → IsSound (expand l item steps s)
  unfolding expand
  expand-IsSound item [] s e d m h = h
  expand-IsSound item (step ∷ rest) s e d m h =
      elim (Bool-cases (contains step.target_interpretation item.visited)) [
        | inl y ↦ rw y (expand-IsSound item rest s e d (λ t u. m t (inr u)) h)
        | inr n ↦ rw n (
            expand-IsSound item rest _ e d (λ t u. m t (inr u))
              (enqueue-IsSound _ _ s (λ k. next_entry item step k e d (m step (inl refl)) n) h))
      ]

  enqueue_first-IsSound :
      (source : Text) (steps : List GraphStep) (s : Search)
      → 1 ≤ l.max_depth
      → contains source sources ≡ true
      → ((t : GraphStep) → Among t steps → Among t (leaving adjacency source))
      → IsSound s
      → IsSound (enqueue_first l source steps s)
  unfolding enqueue_first
  enqueue_first-IsSound source [] s d c m h = h
  enqueue_first-IsSound source (step ∷ rest) s d c m h =
      elim (Bool-cases (text_eq step.target_interpretation source)) [
        | inl y ↦ rw y (enqueue_first-IsSound source rest s d c (λ t u. m t (inr u)) h)
        | inr n ↦ rw n (
            enqueue_first-IsSound source rest _ d c (λ t u. m t (inr u))
              (enqueue-IsSound _ _ s (λ k. first_entry source step k d c (m step (inl refl)) n) h))
      ]

  pub enqueue_sources-IsSound :
      (rest : List Text) (s : Search)
      → 1 ≤ l.max_depth
      → ((x : Text) → contains x rest ≡ true → contains x sources ≡ true)
      → IsSound s
      → IsSound (enqueue_sources l adjacency rest s)
  unfolding enqueue_sources
  enqueue_sources-IsSound [] s d c h = h
  enqueue_sources-IsSound (source ∷ rest) s d c h =
      enqueue_sources-IsSound rest _ d (λ x m. c x (ground arith))
        (enqueue_first-IsSound source (leaving adjacency source) s d (c source (ground arith))
          (λ t u. u) h)

  visit-IsSound :
      (item : Item) (s : Search)
      → Entry item
      → IsSound s
      → IsSound (visit l adjacency target_ids item s).0
  unfolding visit
  visit-IsSound item s e h = elim (Bool-cases (contains (last_target item.path) target_ids)) [
    | inl y ↦ rw y (record {
      queue = h.queue;
      found = All-append Found s.found (item.path ∷ []) h.found ((e.route, y), tt);
    })
    | inr n ↦ elim (Bool-cases (ltb (length item.path) l.max_depth)) [
      | inl d ↦
          rw (n, d)
            (expand-IsSound item (leaving adjacency (last_target item.path)) s e (ground arith)
              (λ t u. u) h)
      | inr d ↦ rw (n, d) h
    ]
  ]

  pub run-IsSound :
      (fuel : ℕ) (s t : Search) → IsSound s → run l adjacency target_ids fuel s ≡ some t → IsSound t
  unfolding run
  run-IsSound zero s t h e = absurd (cc)
  run-IsSound (suc fuel) s t h e = go (pop_min s.queue) refl (λ u. run-IsSound fuel u t)
    where
      go :
          (o : Option (Item × List Item))
          → pop_min s.queue ≡ o
          → ((u : Search) → IsSound u → run l adjacency target_ids fuel u ≡ some t → IsSound t)
          → IsSound t
      go none f ih = subst IsSound (ground arith) h
      go (some (item, rest)) f ih =
          let (x, q) = All-pop_min Entry s.queue rest item h.queue f in
          let r : Search = record s { queue = rest } in
          let sound = visit-IsSound item r x (record { queue = q; found = h.found }) in
          elim (Bool-cases (visit l adjacency target_ids item r).1) [
            | inl y ↦ subst IsSound (some-injective _ t (rw (f, y, run) at e)) sound
            | inr n ↦ ih _ sound (rw (f, n, run) at e)
          ]
