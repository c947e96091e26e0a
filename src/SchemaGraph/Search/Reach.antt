-- ===== src/SchemaGraph/Search/Reach.antt =====
-- The way of a given route through the queue of `table_paths` in schema_graph/traversal.py.
use mathlib.Core.Path.{subst}
use mathlib.Core.Option.{some-injective}
use mathlib.Core.List.{append_assoc, append-nil}
use m365_xdr_cli.Base.{
  Distinct, ℕ, zero, suc, ◌≤◌, ◌<◌, ◌≡◌, refl, sym, ap, ◌∙◌, ◌⊎◌, inl, inr, true, false, Option,
  none, some, List, [], ◌∷◌, ◌++◌, length, length-append, Text, contains, ltb, arith, Among,
  Bool-cases,
}
use m365_xdr_cli.SchemaGraph.Step.{GraphStep}
use m365_xdr_cli.SchemaGraph.Search.{
  Adjacency, leaving, targets, Item, Search, Limits, last_target, item_leb, pop_min, expand,
  enqueue_sources, visit, run,
}
use m365_xdr_cli.SchemaGraph.Search.Fuel.{pop_min-eq-none}
use m365_xdr_cli.SchemaGraph.Search.Routes.{Follows, IsRoute, Found, end_of, last_target-eq-end_of}
use m365_xdr_cli.SchemaGraph.Search.Grows.{
  Holds, Among-append_last, expand-Holds, enqueue_sources-Holds, visit-Grows,
}

Among-pop_min :
    (items rest : List Item) (x item : Item)
    → Among x items
    → pop_min items ≡ some (item, rest)
    → (x ≡ item) ⊎ Among x rest
unfolding pop_min
Among-pop_min [] rest x item m h = elim m [ ]
Among-pop_min (y ∷ items) rest x item m h =
    go (pop_min items) refl m (λ r z. Among-pop_min items r x z)
  where
    give :
        (z : Item) (r : List Item)
        → z ≡ item
        → r ≡ rest
        → (x ≡ z) ⊎ Among x r
        → (x ≡ item) ⊎ Among x rest
    give z r e f (inl q) = inl (q ∙ e)
    give z r e f (inr k) = inr (subst (Among x) f k)

    go :
        (o : Option (Item × List Item))
        → pop_min items ≡ o
        → (x ≡ y) ⊎ Among x items
        → ((r : List Item) (z : Item)
            → Among x items
            → pop_min items ≡ some (z, r)
            → (x ≡ z) ⊎ Among x r)
        → (x ≡ item) ⊎ Among x rest
    go none e (inl q) ih = give y [] (ground arith) (ground arith) (inl q)
    go none e (inr k) ih = absurd (subst (Among x) (pop_min-eq-none items e) k)
    go (some (z, r)) e (inl q) ih = elim (Bool-cases (item_leb y z)) [
      | inl b ↦ give y (z ∷ r) (ground arith) (ground arith) (inl q)
      | inr b ↦ give z (y ∷ r) (ground arith) (ground arith) (inr (inl q))
    ]
    go (some (z, r)) e (inr k) ih = elim (Bool-cases (item_leb y z)) [
      | inl b ↦ give y (z ∷ r) (ground arith) (ground arith) (inr (ih r z k e))
      | inr b ↦
          give z (y ∷ r) (ground arith) (ground arith)
            (elim (ih r z k e) [ inl q ↦ inl q | inr j ↦ inr (inr j) ])
    ]

-- The parts of a route at one of its steps.
Follows-at :
    (adjacency : Adjacency) (source : Text) (path : List GraphStep) (s : GraphStep)
    (more : List GraphStep)
    → Follows adjacency source (path ++ (s ∷ more))
    → Among s (leaving adjacency (end_of source path))
Follows-at adjacency source [] s more (m, f) = m
Follows-at adjacency source (t ∷ path) s more (m, f) =
    Follows-at adjacency t.target_interpretation path s more f

Distinct-at :
    (x : Text) (path : List GraphStep) (s : GraphStep) (more : List GraphStep)
    → contains x (targets (path ++ (s ∷ more))) ≡ false
    → Distinct (targets (path ++ (s ∷ more)))
    → contains s.target_interpretation (x ∷ targets path) ≡ false
Distinct-at x [] s more f d = ground arith
Distinct-at x (t ∷ path) s more f (g, d) = ground (
  arith,
  Distinct-at t.target_interpretation path s more g d,
  Distinct-at x path s more (ground arith) d,
)

targets-append_last :
    (path : List GraphStep) (s : GraphStep)
    → targets (path ++ (s ∷ [])) ≡ targets path ++ (s.target_interpretation ∷ [])
targets-append_last [] s = refl
targets-append_last (t ∷ rest) s =
    ap (λ x. t.target_interpretation ∷ x) (targets-append_last rest s)

-- No first part of the path ends in a target, but for the whole.
abbrev pub IsDirect : List Text → List GraphStep → Type 0
IsDirect target_ids path =
    (front : List GraphStep) (s : GraphStep) (more : List GraphStep)
    → path ≡ front ++ (s ∷ more)
    → 0 < length front
    → contains (last_target front) target_ids ≡ false

module _ (l : Limits) (adjacency : Adjacency) (sources target_ids : List Text)
    (path : List GraphStep) (found : Found l adjacency sources target_ids path)
    (direct : IsDirect target_ids path) where
  abbrev route : IsRoute adjacency sources l.max_depth path
  route = found.0

  -- The path is found, or a first part of it waits.
  pub data Tracked (t : Search) : Type 0 where
    there : Among path t.found → Tracked t
    waits :
        (front more : List GraphStep)
        → path ≡ front ++ more
        → 0 < length front
        → Holds front (route.source ∷ targets front) t
        → Tracked t

  -- The steps of the route behind a first part of it.
  next_step :
      (front : List GraphStep) (s : GraphStep) (more : List GraphStep)
      → path ≡ front ++ (s ∷ more)
      → 0 < length front
      → Among s (leaving adjacency (last_target front))
        × (contains s.target_interpretation (route.source ∷ targets front) ≡ false)
        × (length front < l.max_depth)
  next_step front s more e h =
      let follows = subst (Follows adjacency route.source) e route.follows in
      let distinct : Distinct (route.source ∷ targets (front ++ (s ∷ more))) =
        subst (λ (p : List GraphStep). Distinct (route.source ∷ targets p)) e route.distinct in
      (
        rw (last_target-eq-end_of route.source front h)
            (Follows-at adjacency route.source front s more follows),
        Distinct-at route.source front s more distinct.0 distinct.1,
        omega (arith, route.bounded, ap length e, length-append {0} front (s ∷ more)),
      )

  pub enqueue_sources-Tracked :
      (t : Search)
      → (enqueue_sources l adjacency sources t).exhausted ≡ false
      → Tracked (enqueue_sources l adjacency sources t)
  enqueue_sources-Tracked t open_end = go path refl
    where
      go : (p : List GraphStep) → path ≡ p → Tracked (enqueue_sources l adjacency sources t)
      go [] e = absurd (omega (arith, route.some_steps, ap length e))
      go (s ∷ more) e =
          let follows = subst (Follows adjacency route.source) e route.follows in
          let distinct : Distinct (route.source ∷ targets (s ∷ more)) =
            subst (λ (p : List GraphStep). Distinct (route.source ∷ targets p)) e route.distinct in
          waits (s ∷ []) more e (omega arith) (
            enqueue_sources-Holds l adjacency sources t route.source s route.from_source follows.0
              (ground (arith, distinct.0)) open_end)

  -- An entry with a first part of the route is taken off: the path is found, or a longer part waits.
  visit-next :
      (item : Item) (t : Search) (front more : List GraphStep)
      → path ≡ front ++ more
      → 0 < length front
      → item.path ≡ front
      → item.visited ≡ route.source ∷ targets front
      → (visit l adjacency target_ids item t).0.exhausted ≡ false
      → Tracked (visit l adjacency target_ids item t).0
  unfolding visit
  visit-next item t front [] e h p v open_end =
      let whole : item.path ≡ path = p ∙ (sym (append-nil front) ∙ sym e) in
      let hit : contains (last_target item.path) target_ids ≡ true =
        subst (λ (q : List GraphStep). contains (last_target q) target_ids ≡ true) (sym whole)
          found.1 in
      rw (hit, visit)
        (there (
          subst (λ (q : List GraphStep). Among q (t.found ++ (item.path ∷ []))) whole
            (Among-append_last item.path t.found)))
  visit-next item t front (s ∷ more) e h p v open_end =
      let (listed, fresh, short) = next_step front s more e h in
      let miss : contains (last_target item.path) target_ids ≡ false =
        subst (λ (q : List GraphStep). contains (last_target q) target_ids ≡ false) (sym p)
          (direct front s more e h) in
      let deeper : ltb (length item.path) l.max_depth ≡ true =
        subst (λ (q : List GraphStep). ltb (length q) l.max_depth ≡ true) (sym p) (ground arith) in
      let steps = leaving adjacency (last_target item.path) in
      let still : (expand l item steps t).exhausted ≡ false =
        rw (miss, deeper, visit) at open_end in
      let held =
        expand-Holds l item steps t s
          (subst (λ (q : List GraphStep). Among s (leaving adjacency (last_target q))) (sym p)
            listed)
          (subst (λ (q : List Text). contains s.target_interpretation q ≡ false) (sym v) fresh)
          still in
      rw (miss, deeper, visit)
        (waits (front ++ (s ∷ [])) more (e ∙ sym (append_assoc front (s ∷ []) more))
          (omega (arith, length-append {0} front (s ∷ [])))
          (
            held.0,
            held.1,
            held.2 ∙ ap (λ (q : List GraphStep). q ++ (s ∷ [])) p,
            held.3
                ∙ (ap (λ (q : List Text). q ++ (s.target_interpretation ∷ [])) v
                    ∙ ap (λ (q : List Text). route.source ∷ q) (sym (targets-append_last front s))),
          ))

  -- A round of the loop keeps the route in reach.
  visit-Tracked :
      (item : Item) (rest : List Item) (t : Search)
      → pop_min t.queue ≡ some (item, rest)
      → (visit l adjacency target_ids item (record t { queue = rest })).0.exhausted ≡ false
      → Tracked t
      → Tracked (visit l adjacency target_ids item (record t { queue = rest })).0
  visit-Tracked item rest t e open_end (there m) =
      there ((visit-Grows l adjacency target_ids item (record t { queue = rest })).found path m)
  visit-Tracked item rest t e open_end (waits front more w h (x, m, p, v)) =
      elim (Among-pop_min t.queue rest x item m e) [
        | inl q ↦
            visit-next item (record t { queue = rest }) front more w h
              (subst (λ (y : Item). y.path ≡ front) q p)
              (subst (λ (y : Item). y.visited ≡ route.source ∷ targets front) q v) open_end
        | inr k ↦ waits front more w h (
          x,
          (visit-Grows l adjacency target_ids item (record t { queue = rest })).queue open_end x k,
          p,
          v,
        )
      ]

  -- The loop ends early only with more paths than asked for.
  visit-done :
      (item : Item) (t : Search)
      → (visit l adjacency target_ids item t).1 ≡ true
      → l.max_paths < length (visit l adjacency target_ids item t).0.found
  unfolding visit
  visit-done item t h = ground arith

  -- Where the search ends with nothing left out, the path is found.
  pub run-Among :
      (fuel : ℕ) (s t : Search)
      → (s.exhausted ≡ false → Tracked s)
      → run l adjacency target_ids fuel s ≡ some t
      → t.exhausted ≡ false
      → length t.found ≤ l.max_paths
      → Among path t.found
  unfolding run
  run-Among zero s t k e o n = absurd (cc)
  run-Among (suc fuel) s t k e o n = go (pop_min s.queue) refl (λ u. run-Among fuel u t)
    where
      at_end : pop_min s.queue ≡ none → Tracked s → Among path s.found
      at_end f (there m) = m
      at_end f (waits front more w h (x, m, p, v)) =
          absurd (subst (Among x) (pop_min-eq-none s.queue f) m)

      go :
          (r : Option (Item × List Item))
          → pop_min s.queue ≡ r
          → ((u : Search)
              → (u.exhausted ≡ false → Tracked u)
              → run l adjacency target_ids fuel u ≡ some t
              → t.exhausted ≡ false
              → length t.found ≤ l.max_paths
              → Among path t.found)
          → Among path t.found
      go none f ih =
          let same : s ≡ t = some-injective s t (rw (f, run) at e) in
          subst (λ (u : Search). Among path u.found) same
            (at_end f (k (subst (λ (u : Search). u.exhausted ≡ false) (sym same) o)))
      go (some (item, rest)) f ih =
          let r : Search = record s { queue = rest } in
          let next = (visit l adjacency target_ids item r).0 in
          elim (Bool-cases (visit l adjacency target_ids item r).1) [
            | inl y ↦
                let same : next ≡ t = some-injective next t (rw (f, y, run) at e) in
                absurd
                  (omega (arith, n, visit-done item r y, ap (λ (u : Search). length u.found) same))
            | inr m ↦
                ih next
                  (λ q.
                    visit-Tracked item rest s f q
                      (k ((visit-Grows l adjacency target_ids item r).open_before q)))
                  (rw (f, m, run) at e) o n
          ]
