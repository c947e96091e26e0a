-- ===== src/SchemaGraph/Search/Fuel.antt =====
-- The fuel of the loop of `table_paths` in schema_graph/traversal.py.
use m365_xdr_cli.Base.{
  ℕ, zero, suc, ◌+◌, ◌-◌, ◌≤◌, ◌<◌, ◌≡◌, refl, ◌∙◌, Option, none, some, List, [], ◌∷◌, ◌++◌, length,
  Text, text_eq, contains, ltb, arith, Bool-cases, inl, inr, ap,
}
use m365_xdr_cli.SchemaGraph.Step.{GraphStep}
use m365_xdr_cli.SchemaGraph.Search.{
  Adjacency, leaving, Item, Search, Limits, last_target, item_leb, pop_min, enqueue, enqueue_first,
  enqueue_sources, expand, visit, run,
}

pub pop_min-eq-none : (items : List Item) → pop_min items ≡ none → items ≡ []
unfolding pop_min
pop_min-eq-none [] h = refl
pop_min-eq-none (y ∷ items) h = go (pop_min items) refl
  where
    go : (o : Option (Item × List Item)) → pop_min items ≡ o → (y ∷ items) ≡ []
    go none e = absurd (ground arith)
    go (some (z, r)) e = absurd (ground arith)

length-pop_min :
    (items rest : List Item) (x : Item)
    → pop_min items ≡ some (x, rest)
    → length items ≡ suc (length rest)
unfolding pop_min
length-pop_min [] rest x h = absurd (cc)
length-pop_min (y ∷ items) rest x h = go (pop_min items) refl (length-pop_min items)
  where
    go :
        (o : Option (Item × List Item))
        → pop_min items ≡ o
        → ((r : List Item) (z : Item) → pop_min items ≡ some (z, r) → length items ≡ suc (length r))
        → suc (length items) ≡ suc (length rest)
    go none e ih =
        let same : rest ≡ [] = ground arith in
        omega (arith, ap length same, ap length (pop_min-eq-none items e))
    go (some (z, r)) e ih = elim (Bool-cases (item_leb y z)) [
      | inl b ↦ let same : rest ≡ z ∷ r = ground arith in omega (arith, ap length same, ih r z e)
      | inr b ↦ let same : rest ≡ y ∷ r = ground arith in omega (arith, ap length same, ih r z e)
    ]

-- Rounds that the search can still make.
abbrev pub potential : Limits → Search → ℕ
potential l s = length s.queue + (l.max_expansions - s.generated)

abbrev pub Within : Limits → Search → Type 0
Within l s = s.generated ≤ l.max_expansions

module _ (l : Limits) where
  -- The rounds left are the same, and the limit still holds.
  pub record Steady (s t : Search) : Type 0 where
    pub same : potential l t ≡ potential l s
    pub within : Within l t

  enqueue-Steady :
      (path : List GraphStep) (visited : List Text) (s : Search)
      → Within l s
      → Steady s (enqueue l path visited s)
  unfolding enqueue
  enqueue-Steady path visited s w = ground arith

  Steady-trans : {s t u : Search} → Steady s t → Steady t u → Steady s u
  Steady-trans a b = record { same = b.same ∙ a.same; within = b.within }

  expand-Steady :
      (item : Item) (steps : List GraphStep) (s : Search)
      → Within l s
      → Steady s (expand l item steps s)
  unfolding expand
  expand-Steady item [] s w = record { same = refl; within = w }
  expand-Steady item (step ∷ rest) s w =
      elim (Bool-cases (contains step.target_interpretation item.visited)) [
        | inl y ↦ rw y (expand-Steady item rest s w)
        | inr n ↦ rw n (
            let first =
              enqueue-Steady (item.path ++ (step ∷ []))
                (item.visited ++ (step.target_interpretation ∷ [])) s w in
            Steady-trans first (expand-Steady item rest _ first.within))
      ]

  enqueue_first-Steady :
      (source : Text) (steps : List GraphStep) (s : Search)
      → Within l s
      → Steady s (enqueue_first l source steps s)
  unfolding enqueue_first
  enqueue_first-Steady source [] s w = record { same = refl; within = w }
  enqueue_first-Steady source (step ∷ rest) s w =
      elim (Bool-cases (text_eq step.target_interpretation source)) [
        | inl y ↦ rw y (enqueue_first-Steady source rest s w)
        | inr n ↦ rw n (
            let first = enqueue-Steady (step ∷ []) (source ∷ step.target_interpretation ∷ []) s w in
            Steady-trans first (enqueue_first-Steady source rest _ first.within))
      ]

  pub enqueue_sources-Steady :
      (adjacency : Adjacency) (sources : List Text) (s : Search)
      → Within l s
      → Steady s (enqueue_sources l adjacency sources s)
  unfolding enqueue_sources
  enqueue_sources-Steady adjacency [] s w = record { same = refl; within = w }
  enqueue_sources-Steady adjacency (source ∷ rest) s w =
      let first = enqueue_first-Steady source (leaving adjacency source) s w in
      Steady-trans first (enqueue_sources-Steady adjacency rest _ first.within)

  visit-Steady :
      (adjacency : Adjacency) (target_ids : List Text) (item : Item) (s : Search)
      → Within l s
      → Steady s (visit l adjacency target_ids item s).0
  unfolding visit
  visit-Steady adjacency target_ids item s w =
      elim (Bool-cases (contains (last_target item.path) target_ids)) [
        | inl y ↦ rw y (record { same = refl; within = w })
        | inr n ↦ elim (Bool-cases (ltb (length item.path) l.max_depth)) [
          | inl d ↦ rw (n, d) (expand-Steady item (leaving adjacency (last_target item.path)) s w)
          | inr d ↦ rw (n, d) (record { same = refl; within = w })
        ]
      ]

  -- A run that may still make fewer rounds than its fuel ends within the limit.
  pub run_total :
      (adjacency : Adjacency) (target_ids : List Text) (fuel : ℕ) (s : Search)
      → Within l s
      → potential l s < fuel
      → (t : Search) × (run l adjacency target_ids fuel s ≡ some t) × Within l t
  unfolding run
  run_total adjacency target_ids zero s w h = absurd (omega arith)
  run_total adjacency target_ids (suc fuel) s w h =
      go (pop_min s.queue) refl (λ t. run_total adjacency target_ids fuel t)
    where
      go :
          (o : Option (Item × List Item))
          → pop_min s.queue ≡ o
          → ((t : Search)
              → Within l t
              → potential l t < fuel
              → (u : Search) × (run l adjacency target_ids fuel t ≡ some u) × Within l u)
          → (t : Search) × (run l adjacency target_ids (suc fuel) s ≡ some t) × Within l t
      go none e ih = (s, rw (e, run), w)
      go (some (item, rest)) e ih =
          let r : Search = record s { queue = rest } in
          let st = visit-Steady adjacency target_ids item r w in
          let (next, done) = visit l adjacency target_ids item r in
          elim (Bool-cases (visit l adjacency target_ids item r).1) [
            | inl y ↦ (next, rw (e, y, run), st.within)
            | inr n ↦
                let (u, f, g) =
                  ih next st.within (omega (arith, length-pop_min s.queue rest item e, st.same)) in
                (u, rw (e, n, run) f, g)
          ]
