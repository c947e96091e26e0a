-- ===== src/SchemaGraph/Search/Grows.antt =====
-- What the queue of `table_paths` in schema_graph/traversal.py keeps from round to round.
use mathlib.Core.Path.{subst}
use m365_xdr_cli.Base.{
  ◌≡◌, refl, Bool, true, false, List, [], ◌∷◌, ◌++◌, length, Text, Text-discrete, text_eq, contains,
  ltb, leb, arith, Among, Bool-cases, inl, inr, sym,
}
use m365_xdr_cli.SchemaGraph.Step.{GraphStep}
use m365_xdr_cli.SchemaGraph.Search.{
  Adjacency, leaving, Item, Search, Limits, last_target, enqueue, enqueue_first, enqueue_sources,
  expand, visit,
}

pub Among-append : {A : Type 0} (x : A) (xs ys : List A) → Among x xs → Among x (xs ++ ys)
Among-append x [] ys m = elim m [ ]
Among-append x (y ∷ xs) ys (inl e) = inl e
Among-append x (y ∷ xs) ys (inr m) = inr (Among-append x xs ys m)

pub Among-append_last : {A : Type 0} (x : A) (xs : List A) → Among x (xs ++ (x ∷ []))
Among-append_last x [] = inl refl
Among-append_last x (y ∷ xs) = inr (Among-append_last x xs)

pub record Grows (s t : Search) : Type 0 where
  pub open_before : t.exhausted ≡ false → s.exhausted ≡ false
  pub queue : t.exhausted ≡ false → (x : Item) → Among x s.queue → Among x t.queue
  pub found : (p : List GraphStep) → Among p s.found → Among p t.found

Grows-refl : (s : Search) → Grows s s
Grows-refl s = record { open_before = λ e. e; queue = λ e x m. m; found = λ p m. m }

pub Grows-trans : {s t u : Search} → Grows s t → Grows t u → Grows s u
Grows-trans a b = record {
  open_before = λ e. a.open_before (b.open_before e);
  queue = λ e x m. b.queue e x (a.queue (b.open_before e) x m);
  found = λ p m. b.found p (a.found p m);
}

-- An entry with the path and the visited interpretations waits in the queue.
abbrev pub Holds : List GraphStep → List Text → Search → Type 0
Holds path visited s = (x : Item) × Among x s.queue × (x.path ≡ path) × (x.visited ≡ visited)

pub Holds-Grows :
    (path : List GraphStep) (visited : List Text) (s t : Search)
    → Grows s t
    → t.exhausted ≡ false
    → Holds path visited s
    → Holds path visited t
Holds-Grows path visited s t g e (x, m, p, v) = (x, g.queue e x m, p, v)

module _ (l : Limits) where
  enqueue-Grows :
      (path : List GraphStep) (visited : List Text) (s : Search)
      → Grows s (enqueue l path visited s)
  unfolding enqueue
  enqueue-Grows path visited s = elim (Bool-cases (leb l.max_expansions s.generated)) [
    | inl y ↦ rw y (record { open_before = λ e. absurd (cc); queue = λ e x m. m; found = λ p m. m })
    | inr n ↦ rw n (record { open_before = λ e. e; queue = λ e x m. inr m; found = λ p m. m })
  ]

  enqueue-Holds :
      (path : List GraphStep) (visited : List Text) (s : Search)
      → (enqueue l path visited s).exhausted ≡ false
      → Holds path visited (enqueue l path visited s)
  unfolding enqueue
  enqueue-Holds path visited s e = go (leb l.max_expansions s.generated) refl
    where
      go :
          (b : Bool)
          → leb l.max_expansions s.generated ≡ b
          → Holds path visited (enqueue l path visited s)
      go true y = absurd (cc (rw (y, enqueue) at e))
      go false n =
          rw (n, enqueue)
            (
              record { path = path; visited = visited; sequence = s.generated },
              inl refl,
              refl,
              refl,
            )

  pub expand-Grows :
      (item : Item) (steps : List GraphStep) (s : Search) → Grows s (expand l item steps s)
  unfolding expand
  expand-Grows item [] s = Grows-refl s
  expand-Grows item (step ∷ rest) s =
      elim (Bool-cases (contains step.target_interpretation item.visited)) [
        | inl y ↦ rw y (expand-Grows item rest s)
        | inr n ↦ rw n (Grows-trans (enqueue-Grows _ _ s) (expand-Grows item rest _))
      ]

  expand_head :
      (item : Item) (step : GraphStep) (rest : List GraphStep) (s : Search)
      → contains step.target_interpretation item.visited ≡ false
      → (expand l item (step ∷ rest) s).exhausted ≡ false
      → Holds
          (item.path ++ (step ∷ []))
          (item.visited ++ (step.target_interpretation ∷ []))
          (expand l item (step ∷ rest) s)
  unfolding expand
  expand_head item step rest s f e =
      let path = item.path ++ (step ∷ []) in
      let visited = item.visited ++ (step.target_interpretation ∷ []) in
      let queued = enqueue l path visited s in
      let more = expand-Grows item rest queued in
      let open_end : (expand l item rest queued).exhausted ≡ false = rw (f, expand) at e in
      rw (f, expand)
        (Holds-Grows path visited queued (expand l item rest queued) more open_end
          (enqueue-Holds path visited s (more.open_before open_end)))

  -- Every listed step to an interpretation that is not on the path yet is queued.
  pub expand-Holds :
      (item : Item) (steps : List GraphStep) (s : Search) (step : GraphStep)
      → Among step steps
      → contains step.target_interpretation item.visited ≡ false
      → (expand l item steps s).exhausted ≡ false
      → Holds
          (item.path ++ (step ∷ []))
          (item.visited ++ (step.target_interpretation ∷ []))
          (expand l item steps s)
  unfolding expand
  expand-Holds item [] s step m f e = elim m [ ]
  expand-Holds item (t ∷ rest) s step (inl q) f e =
      subst
        (λ (x : GraphStep).
          Holds (item.path ++ (x ∷ [])) (item.visited ++ (x.target_interpretation ∷ []))
            (expand l item (t ∷ rest) s))
        (sym q)
        (expand_head item t rest s
          (subst (λ (x : GraphStep). contains x.target_interpretation item.visited ≡ false) q f) e)
  expand-Holds item (t ∷ rest) s step (inr m) f e = expand-Holds item rest _ step m f e

  enqueue_first-Grows :
      (source : Text) (steps : List GraphStep) (s : Search)
      → Grows s (enqueue_first l source steps s)
  unfolding enqueue_first
  enqueue_first-Grows source [] s = Grows-refl s
  enqueue_first-Grows source (step ∷ rest) s =
      elim (Bool-cases (text_eq step.target_interpretation source)) [
        | inl y ↦ rw y (enqueue_first-Grows source rest s)
        | inr n ↦ rw n (Grows-trans (enqueue-Grows _ _ s) (enqueue_first-Grows source rest _))
      ]

  first_head :
      (source : Text) (step : GraphStep) (rest : List GraphStep) (s : Search)
      → text_eq step.target_interpretation source ≡ false
      → (enqueue_first l source (step ∷ rest) s).exhausted ≡ false
      → Holds
          (step ∷ [])
          (source ∷ step.target_interpretation ∷ [])
          (enqueue_first l source (step ∷ rest) s)
  unfolding enqueue_first
  first_head source step rest s f e =
      let visited : List Text = source ∷ step.target_interpretation ∷ [] in
      let queued = enqueue l (step ∷ []) visited s in
      let more = enqueue_first-Grows source rest queued in
      let open_end : (enqueue_first l source rest queued).exhausted ≡ false =
        rw (f, enqueue_first) at e in
      rw (f, enqueue_first)
        (Holds-Grows (step ∷ []) visited queued (enqueue_first l source rest queued) more open_end
          (enqueue-Holds (step ∷ []) visited s (more.open_before open_end)))

  enqueue_first-Holds :
      (source : Text) (steps : List GraphStep) (s : Search) (step : GraphStep)
      → Among step steps
      → text_eq step.target_interpretation source ≡ false
      → (enqueue_first l source steps s).exhausted ≡ false
      → Holds
          (step ∷ [])
          (source ∷ step.target_interpretation ∷ [])
          (enqueue_first l source steps s)
  unfolding enqueue_first
  enqueue_first-Holds source [] s step m f e = elim m [ ]
  enqueue_first-Holds source (t ∷ rest) s step (inl q) f e =
      subst
        (λ (x : GraphStep).
          Holds (x ∷ []) (source ∷ x.target_interpretation ∷ [])
            (enqueue_first l source (t ∷ rest) s))
        (sym q)
        (first_head source t rest s
          (subst (λ (x : GraphStep). text_eq x.target_interpretation source ≡ false) q f) e)
  enqueue_first-Holds source (t ∷ rest) s step (inr m) f e =
      enqueue_first-Holds source rest _ step m f e

  pub enqueue_sources-Grows :
      (adjacency : Adjacency) (sources : List Text) (s : Search)
      → Grows s (enqueue_sources l adjacency sources s)
  unfolding enqueue_sources
  enqueue_sources-Grows adjacency [] s = Grows-refl s
  enqueue_sources-Grows adjacency (source ∷ rest) s =
      Grows-trans (enqueue_first-Grows source (leaving adjacency source) s)
        (enqueue_sources-Grows adjacency rest _)

  sources_head :
      (adjacency : Adjacency) (source : Text) (rest : List Text) (s : Search) (step : GraphStep)
      → Among step (leaving adjacency source)
      → text_eq step.target_interpretation source ≡ false
      → (enqueue_sources l adjacency (source ∷ rest) s).exhausted ≡ false
      → Holds
          (step ∷ [])
          (source ∷ step.target_interpretation ∷ [])
          (enqueue_sources l adjacency (source ∷ rest) s)
  unfolding enqueue_sources
  sources_head adjacency source rest s step m f e =
      let first = enqueue_first l source (leaving adjacency source) s in
      let more = enqueue_sources-Grows adjacency rest first in
      Holds-Grows _ _ first (enqueue_sources l adjacency rest first) more e
        (enqueue_first-Holds source (leaving adjacency source) s step m f (more.open_before e))

  -- Every listed first step from a source to another interpretation is queued.
  pub enqueue_sources-Holds :
      (adjacency : Adjacency) (sources : List Text) (s : Search) (source : Text) (step : GraphStep)
      → contains source sources ≡ true
      → Among step (leaving adjacency source)
      → text_eq step.target_interpretation source ≡ false
      → (enqueue_sources l adjacency sources s).exhausted ≡ false
      → Holds
          (step ∷ [])
          (source ∷ step.target_interpretation ∷ [])
          (enqueue_sources l adjacency sources s)
  unfolding enqueue_sources
  enqueue_sources-Holds adjacency [] s source step c m f e = absurd (cc)
  enqueue_sources-Holds adjacency (x ∷ rest) s source step c m f e =
      go (Text-discrete source x) (λ k. enqueue_sources-Holds adjacency rest _ source step k m f e)
    where
      go :
          Dec (source ≡ x)
          → (contains source rest ≡ true
              → Holds
                  (step ∷ [])
                  (source ∷ step.target_interpretation ∷ [])
                  (enqueue_sources l adjacency (x ∷ rest) s))
          → Holds
              (step ∷ [])
              (source ∷ step.target_interpretation ∷ [])
              (enqueue_sources l adjacency (x ∷ rest) s)
      go (yes q) ih =
          subst
            (λ (y : Text).
              Holds (step ∷ []) (y ∷ step.target_interpretation ∷ [])
                (enqueue_sources l adjacency (x ∷ rest) s))
            (sym q)
            (sources_head adjacency x rest s step
              (subst (λ y. Among step (leaving adjacency y)) q m)
              (subst (λ y. text_eq step.target_interpretation y ≡ false) q f) e)
      go (no n) ih = ih (ground arith)

  pub visit-Grows :
      (adjacency : Adjacency) (target_ids : List Text) (item : Item) (s : Search)
      → Grows s (visit l adjacency target_ids item s).0
  unfolding visit
  visit-Grows adjacency target_ids item s =
      elim (Bool-cases (contains (last_target item.path) target_ids)) [
        | inl y ↦ rw y (record {
          open_before = λ e. e;
          queue = λ e x m. m;
          found = λ p m. Among-append p s.found (item.path ∷ []) m;
        })
        | inr n ↦ elim (Bool-cases (ltb (length item.path) l.max_depth)) [
          | inl d ↦ rw (n, d) (expand-Grows item (leaving adjacency (last_target item.path)) s)
          | inr d ↦ rw (n, d) (Grows-refl s)
        ]
      ]
