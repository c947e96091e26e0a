-- ===== src/SchemaGraph/Search.antt =====
-- The bounded best-first search of `table_paths` in src/xdr_cli/schema_graph/traversal.py.
pub mod Fuel
pub mod Routes
pub mod Grows
pub mod Reach
use m365_xdr_cli.Base.{
  ℕ, zero, suc, ◌+◌, Bool, true, false, ◌&&◌, not, Option, none, some, List, [], ◌∷◌, ◌++◌, map,
  length, Text, text_eq, contains, ltb, leb, if◌then◌else◌,
}
use m365_xdr_cli.Base.Dict.{Dict, lookup_or}
use m365_xdr_cli.Base.Sort.{then_leb, texts_leb}
use m365_xdr_cli.SchemaGraph.Step.{GraphStep, path_rank}

-- The steps that leave each interpretation.
abbrev pub Adjacency : Type 0
Adjacency = Dict (List GraphStep)

-- `adjacency.get(source, ())`
abbrev pub leaving : Adjacency → Text → List GraphStep
leaving adjacency source = lookup_or source adjacency []

-- An entry of the queue. The place in the count of entries is the number generated before it.
pub record Item : Type 0 where
  pub path : List GraphStep
  pub visited : List Text
  pub sequence : ℕ

-- The variables of the search.
pub record Search : Type 0 where
  pub queue : List Item
  pub found : List (List GraphStep)
  pub generated : ℕ
  pub exhausted : Bool

abbrev pub relationship_ids : List GraphStep → List Text
relationship_ids = map (λ s. s.relationship_id)

abbrev pub targets : List GraphStep → List Text
targets = map (λ s. s.target_interpretation)

-- `path.steps[-1].target_interpretation`; a path of the queue is never empty.
abbrev pub last_target : List GraphStep → Text
last_target [] = []
last_target (s ∷ []) = s.target_interpretation
last_target (s ∷ t ∷ rest) = last_target (t ∷ rest)

-- The order of paths: rank, then relationships, then interpretations, then `rest`.
unfoldable pub path_leb : List GraphStep → List GraphStep → Bool → Bool
path_leb p q rest = then_leb (path_rank p) (path_rank q) (
    if texts_leb (relationship_ids p) (relationship_ids q)
    then (if texts_leb (relationship_ids q) (relationship_ids p)
        then (if texts_leb (targets p) (targets q)
            then (if texts_leb (targets q) (targets p) then rest else true)
            else false)
        else true)
    else false)

-- The order of the queue.
unfoldable pub item_leb : Item → Item → Bool
item_leb x y = path_leb x.path y.path (leb x.sequence y.sequence)

-- `heappop`: the least entry, and the others.
unfoldable pub pop_min : List Item → Option (Item × List Item)
pop_min [] = none
pop_min (x ∷ xs) = elim (pop_min xs) [
  | none ↦ some (x, [])
  | some (y, rest) ↦ if item_leb x y then some (x, y ∷ rest) else some (y, x ∷ rest)
]

-- The limits of the search.
pub record Limits : Type 0 where
  pub max_depth : ℕ
  pub max_paths : ℕ
  pub max_expansions : ℕ

-- `enqueue`
unfoldable pub enqueue : Limits → List GraphStep → List Text → Search → Search
enqueue l path visited s =
    if leb l.max_expansions s.generated then record s { exhausted = true } else record s {
      queue = record { path = path; visited = visited; sequence = s.generated } ∷ s.queue;
      generated = s.generated + 1;
    }

-- The first steps from one source.
unfoldable pub enqueue_first : Limits → Text → List GraphStep → Search → Search
enqueue_first l source [] s = s
enqueue_first l source (step ∷ rest) s = enqueue_first l source rest (
    if text_eq step.target_interpretation source
    then s
    else enqueue l (step ∷ []) (source ∷ step.target_interpretation ∷ []) s)

-- The loop over `source_ids`.
unfoldable pub enqueue_sources : Limits → Adjacency → List Text → Search → Search
enqueue_sources l adjacency [] s = s
enqueue_sources l adjacency (source ∷ rest) s =
    enqueue_sources l adjacency rest (enqueue_first l source (leaving adjacency source) s)

-- The steps from the end of a path to interpretations that it has not visited.
unfoldable pub expand : Limits → Item → List GraphStep → Search → Search
expand l item [] s = s
expand l item (step ∷ rest) s = expand l item rest (
    if contains step.target_interpretation item.visited
    then s
    else enqueue l (item.path ++ (step ∷ [])) (item.visited ++ (step.target_interpretation ∷ [])) s)

-- What one round does with the entry that it takes off the queue: `true` ends the loop.
unfoldable pub visit : Limits → Adjacency → List Text → Item → Search → Search × Bool
visit l adjacency target_ids item s =
    let current = last_target item.path in
    if contains current target_ids
    then (let found = s.found ++ (item.path ∷ []) in
        (record s { found = found }, ltb l.max_paths (length found)))
    else if ltb (length item.path) l.max_depth
    then (expand l item (leaving adjacency current) s, false)
    else (s, false)

-- The loop `while queue`. Every round takes an entry off the queue, and at most `max_expansions`
-- come in, so one more round than that is enough; `none` is the model's own, out of fuel.
unfoldable pub run : Limits → Adjacency → List Text → ℕ → Search → Option Search
run l adjacency target_ids zero s = none
run l adjacency target_ids (suc fuel) s = elim (pop_min s.queue) [
  | none ↦ some s
  | some (item, rest) ↦
      let (next, done) = visit l adjacency target_ids item (record s { queue = rest }) in
      elim done [ true ↦ some next | false ↦ run l adjacency target_ids fuel next ]
]
