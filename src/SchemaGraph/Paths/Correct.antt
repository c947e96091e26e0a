-- ===== src/SchemaGraph/Paths/Correct.antt =====
-- The answer of the search of `table_paths` in schema_graph/traversal.py: its paths and its limit.
use mathlib.Core.Path.{subst}
use m365_xdr_cli.Base.{
  suc, ◌≤◌, ◌≡◌, refl, true, Option, none, some, List, length, Text, arith, All, All-take,
  length-take,
}
use m365_xdr_cli.Base.Sort.{All-sort_by, sort_by}
use m365_xdr_cli.SchemaGraph.Search.{Adjacency, Search, Limits, run, enqueue_sources, path_leb}
use m365_xdr_cli.SchemaGraph.Search.Fuel.{run_total, enqueue_sources-Steady}
use m365_xdr_cli.SchemaGraph.Search.Routes.{Found, run-IsSound, enqueue_sources-IsSound}
use m365_xdr_cli.SchemaGraph.Paths.{done, Answer, conclude, start, search_paths}

module _ (l : Limits) (adjacency : Adjacency) (source_ids target_ids : List Text) where
  abbrev begun : Search
  begun = enqueue_sources l adjacency source_ids start

  -- The search always comes to an answer, and has not generated more entries than it may.
  pub search_paths_total :
      (a : Answer) × (search_paths l adjacency source_ids target_ids ≡ done a)
      × (a.diagnostics.generated_states ≤ l.max_expansions)
  unfolding search_paths conclude
  search_paths_total =
      let steady = enqueue_sources-Steady l adjacency source_ids start (omega arith) in
      let (t, e, w) =
        run_total l adjacency target_ids (suc l.max_expansions) begun steady.within
          (omega (arith, steady.same)) in
      (conclude l t, rw (e, search_paths), w)

  -- What the paths of an answer promise: there are no more of them than asked for, and each is a
  -- chain of listed steps from a source to a target, with no interpretation twice and no more steps
  -- than the depth allows.
  pub record IsAnswer (a : Answer) : Type 0 where
    pub few : length a.paths ≤ l.max_paths
    pub routes : All (Found l adjacency source_ids target_ids) a.paths

  pub search_paths-IsAnswer :
      (a : Answer)
      → 1 ≤ l.max_depth
      → search_paths l adjacency source_ids target_ids ≡ done a
      → IsAnswer a
  unfolding search_paths conclude
  search_paths-IsAnswer a d h = go (run l adjacency target_ids (suc l.max_expansions) begun) refl
    where
      go :
          (o : Option Search)
          → run l adjacency target_ids (suc l.max_expansions) begun ≡ o
          → IsAnswer a
      go none e = absurd (ground arith)
      go (some t) e =
          let sound =
            run-IsSound l adjacency source_ids target_ids (suc l.max_expansions) begun t
              (enqueue_sources-IsSound l adjacency source_ids target_ids source_ids start d
                (λ x m. m) (record { queue = tt; found = tt }))
              e in
          let same : conclude l t ≡ a = ground arith in
          subst IsAnswer same (record {
            few = length-take l.max_paths (sort_by (λ p q. path_leb p q true) t.found);
            routes = All-take (Found l adjacency source_ids target_ids) l.max_paths _ (
                All-sort_by (λ p q. path_leb p q true) (Found l adjacency source_ids target_ids)
                  t.found sound.found);
          })
