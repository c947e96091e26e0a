-- ===== src/SchemaGraph/Paths/Complete.antt =====
-- The flag `search_complete` of `table_paths` in schema_graph/traversal.py.
use mathlib.Core.Path.{subst}
use m365_xdr_cli.Base.{
  suc, ◌≤◌, ◌≡◌, refl, ap, ◌∙◌, true, ◌&&◌, not, Option, none, some, List, length, Text, ltb, arith,
  Among, Among-take_all,
}
use m365_xdr_cli.Base.Sort.{sort_by, Among-sort_by, length-sort_by}
use m365_xdr_cli.SchemaGraph.Step.{GraphStep}
use m365_xdr_cli.SchemaGraph.Search.{Adjacency, Search, Limits, run, enqueue_sources, path_leb}
use m365_xdr_cli.SchemaGraph.Search.Routes.{Found}
use m365_xdr_cli.SchemaGraph.Search.Reach.{IsDirect, enqueue_sources-Tracked, run-Among}
use m365_xdr_cli.SchemaGraph.Paths.{done, Answer, conclude, start, search_paths}

module _ (l : Limits) (adjacency : Adjacency) (source_ids target_ids : List Text) where
  -- Where the answer says that the search is complete, it lists every chain of listed steps from a
  -- source to a target that visits no interpretation twice, has at most the allowed number of steps
  -- and meets no target before its end.
  pub search_paths_complete :
      (a : Answer) (path : List GraphStep)
      → search_paths l adjacency source_ids target_ids ≡ done a
      → a.diagnostics.search_complete ≡ true
      → Found l adjacency source_ids target_ids path
      → IsDirect target_ids path
      → Among path a.paths
  unfolding search_paths conclude
  search_paths_complete a path h c found direct =
      go (run l adjacency target_ids (suc l.max_expansions) begun) refl
    where
      begun : Search
      begun = enqueue_sources l adjacency source_ids start

      go :
          (o : Option Search)
          → run l adjacency target_ids (suc l.max_expansions) begun ≡ o
          → Among path a.paths
      go none e = absurd (ground arith)
      go (some t) e =
          let same : conclude l t ≡ a = ground arith in
          let complete : (not t.exhausted && not (ltb l.max_paths (length t.found))) ≡ true =
            ap (λ (b : Answer). b.diagnostics.search_complete) same ∙ c in
          let few : length t.found ≤ l.max_paths = ground arith in
          let leb = λ (p q : List GraphStep). path_leb p q true in
          subst (λ (b : Answer). Among path b.paths) same
            (Among-take_all path l.max_paths (sort_by leb t.found)
              (omega (arith, length-sort_by leb t.found, few))
              (Among-sort_by leb path t.found (
                run-Among l adjacency source_ids target_ids path found direct (suc l.max_expansions)
                  begun t
                  (enqueue_sources-Tracked l adjacency source_ids target_ids path found direct
                    start)
                  e (ground arith) few)))
