-- ===== src/Tests/Graph.antt =====
-- A graph of three interpretations, searched from the first to the last.
use mathlib.Core.Path.{subst}
use m365_xdr_cli.SchemaGraph.Search.{last_target}
use m365_xdr_cli.SchemaGraph.Search.Routes.{Found}
use m365_xdr_cli.SchemaGraph.Search.Reach.{IsDirect}
use m365_xdr_cli.SchemaGraph.Paths.Complete.{search_paths_complete}
use m365_xdr_cli.Base.{
  inl, List, contains, take, ap, length, length-append, Among, Text-discrete, ◌≡◌, ◌≤◌, refl, true,
  false, [], ◌∷◌, ◌++◌, Text, codes, arith,
}
use m365_xdr_cli.Base.Dict.{lookup, lookup_or}
use m365_xdr_cli.Base.Sort.{lex_leb, sort_by, insert_sorted}
use m365_xdr_cli.SchemaGraph.Model.{
  join_compatible, forward, one_to_one, high, validated, available,
}
use m365_xdr_cli.SchemaGraph.Step.{GraphStep, path_rank}
use m365_xdr_cli.SchemaGraph.Step.Rank.{path_rank-append}
use m365_xdr_cli.SchemaGraph.Search.{
  Adjacency, Limits, pop_min, enqueue, enqueue_first, enqueue_sources, expand, visit, run,
}
use m365_xdr_cli.SchemaGraph.Paths.{Answer, done, conclude, search_paths}
use m365_xdr_cli.SchemaGraph.Paths.Correct.{IsAnswer, search_paths_total, search_paths-IsAnswer}

-- A step with a name and two ends.
abbrev hop : Text → Text → Text → GraphStep
hop name source target = record {
  source_interpretation = source;
  target_interpretation = target;
  source_locator = source;
  target_locator = target;
  relationship_id = name;
  relationship = join_compatible;
  relationship_direction = forward;
  traversal_direction = forward;
  transform = codes "identity";
  cardinality = one_to_one;
  temporal = codes "same-event";
  confidence = high;
  provenance = [];
  source_entity_kind = codes "account";
  source_namespace = codes "sid";
  source_role = codes "actor";
  target_entity_kind = codes "account";
  target_namespace = codes "sid";
  target_role = codes "actor";
  evidence_level = validated;
  candidate = false;
  source_available = true;
  target_available = true;
  source_availability = available;
  target_availability = available;
}

abbrev first_hop : GraphStep
first_hop = hop (codes "r1") (codes "a") (codes "b")

abbrev second_hop : GraphStep
second_hop = hop (codes "r2") (codes "b") (codes "c")

abbrev back_hop : GraphStep
back_hop = hop (codes "r3") (codes "b") (codes "a")

abbrev chain : Adjacency
chain = (codes "a", first_hop ∷ []) ∷ (codes "b", second_hop ∷ back_hop ∷ []) ∷ []

abbrev limits : Limits
limits = record { max_depth = 3; max_paths = 2; max_expansions = 5 }

abbrev chain_answer : Answer
chain_answer = record {
  paths = (first_hop ∷ second_hop ∷ []) ∷ [];
  diagnostics = record {
    search_complete = true;
    paths_truncated = false;
    expansion_limit_reached = false;
    generated_states = 2;
  };
}

path_rank-append_example :
    (lex_leb (path_rank (first_hop ∷ [])) (path_rank ((first_hop ∷ []) ++ (second_hop ∷ [])))
      ≡ true)
    × (lex_leb (path_rank ((first_hop ∷ []) ++ (second_hop ∷ []))) (path_rank (first_hop ∷ []))
        ≡ false)
path_rank-append_example = path_rank-append (first_hop ∷ []) (second_hop ∷ []) (omega arith)

search_paths_total_example :
    (a : Answer) × (search_paths limits chain (codes "a" ∷ []) (codes "c" ∷ []) ≡ done a)
    × (a.diagnostics.generated_states ≤ 5)
search_paths_total_example = search_paths_total limits chain (codes "a" ∷ []) (codes "c" ∷ [])

search_paths-IsAnswer_example : IsAnswer limits chain (codes "a" ∷ []) (codes "c" ∷ []) chain_answer
unfolding search_paths conclude enqueue_sources enqueue_first enqueue run pop_min visit expand
    lookup lookup_or sort_by insert_sorted Text-discrete
search_paths-IsAnswer_example =
    search_paths-IsAnswer limits chain (codes "a" ∷ []) (codes "c" ∷ []) chain_answer (omega arith)
      refl

abbrev chain_path : List GraphStep
chain_path = first_hop ∷ second_hop ∷ []

chain_path-Found : Found limits chain (codes "a" ∷ []) (codes "c" ∷ []) chain_path
unfolding lookup lookup_or Text-discrete
chain_path-Found = (
  record {
    source = codes "a";
    from_source = refl;
    follows = (inl refl, (inl refl, tt));
    distinct = (refl, (refl, (refl, tt)));
    some_steps = omega arith;
    bounded = omega arith;
  },
  refl,
)

chain_path-IsDirect : IsDirect (codes "c" ∷ []) chain_path
unfolding Text-discrete
chain_path-IsDirect [] s more e h = absurd (omega arith)
chain_path-IsDirect (x ∷ []) s more e h =
    subst (λ (p : List GraphStep). contains (last_target (take 1 p)) (codes "c" ∷ []) ≡ false) e
      refl
chain_path-IsDirect (x ∷ y ∷ rest) s more e h =
    absurd (omega (arith, ap length e, length-append {0} rest (s ∷ more)))

search_paths_complete_example : Among chain_path chain_answer.paths
unfolding search_paths conclude enqueue_sources enqueue_first enqueue run pop_min visit expand
    lookup lookup_or sort_by insert_sorted Text-discrete
search_paths_complete_example =
    search_paths_complete limits chain (codes "a" ∷ []) (codes "c" ∷ []) chain_answer chain_path
      refl refl chain_path-Found chain_path-IsDirect
