-- ===== src/SchemaGraph/Paths.antt =====
-- `pivot` and `table_paths` of src/xdr_cli/schema_graph/traversal.py.
pub mod Correct
pub mod Complete
use m365_xdr_cli.Base.{
  ℕ, zero, suc, Bool, true, false, ◌&&◌, ◌||◌, not, Option, none, some, List, [], ◌∷◌, ◌++◌, map,
  take, length, Text, text_eq, ltb, leb, ◌==◌, if◌then◌else◌, ◌>>=◌,
}
use m365_xdr_cli.Base.Dict.{lookup, values}
use m365_xdr_cli.Base.Sort.{sort_by, sort_texts, lex_leb, then_leb}
use m365_xdr_cli.SchemaGraph.Model.{Graph, InterpretationRecord, FieldLocator}
use m365_xdr_cli.SchemaGraph.Step.{GraphStep, step_rank}
use m365_xdr_cli.SchemaGraph.Adjacency.{Availability, adjacency}
use m365_xdr_cli.SchemaGraph.Search.{
  Adjacency, Search, Limits, leaving, path_leb, enqueue_sources, run,
}

-- `GraphValidationError` at each of its places, and the `KeyError` of a record that is not there.
pub data PathError : Type 0 where
  bad_depth bad_paths bad_expansions unknown_locator missing_record exhausted_fuel : PathError

pub data Outcome {ℓ} (A : Type ℓ) : Type ℓ where
  done : A → Outcome A
  failed : PathError → Outcome A

-- The interpretations whose field is on the table.
unfoldable pub on_table : Graph → Text → List InterpretationRecord → Option (List Text)
on_table graph table [] = some []
on_table graph table (i ∷ rest) = do
  field ← lookup i.field_id graph.fields
  others ← on_table graph table rest
  some (if text_eq field.locator.table table then i.id ∷ others else others)

-- The interpretations whose field has the locator.
unfoldable pub at_locator :
    (FieldLocator → Text) → Graph → Text → List InterpretationRecord → Option (List Text)
at_locator show graph locator [] = some []
at_locator show graph locator (i ∷ rest) = do
  field ← lookup i.field_id graph.fields
  others ← at_locator show graph locator rest
  some (if text_eq (show field.locator) locator then i.id ∷ others else others)

-- The order of `pivot`.
unfoldable pub pivot_leb : GraphStep → GraphStep → Bool
pivot_leb s t = then_leb (step_rank s) (step_rank t) (
    then_leb s.target_locator t.target_locator (
      then_leb s.target_interpretation t.target_interpretation
        (lex_leb s.relationship_id t.relationship_id)))

unfoldable pub all_leaving : Adjacency → List Text → List GraphStep
all_leaving steps [] = []
all_leaving steps (source ∷ rest) = leaving steps source ++ all_leaving steps rest

abbrev pub found_or {ℓ} : {A : Type ℓ} → Option A → Outcome A
found_or none = failed missing_record
found_or (some a) = done a

infixl 5 ◌>>>=◌
abbrev pub ◌>>>=◌ {ℓ κ} : {A : Type ℓ} {B : Type κ} → Outcome A → (A → Outcome B) → Outcome B
done a >>>= f = f a
failed e >>>= f = failed e

-- The diagnostics that `table_paths` reports at its end.
pub record Diagnostics : Type 0 where
  pub search_complete : Bool
  pub paths_truncated : Bool
  pub expansion_limit_reached : Bool
  pub generated_states : ℕ

pub record Answer : Type 0 where
  pub paths : List (List GraphStep)
  pub diagnostics : Diagnostics

-- The diagnostics and the paths of a search that has ended.
unfoldable pub conclude : Limits → Search → Answer
conclude l s =
    let truncated = ltb l.max_paths (length s.found) in
    record {
      paths = take l.max_paths (sort_by (λ p q. path_leb p q true) s.found);
      diagnostics = record {
        search_complete = not s.exhausted && not truncated;
        paths_truncated = truncated;
        expansion_limit_reached = s.exhausted;
        generated_states = s.generated;
      };
    }

-- The answer where the source or the target table has no interpretation.
abbrev pub no_routes : Answer
no_routes = record {
  paths = [];
  diagnostics = record {
    search_complete = true;
    paths_truncated = false;
    expansion_limit_reached = false;
    generated_states = 0;
  };
}

abbrev pub start : Search
start = record { queue = []; found = []; generated = 0; exhausted = false }

-- The search from the sources to the targets; the fuel is one more than the entries that may be
-- generated.
unfoldable pub search_paths : Limits → Adjacency → List Text → List Text → Outcome Answer
search_paths l steps source_ids target_ids =
    elim (run l steps target_ids (suc l.max_expansions)
      (enqueue_sources l steps source_ids start)) [
        | none ↦ failed exhausted_fuel
        | some s ↦ done (conclude l s)
      ]

abbrev is_nil : List Text → Bool
is_nil [] = true
is_nil (x ∷ xs) = false

-- The tests of the limits at the head of `table_paths`.
unfoldable pub check_limits : Limits → Option PathError
check_limits l =
    if ltb l.max_depth 1 || ltb 12 l.max_depth
    then some bad_depth
    else if ltb l.max_paths 1
    then some bad_paths
    else if ltb l.max_expansions 1
    then some bad_expansions
    else none

-- What the callers choose beside the tables.
pub record Query : Type 0 where
  pub limits : Limits
  pub availability : Availability
  pub include_candidates : Bool
  pub include_unavailable : Bool

-- `show` is `str` of a locator.
module _ (show : FieldLocator → Text) (graph : Graph) where
  -- `_adjacency` with the options of the query.
  abbrev pub query_adjacency : Query → Outcome Adjacency
  query_adjacency q =
      found_or (adjacency show graph q.availability q.include_candidates q.include_unavailable)

  -- `table_paths`
  unfoldable pub table_paths : Query → Text → Text → Outcome Answer
  table_paths q source_table target_table = elim (check_limits q.limits) [
    | some e ↦ failed e
    | none ↦ found_or (on_table graph source_table (values graph.interpretations)) >>>= λ sources.
        found_or (on_table graph target_table (values graph.interpretations)) >>>= λ target_ids.
        if is_nil sources || is_nil target_ids
        then done no_routes
        else (query_adjacency q >>>= λ steps.
            search_paths q.limits steps (sort_texts sources) target_ids)
  ]

  -- `pivot`
  unfoldable pub pivot : Query → Text → Outcome (List GraphStep)
  pivot q locator = query_adjacency q >>>= λ steps.
      found_or (at_locator show graph locator (values graph.interpretations)) >>>= λ matches.
      if is_nil matches
      then failed unknown_locator
      else done (sort_by pivot_leb (all_leaving steps (sort_texts matches)))
