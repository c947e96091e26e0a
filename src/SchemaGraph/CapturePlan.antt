-- ===== src/SchemaGraph/CapturePlan.antt =====
-- src/xdr_cli/schema_graph/capture_plan.py: which tables are captured, and over which interval, with the
-- storage types and queryable rows of physical.py that it reads.
pub mod Accounts
pub mod Safe
pub mod Interval
use m365_xdr_cli.Base.{
  ℕ, ◌+◌, ◌-◌, ◌%◌, Bool, true, false, ◌&&◌, ◌||◌, not, Option, none, some, List, [], ◌∷◌, ◌++◌,
  Text, codes, text_eq, contains, strip, reverse, length, take, keep, ltb, leb, ◌==◌, if◌then◌else◌,
}
use m365_xdr_cli.Base.Dict.{Dict, keys, lookup_or, insert, has_key}
use m365_xdr_cli.Base.Sort.{sort_texts}
use m365_xdr_cli.Base.Attempt.{Attempt, returned, raised}
use m365_xdr_cli.SchemaGraph.Lineage.Origins.{is_ident, is_identifier}

-- What is read of a row: `none` where it is no text.
pub record SchemaRow : Type 0 where
  pub table_name : Option Text
  pub column_name : Option Text
  pub column_type : Option Text
  -- `none` where `Sources` is missing, and no name where it is no list.
  pub sources : Option (List Text)

-- `_TYPES` of physical.py
abbrev storage_types : Dict Text
storage_types =
    (codes "string", codes "string")
    ∷ (codes "system.string", codes "string")
    ∷ (codes "dynamic", codes "dynamic")
    ∷ (codes "system.dynamic", codes "dynamic")
    ∷ (codes "object", codes "dynamic")
    ∷ (codes "system.object", codes "dynamic")
    ∷ (codes "datetime", codes "datetime")
    ∷ (codes "system.datetime", codes "datetime")
    ∷ (codes "timespan", codes "timespan")
    ∷ (codes "system.timespan", codes "timespan")
    ∷ (codes "int", codes "int")
    ∷ (codes "int32", codes "int")
    ∷ (codes "system.int32", codes "int")
    ∷ (codes "long", codes "long")
    ∷ (codes "int64", codes "long")
    ∷ (codes "system.int64", codes "long")
    ∷ (codes "real", codes "real")
    ∷ (codes "double", codes "real")
    ∷ (codes "system.double", codes "real")
    ∷ (codes "bool", codes "bool")
    ∷ (codes "boolean", codes "bool")
    ∷ (codes "system.boolean", codes "bool")
    ∷ (codes "guid", codes "guid")
    ∷ (codes "system.guid", codes "guid")
    ∷ (codes "decimal", codes "decimal")
    ∷ (codes "system.decimal", codes "decimal")
    ∷ []

-- `is_queryable_row` of physical.py
unfoldable pub is_queryable_row : SchemaRow → Bool
is_queryable_row row = elim row.sources [
  | none ↦ true
  | some names ↦ contains (codes "getschema") names
]

-- `set.add`
abbrev add_text : Text → List Text → List Text
add_text t ts = if contains t ts then ts else ts ++ (t ∷ [])

-- The types that were seen of each column.
abbrev pub Columns : Type 0
Columns = Dict (List Text)

-- `TIME_COLUMNS`
abbrev time_columns : List Text
time_columns = codes "Timestamp" ∷ codes "TimeGenerated" ∷ []

-- `SNAPSHOT_TABLES`
abbrev snapshot_tables : List Text
snapshot_tables =
    codes "AADRiskyUsers"
    ∷ codes "AgentsInfo"
    ∷ codes "AIAgentsInfo"
    ∷ codes "ConnectorStatusInfo"
    ∷ codes "DeviceBaselineComplianceAssessment"
    ∷ codes "DeviceBaselineComplianceProfiles"
    ∷ codes "DeviceInfo"
    ∷ codes "DeviceNetworkInfo"
    ∷ codes "DeviceTvmBrowserExtensions"
    ∷ codes "DeviceTvmCertificateInfo"
    ∷ codes "DeviceTvmHardwareFirmware"
    ∷ codes "DeviceTvmInfoGathering"
    ∷ codes "DeviceTvmSecureConfigurationAssessment"
    ∷ codes "IdentityAccountInfo"
    ∷ codes "IdentityInfo"
    ∷ codes "OAuthAppInfo"
    ∷ []

-- `KIND_EVENT`, `KIND_SNAPSHOT` and `KIND_STATE`
pub data CaptureKind : Type 0 where
  event snapshot_timed state : CaptureKind

pub record CaptureTable : Type 0 where
  pub name : Text
  pub kind : CaptureKind
  pub time_column : Option Text
  pub column_count : ℕ
  pub key_columns : List Text

-- The reasons of `_exclusion`, and a table that is not in the cache.
pub data Reason : Type 0 where
  unsafe_table_name global_knowledge_base time_column_not_datetime not_in_physical_cache : Reason

pub record Exclusion : Type 0 where
  pub table : Text
  pub reason : Reason

-- `set == {t}`
abbrev pub is_only : Text → List Text → Bool
is_only t (u ∷ []) = text_eq u t
is_only t _ = false

-- `TABLE_NAME` of hunting_tables.py
unfoldable pub is_table_name : Text → Bool
is_table_name t = is_identifier t && leb (length t) 256

-- `_COLUMN`
unfoldable pub is_column_name : Text → Bool
is_column_name t = is_ident t && leb (length t) 256

-- `name.endswith("KB")`
unfoldable pub ends_in_kb : Text → Bool
ends_in_kb t = elim (reverse t) [
  | [] ↦ false
  | b ∷ rest ↦ elim rest [ [] ↦ false | k ∷ more ↦ b == b'B' && k == b'K' ]
]

-- One column of `_exclusion`: it is there, and is not only `datetime`.
unfoldable pub is_not_datetime : Columns → Text → Bool
is_not_datetime columns column =
    has_key column columns && not (is_only (codes "datetime") (lookup_or column columns []))

-- `_exclusion`
unfoldable pub exclusion : Text → Columns → Option Reason
exclusion name columns =
    if not (is_table_name name) || ltb 128 (length name)
    then some Reason.unsafe_table_name
    else if ends_in_kb name
    then some Reason.global_knowledge_base
    else if is_not_datetime columns (codes "Timestamp")
        || is_not_datetime columns (codes "TimeGenerated")
    then some Reason.time_column_not_datetime
    else none

-- `next((c for c in TIME_COLUMNS if c in columns), None)`
unfoldable pub time_column_of : List Text → Columns → Option Text
time_column_of [] columns = none
time_column_of (c ∷ cs) columns =
    let later = time_column_of cs columns in if has_key c columns then some c else later

unfoldable pub kind_of : Text → Option Text → CaptureKind
kind_of name none = state
kind_of name (some c) = if contains name snapshot_tables then snapshot_timed else event

-- One type, neither dynamic nor unknown.
abbrev is_scalar_type : List Text → Bool
is_scalar_type (t ∷ []) = not (text_eq t (codes "dynamic") || text_eq t (codes "unknown"))
is_scalar_type _ = false

unfoldable pub scalar_columns : Columns → List Text
scalar_columns [] = []
scalar_columns ((name, types) ∷ more) =
    let others = scalar_columns more in
    if is_scalar_type types && is_column_name name then name ∷ others else others

-- `_key_columns`, with `MAX_KEY_COLUMNS`
unfoldable pub key_columns_of : Columns → List Text
key_columns_of columns = take 64 (sort_texts (scalar_columns columns))

pub record Selection : Type 0 where
  pub tables : List CaptureTable
  pub exclusions : List Exclusion

unfoldable pub capture_table : Text → Columns → CaptureTable
capture_table name columns = record {
  name = name;
  kind = kind_of name (time_column_of time_columns columns);
  time_column = time_column_of time_columns columns;
  column_count = length columns;
  key_columns = key_columns_of columns;
}

-- One round of the loop over the cached tables.
unfoldable pub select_one : Text → Columns → Selection → Selection
select_one name columns s = elim (exclusion name columns) [
  | some reason ↦ record s {
    exclusions = (record { table = name; reason = reason }) ∷ s.exclusions;
  }
  | none ↦ record s { tables = capture_table name columns ∷ s.tables }
]

-- The tables that were asked for, if any were.
abbrev pub is_wanted : Option (List Text) → Text → Bool
is_wanted none name = true
is_wanted (some wanted) name = contains name wanted

-- The loop.
unfoldable pub select_tables : Dict Columns → Option (List Text) → List Text → Selection
select_tables columns wanted [] = record { tables = []; exclusions = [] }
select_tables columns wanted (name ∷ names) =
    let others = select_tables columns wanted names in
    if is_wanted wanted name then select_one name (lookup_or name columns []) others else others

-- The names without repetition that are not in the cache.
unfoldable pub missing_names : Dict Columns → List Text → List Text
missing_names columns [] = []
missing_names columns (name ∷ names) =
    let others = missing_names columns names in
    if has_key name columns || contains name others then others else name ∷ others

abbrev not_cached : List Text → List Exclusion
not_cached [] = []
not_cached (name ∷ names) =
    (record { table = name; reason = Reason.not_in_physical_cache }) ∷ not_cached names

abbrev pub given_names : Option (List Text) → List Text
given_names none = []
given_names (some wanted) = wanted

-- `plan_capture` behind the columns and the interval
unfoldable pub select : Dict Columns → Option (List Text) → Selection
select columns wanted =
    let s = select_tables columns wanted (sort_texts (keys columns)) in
    record s {
      exclusions =
          s.exclusions ++ not_cached (sort_texts (missing_names columns (given_names wanted)));
    }

-- `capture_interval`: instants in microseconds since the first that `datetime` has, in UTC. A horizon
-- that is not positive is 0 here.
pub data IntervalError : Type 0 where
  horizon_not_positive overflow : IntervalError

unfoldable pub capture_interval : ℕ → ℕ → Attempt IntervalError (ℕ × ℕ)
capture_interval now horizon =
    if horizon == 0
    then raised IntervalError.horizon_not_positive
    else let end = now - now % 60_000_000 in
      if ltb end horizon then raised IntervalError.overflow else returned (end - horizon, end)

pub record CapturePlan : Type 0 where
  pub start : ℕ
  pub end : ℕ
  pub selection : Selection

-- `str.casefold`
module _ (casefold : Text → Text) where
  -- `canonical_storage_type` of physical.py, or `"unknown"`
  unfoldable pub storage_type : Option Text → Text
  storage_type none = codes "unknown"
  storage_type (some t) = lookup_or (casefold (strip t)) storage_types (codes "unknown")

  -- One row, where both names are texts.
  unfoldable pub add_column : Text → Text → Text → Dict Columns → Dict Columns
  add_column table column storage columns =
      let known = lookup_or table columns [] in
      insert table (insert column (add_text storage (lookup_or column known [])) known) columns

  abbrev add_named : SchemaRow → Option Text → Option Text → Dict Columns → Dict Columns
  add_named row (some table) (some column) columns =
      add_column table column (storage_type row.column_type) columns
  add_named row _ _ columns = columns

  unfoldable pub collect_columns : List SchemaRow → Dict Columns → Dict Columns
  collect_columns [] columns = columns
  collect_columns (row ∷ rows) columns =
      collect_columns rows (add_named row row.table_name row.column_name columns)

  -- `plan_capture`
  unfoldable pub plan_capture :
      List SchemaRow → ℕ → ℕ → Option (List Text) → Attempt IntervalError CapturePlan
  plan_capture rows now horizon wanted = elim (capture_interval now horizon) [
    | raised e ↦ raised e
    | returned (start, end) ↦ returned (record {
      start = start;
      end = end;
      selection = select (collect_columns (keep is_queryable_row rows) []) wanted;
    })
  ]
