-- ===== src/SchemaGraph/CapturePlan/Safe.antt =====
-- What capture_plan.py plans to capture.
use mathlib.Core.Path.{subst}
use m365_xdr_cli.Base.{
  ◌≤◌, ◌≡◌, refl, Bool, true, false, Option, none, some, List, [], ◌∷◌, Text, codes, length,
  length-take, All, ltb, if◌then◌else◌, arith,
}
use m365_xdr_cli.Base.Dict.{Dict, keys, lookup_or, has_key}
use m365_xdr_cli.Base.Sort.{sort_texts}
use m365_xdr_cli.SchemaGraph.CapturePlan.{
  Columns, CaptureTable, Reason, Selection, is_only, is_table_name, ends_in_kb, is_not_datetime,
  exclusion, time_column_of, scalar_columns, key_columns_of, capture_table, select_one, is_wanted,
  select_tables, select,
}

-- A table that may be captured, for the columns that are in the cache.
pub record IsCapturable (columns : Dict Columns) (wanted : Option (List Text)) (t : CaptureTable)
    : Type 0 where
  pub asked : is_wanted wanted t.name ≡ true
  pub name_form : is_table_name t.name ≡ true
  pub short : length t.name ≤ 128
  pub local : ends_in_kb t.name ≡ false
  pub timed :
      (c : Text)
      → t.time_column ≡ some c
      → is_only (codes "datetime") (lookup_or c (lookup_or t.name columns []) []) ≡ true
  pub few_keys : length t.key_columns ≤ 64

-- What `_exclusion` has checked where it lets a table through.
record IsIncluded (name : Text) (columns : Columns) : Type 0 where
  form : is_table_name name ≡ true
  short : ltb 128 (length name) ≡ false
  local : ends_in_kb name ≡ false
  stamped : is_not_datetime columns (codes "Timestamp") ≡ false
  generated : is_not_datetime columns (codes "TimeGenerated") ≡ false

exclusion-eq-none :
    (name : Text) (columns : Columns) → exclusion name columns ≡ none → IsIncluded name columns
unfolding exclusion
exclusion-eq-none name columns h = record {
  form = parts.0;
  short = parts.1;
  local = parts.2;
  stamped = parts.3;
  generated = parts.4;
}
  where
    parts :
        (is_table_name name ≡ true)
        × (ltb 128 (length name) ≡ false)
        × (ends_in_kb name ≡ false)
        × (is_not_datetime columns (codes "Timestamp") ≡ false)
        × (is_not_datetime columns (codes "TimeGenerated") ≡ false)
    parts = ground arith

datetime_only :
    (columns : Columns) (c : Text)
    → has_key c columns ≡ true
    → is_not_datetime columns c ≡ false
    → is_only (codes "datetime") (lookup_or c columns []) ≡ true
unfolding is_not_datetime
datetime_only columns c there h = ground arith

time_column_typed :
    (cs : List Text) (columns : Columns) (c : Text)
    → All (λ (x : Text). is_not_datetime columns x ≡ false) cs
    → time_column_of cs columns ≡ some c
    → is_only (codes "datetime") (lookup_or c columns []) ≡ true
unfolding time_column_of
time_column_typed [] columns c h e = absurd (cc)
time_column_typed (x ∷ xs) columns c (h, hs) e =
    go (has_key x columns) refl (time_column_typed xs columns c hs) e
  where
    go :
        (b : Bool)
        → has_key x columns ≡ b
        → (time_column_of xs columns ≡ some c
            → is_only (codes "datetime") (lookup_or c columns []) ≡ true)
        → (if b then some x else time_column_of xs columns) ≡ some c
        → is_only (codes "datetime") (lookup_or c columns []) ≡ true
    go true q k p =
        subst (λ (y : Text). is_only (codes "datetime") (lookup_or y columns []) ≡ true)
          (some_injective x c p) (datetime_only columns x q h)
      where
        some_injective : (a b : Text) → Path (Option Text) (some a) (some b) → a ≡ b
        some_injective a b r = cc
    go false q k p = k p

module _ (columns : Dict Columns) (wanted : Option (List Text)) where
  capture_table-IsCapturable :
      (name : Text)
      → is_wanted wanted name ≡ true
      → exclusion name (lookup_or name columns []) ≡ none
      → IsCapturable columns wanted (capture_table name (lookup_or name columns []))
  unfolding capture_table key_columns_of
  capture_table-IsCapturable name w h =
      let i = exclusion-eq-none name (lookup_or name columns []) h in
      let short : length name ≤ 128 = ground (arith, i.short) in
      record {
        asked = w;
        name_form = i.form;
        short = short;
        local = i.local;
        timed = λ c e.
            time_column_typed (codes "Timestamp" ∷ codes "TimeGenerated" ∷ [])
              (lookup_or name columns []) c (i.stamped, (i.generated, tt)) e;
        few_keys = length-take 64 (sort_texts (scalar_columns (lookup_or name columns [])));
      }

  select_one-IsCapturable :
      (name : Text) (s : Selection)
      → is_wanted wanted name ≡ true
      → All (IsCapturable columns wanted) s.tables
      → All (IsCapturable columns wanted) (select_one name (lookup_or name columns []) s).tables
  unfolding select_one
  select_one-IsCapturable name s w h = go (exclusion name (lookup_or name columns [])) refl
    where
      go :
          (o : Option Reason)
          → exclusion name (lookup_or name columns []) ≡ o
          → All (IsCapturable columns wanted) (
              (elim o as (λ x. Selection) [
                | some reason ↦ record s {
                  exclusions = (record { table = name; reason = reason }) ∷ s.exclusions;
                }
                | none ↦ record s {
                  tables = capture_table name (lookup_or name columns []) ∷ s.tables;
                }
              ]).tables)
      go none e = (capture_table-IsCapturable name w e, h)
      go (some reason) e = h

  select_tables-IsCapturable :
      (names : List Text)
      → All (IsCapturable columns wanted) (select_tables columns wanted names).tables
  unfolding select_tables
  select_tables-IsCapturable [] = tt
  select_tables-IsCapturable (name ∷ names) =
      go (is_wanted wanted name) refl (select_tables-IsCapturable names)
    where
      go :
          (b : Bool)
          → is_wanted wanted name ≡ b
          → All (IsCapturable columns wanted) (select_tables columns wanted names).tables
          → All
              (IsCapturable columns wanted)
              (if b
                then select_one name
                    (lookup_or name columns [])
                    (select_tables columns wanted names)
                else select_tables columns wanted names).tables
      go true w h = select_one-IsCapturable name (select_tables columns wanted names) w h
      go false w h = h

  -- Every table that is captured was asked for where tables were named, has a name that is safe in a
  -- query, of at most 128 characters and not that of a global knowledge base, is bounded by no column
  -- that is not of type datetime alone, and has at most 64 key columns.
  pub select-IsCapturable : All (IsCapturable columns wanted) (select columns wanted).tables
  unfolding select
  select-IsCapturable = select_tables-IsCapturable (sort_texts (keys columns))
