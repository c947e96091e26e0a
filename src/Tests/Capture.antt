-- ===== src/Tests/Capture.antt =====
-- A cache of one event table, and a request for it and for one that is not there.
use m365_xdr_cli.Base.{
  ◌≡◌, refl, Option, none, some, List, [], ◌∷◌, Text, Text-discrete, codes, All, inl, inr, strip,
  is_space,
}
use m365_xdr_cli.Base.Decimal.{is_digit}
use m365_xdr_cli.Base.Dict.{Dict, lookup, lookup_or, insert, has_key}
use m365_xdr_cli.Base.Sort.{sort_texts, sort_by, insert_sorted, lex_leb}
use m365_xdr_cli.Base.Attempt.{returned}
use m365_xdr_cli.SchemaGraph.Lineage.Origins.{is_ident, is_identifier}
use m365_xdr_cli.SchemaGraph.CapturePlan.{
  SchemaRow, Columns, CaptureTable, event, Reason, Exclusion, is_queryable_row, is_table_name,
  is_column_name, ends_in_kb, is_not_datetime, exclusion, time_column_of, kind_of, scalar_columns,
  key_columns_of, capture_table, select_one, select_tables, missing_names, select, capture_interval,
  storage_type, add_column, collect_columns, plan_capture,
}
use m365_xdr_cli.SchemaGraph.CapturePlan.Accounts.{IsAccounted, select-IsAccounted}
use m365_xdr_cli.SchemaGraph.CapturePlan.Safe.{IsCapturable, select-IsCapturable}
use m365_xdr_cli.SchemaGraph.CapturePlan.Interval.{IsInterval, capture_interval-IsInterval}

abbrev row : Text → Text → SchemaRow
row column type = record {
  table_name = some (codes "DeviceEvents");
  column_name = some column;
  column_type = some type;
  sources = none;
}

abbrev cache : Dict Columns
cache =
    (
      codes "DeviceEvents",
      (codes "Timestamp", codes "datetime" ∷ []) ∷ (codes "DeviceId", codes "string" ∷ []) ∷ [],
    )
    ∷ []

abbrev request : Option (List Text)
request = some (codes "DeviceEvents" ∷ codes "Missing" ∷ [])

-- The letters are lower case already.
abbrev fold : Text → Text
fold t = t

abbrev device_events : CaptureTable
device_events = record {
  name = codes "DeviceEvents";
  kind = event;
  time_column = some (codes "Timestamp");
  column_count = 2;
  key_columns = codes "DeviceId" ∷ codes "Timestamp" ∷ [];
}

abbrev missing : Exclusion
missing = record { table = codes "Missing"; reason = Reason.not_in_physical_cache }

planned :
    plan_capture fold
      (row (codes "Timestamp") (codes "datetime") ∷ row (codes "DeviceId") (codes " string ") ∷ [])
      200_000_000
      60_000_000
      request
    ≡ returned (record {
      start = 120_000_000;
      end = 180_000_000;
      selection = record { tables = device_events ∷ []; exclusions = missing ∷ [] };
    })
unfolding Text-discrete strip is_space is_digit lookup lookup_or insert has_key sort_texts sort_by
    insert_sorted lex_leb is_ident is_identifier is_queryable_row is_table_name is_column_name
    ends_in_kb is_not_datetime exclusion time_column_of kind_of scalar_columns key_columns_of
    capture_table select_one select_tables missing_names select capture_interval storage_type
    add_column collect_columns plan_capture
planned = refl

select-IsAccounted_example : IsAccounted (codes "Missing") (select cache request)
unfolding Text-discrete
select-IsAccounted_example =
    select-IsAccounted cache request (codes "Missing") refl (inr (inr (inl refl)))

select-IsCapturable_example : All (IsCapturable cache request) (select cache request).tables
select-IsCapturable_example = select-IsCapturable cache request

capture_interval-IsInterval_example : IsInterval 200_000_000 60_000_000 120_000_000 180_000_000
unfolding capture_interval
capture_interval-IsInterval_example =
    capture_interval-IsInterval 200_000_000 60_000_000 120_000_000 180_000_000 refl
