-- ===== src/Helpers.antt =====
-- The OData filter of src/xdr_cli/helpers.py. What `parse_time_delta` and `strftime` make of the
-- relative time is a parameter, since it reads the clock.
pub mod Literals
pub mod Filter
use m365_xdr_cli.Base.{
  ℕ, Option, none, some, List, [], ◌∷◌, ◌++◌, map, Text, codes, join, ◌==◌, if◌then◌else◌, ◌>>=◌,
}

abbrev pub apostrophe : ℕ
apostrophe = 0x27

-- `value.replace("'", "''")`
unfoldable pub double_quotes : Text → Text
double_quotes [] = []
double_quotes (c ∷ cs) =
    let rest = double_quotes cs in if c == apostrophe then c ∷ c ∷ rest else c ∷ rest

-- `odata_string_literal`
unfoldable pub odata_string_literal : Text → Text
odata_string_literal value = apostrophe ∷ (double_quotes value ++ (apostrophe ∷ []))

-- `f"{name} eq {odata_string_literal(value)}"`
unfoldable pub clause : Text → Text → Text
clause name value = name ++ (codes " eq " ++ odata_string_literal value)

-- The part for a list of values: none, one clause, or the clauses in parentheses.
unfoldable pub one_of : Text → List Text → List Text
one_of name [] = []
one_of name (v ∷ []) = clause name v ∷ []
one_of name (v ∷ w ∷ rest) =
    (b'(' ∷ (join (codes " or ") (map (clause name) (v ∷ w ∷ rest)) ++ (b')' ∷ []))) ∷ []

-- The values that are given: neither `None` nor empty.
abbrev pub given_text : Option Text → List Text
given_text none = []
given_text (some []) = []
given_text (some (c ∷ cs)) = (c ∷ cs) ∷ []

-- The arguments of `build_odata_filter`; an absent list is an empty one.
pub record Filters : Type 0 where
  pub severity : List Text
  pub status : List Text
  pub assigned_to : Option Text
  pub since : Option Text
  pub service_source : Option Text

module _ (moment : Text → Option Text) where
  -- The part for `since`; `none` is the `ValueError` of a text that is no relative time.
  unfoldable pub since_part : List Text → Option (List Text)
  since_part [] = some []
  since_part (s ∷ rest) = do iso ← moment s; some ((codes "createdDateTime ge " ++ iso) ∷ [])

  -- `build_odata_filter`
  unfoldable pub build_odata_filter : Filters → Option Text
  build_odata_filter f = do
    created ← since_part (given_text f.since)
    some (
        join (codes " and ") (
          one_of (codes "severity") f.severity
          ++ (one_of (codes "status") f.status
              ++ (map (clause (codes "assignedTo")) (given_text f.assigned_to)
                  ++ (created
                      ++ map (clause (codes "serviceSource")) (given_text f.service_source))))))
