-- ===== src/Tests/Filter.antt =====
-- A filter with values that hold apostrophes.
use mathlib.Core.Path.{subst}
use m365_xdr_cli.Base.{◌≡◌, refl, true, Option, none, some, [], ◌∷◌, Text, codes}
use m365_xdr_cli.Helpers.{
  Filters, build_odata_filter, since_part, one_of, clause, odata_string_literal, double_quotes,
}
use m365_xdr_cli.Helpers.Literals.{outside, literals, plain}
use m365_xdr_cli.Helpers.Filter.{IsPlain, literals-build_odata_filter}

abbrev noon : Text
noon = codes "2026-11-25T12:00:00Z"

abbrev always_noon : Text → Option Text
always_noon s = some noon

abbrev two_severities : Filters
two_severities = record {
  severity = codes "high" ∷ codes "it's" ∷ [];
  status = [];
  assigned_to = some (codes "o'hara' or 1 eq 1");
  since = some (codes "7d");
  service_source = none;
}

abbrev filter_text : Text
filter_text =
    codes
      "(severity eq 'high' or severity eq 'it''s') and assignedTo eq 'o''hara'' or 1 eq 1' and createdDateTime ge 2026-11-25T12:00:00Z"

always_noon-IsPlain : IsPlain always_noon
always_noon-IsPlain s iso e =
    let same : noon ≡ iso = cc in subst (λ (t : Text). plain t ≡ true) same refl

literals-build_odata_filter_example :
    literals outside filter_text
    ≡ some (codes "high" ∷ codes "it's" ∷ codes "o'hara' or 1 eq 1" ∷ [])
unfolding build_odata_filter since_part one_of clause odata_string_literal double_quotes
literals-build_odata_filter_example =
    literals-build_odata_filter always_noon two_severities filter_text always_noon-IsPlain refl
