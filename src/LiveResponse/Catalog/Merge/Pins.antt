-- ===== src/LiveResponse/Catalog/Merge/Pins.antt =====
-- What `merge_definitions` of live_response/catalog.py keeps of the pinned table.
use m365_xdr_cli.Base.{◌≡◌, ◌⊎◌, true, Option, List, [], ◌∷◌, Text, Among, All}
use m365_xdr_cli.Base.Dict.{Dict}
use m365_xdr_cli.Base.Attempt.{Attempt}
use m365_xdr_cli.LiveResponse.Models.{CommandSpec, is_local}
use m365_xdr_cli.LiveResponse.Catalog.Merge.{Definition, Collected}

-- The server offers the command.
abbrev pub Offered : (Text → Text) → Text → List Definition → Type 0
Offered lower name [] = ⊥
Offered lower name (d ∷ rest) = (lower d.command_definition_id ≡ name) ⊎ Offered lower name rest

-- What a specification of a session keeps of the pinned table.
pub record IsPinned (lower : Text → Text) (pinned : List CommandSpec)
    (definitions : List Definition) (s : CommandSpec) : Type 0 where
  pub pin : CommandSpec
  pub among : Among pin pinned
  pub name : s.name ≡ pin.name
  pub risk : s.risk ≡ pin.risk
  pub platforms : s.platforms ≡ pin.platforms
  pub risk_by_value : s.risk_by_value ≡ pin.risk_by_value
  pub offered : (is_local s.risk ≡ true) ⊎ Offered lower s.name definitions

module _ (lower : Text → Text) (pinned : List CommandSpec) (definitions : List Definition) where
  abbrev Pinned : CommandSpec → Type 0
  Pinned = IsPinned lower pinned definitions

  abbrev AllPinned : Collected → Type 0
  AllPinned c = All Pinned c.specs
