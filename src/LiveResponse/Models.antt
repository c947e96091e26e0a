-- ===== src/LiveResponse/Models.antt =====
-- src/xdr_cli/live_response/models.py: the typed values of a Live Response command.
use m365_xdr_cli.Base.{
  Bool, true, false, ◌||◌, Option, none, some, List, [], ◌∷◌, ◌++◌, Text, text_eq, if◌then◌else◌,
}
use m365_xdr_cli.Base.Dict.{Dict, lookup_or}

pub data Platform : Type 0 where
  windows macos linux : Platform

pub data Risk : Type 0 where
  local read collect place execute device_action library_write : Risk

-- Equality of platforms.
abbrev pub same_platform : Platform → Platform → Bool
same_platform windows windows = true
same_platform macos macos = true
same_platform linux linux = true
same_platform _ _ = false

abbrev pub all_platforms : List Platform
all_platforms = windows ∷ macos ∷ linux ∷ []

-- `platform in platforms`
unfoldable pub offers : Platform → List Platform → Bool
offers p [] = false
offers p (q ∷ rest) = same_platform p q || offers p rest

-- `risk is LRRisk.LOCAL`
abbrev pub is_local : Risk → Bool
is_local local = true
is_local _ = false

-- Membership in `MUTATION_POLICY_RISKS`.
abbrev pub needs_mutation_policy : Risk → Bool
needs_mutation_policy local = false
needs_mutation_policy read = false
needs_mutation_policy _ = true

pub record ParamSpec : Type 0 where
  pub param_id : Text
  pub required : Bool
  pub choices : Option (List Text)
  pub label : Option Text
  pub is_path : Bool

pub record FlagSpec : Type 0 where
  pub flag_id : Text
  pub short_name : Option Text
  pub long_name : Option Text

-- One row of `risk_by_value`: a parameter, a value of it, and the risk at that value.
pub record RiskRule : Type 0 where
  pub param_id : Text
  pub value : Text
  pub risk : Risk

pub record CommandSpec : Type 0 where
  pub name : Text
  pub risk : Risk
  pub platforms : List Platform
  pub evidence : Text
  pub summary : Text
  pub aliases : List Text
  pub params : List ParamSpec
  pub flags : List FlagSpec
  pub risk_by_value : List RiskRule
  pub official_type : Option Text
  pub local_note : Option Text
  pub advanced : Bool

-- The values of a command by parameter id.
abbrev pub Values : Type 0
Values = Dict Text

-- `bool(name)` of an optional name, and the name in lower case if so.
optional_spelling : (Text → Text) → Option Text → List Text
optional_spelling lower none = []
optional_spelling lower (some []) = []
optional_spelling lower (some (c ∷ cs)) = lower (c ∷ cs) ∷ []

module _ (lower : Text → Text) where
  -- `LRFlagSpec.spellings`
  unfoldable pub spellings : FlagSpec → List Text
  unfolding optional_spelling
  spellings f =
      optional_spelling lower (some f.flag_id)
      ++ (optional_spelling lower f.short_name ++ optional_spelling lower f.long_name)

  -- The loop of `risk_for`: the first rule whose value is given decides.
  risk_by : Values → List RiskRule → Risk → Risk
  risk_by values [] default = default
  risk_by values (r ∷ rules) default =
      if text_eq (lower (lookup_or r.param_id values [])) r.value
      then r.risk
      else risk_by values rules default

  -- `LRCommandSpec.risk_for`
  unfoldable pub risk_for : CommandSpec → Values → Risk
  unfolding risk_by
  risk_for spec values = risk_by values spec.risk_by_value spec.risk

pub record ParsedCommand : Type 0 where
  pub spec : CommandSpec
  pub params : List (Text × Text)
  pub flags : List Text
  pub risk : Risk
  pub console_line : Text
  pub raw_line : Text
  pub background : Bool
  pub output_to : Option Text
