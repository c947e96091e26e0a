-- ===== src/LiveResponse/Parser.antt =====
-- src/xdr_cli/live_response/parser.py behind the tokenizer: one console line, or the options of
-- the command line, is checked against the specification of its command.
pub mod Complete
use m365_xdr_cli.Base.{
  Bool, true, false, ◌&&◌, ◌||◌, not, Option, none, some, List, [], ◌∷◌, ◌++◌, Text, codes, text_eq,
  contains, any, find, has, is_space, join, ◌==◌, if◌then◌else◌,
}
use m365_xdr_cli.Base.Dict.{lookup, lookup_or, insert}
use m365_xdr_cli.LiveResponse.Models.{
  Platform, is_local, offers, ParamSpec, FlagSpec, CommandSpec, Values, ParsedCommand, risk_for,
}
use m365_xdr_cli.LiveResponse.Failure.{Failure, Result, ok, err, ◌>>=◌, ◌>>◌}

-- The choice that the value names in any case, in the spelling of the specification.
unfoldable pub canonical_choice : (Text → Text) → List Text → Text → Option Text
canonical_choice lower choices value = find (λ c. text_eq (lower c) (lower value)) choices

-- `set(value) & _SCRIPT_PARAMETER_FORBIDDEN`: the characters ; & | ! and $
abbrev script_forbidden : Text
script_forbidden = codes ";&|!$"

unfoldable pub has_forbidden : Text → Bool
has_forbidden = any (λ c. has c script_forbidden)

abbrev pub is_nil : Text → Bool
is_nil [] = true
is_nil (c ∷ cs) = false

module _ (lower : Text → Text) where
  -- The branch for `param.choices`: the value is replaced by the choice that it names.
  unfoldable pub check_choice : ParamSpec → Option (List Text) → Text → Values → Result Values
  check_choice p none value values = ok values
  check_choice p (some choices) value values = elim (canonical_choice lower choices value) [
    | none ↦ err (Failure.not_a_choice p.param_id)
    | some canonical ↦ ok (insert p.param_id canonical values)
  ]

  -- One parameter with the value that it was given, if any.
  unfoldable pub check_value : ParamSpec → Option Text → Values → Result Values
  check_value p none values =
      if p.required then err (Failure.missing_param p.param_id) else ok values
  check_value p (some value) values =
      if is_nil value
      then err (Failure.empty_param p.param_id)
      else check_choice p p.choices value values

  -- The loop of `_validate` over the parameters.
  unfoldable pub check_params : List ParamSpec → Values → Result Values
  check_params [] values = ok values
  check_params (p ∷ rest) values = do
    checked ← check_value p (lookup p.param_id values) values
    check_params rest checked

  -- `_validate`, which also puts each choice in its canonical spelling.
  unfoldable pub validate : CommandSpec → Values → Result Values
  validate spec values = do
    checked ← check_params spec.params values
    if text_eq spec.name (codes "run") && has_forbidden (lookup_or (codes "parameters") checked [])
        then err Failure.forbidden_parameter_chars
        else ok checked

-- `_QUOTE_CHARS` and whitespace: what needs quotes in the canonical line.
unfoldable pub needs_quotes : Text → Bool
needs_quotes [] = true
needs_quotes (c ∷ cs) = any (λ d. is_space d || has d (codes ";|&<>")) (c ∷ cs) || c == b'-'

-- `_quote`
unfoldable pub quote : Text → Text
quote value = if needs_quotes value then b'"' ∷ (value ++ (b'"' ∷ [])) else value

-- The parts of `_canonical` for the parameters: by position up to the first that is not given,
-- by name behind it.
unfoldable pub param_parts : List ParamSpec → Values → Bool → List Text
param_parts [] values positional = []
param_parts (p ∷ rest) values positional = elim (lookup p.param_id values) [
  | none ↦ param_parts rest values false
  | some value ↦
      (if positional then quote value else b'-' ∷ (p.param_id ++ (0x20 ∷ quote value)))
      ∷ param_parts rest values positional
]

-- The flags that are given, in the order of the specification.
unfoldable pub flag_parts : List FlagSpec → List Text → List Text
flag_parts [] flags = []
flag_parts (f ∷ rest) flags =
    let others = flag_parts rest flags in
    if contains f.flag_id flags then (b'-' ∷ f.flag_id) ∷ others else others

-- `_canonical`
unfoldable pub canonical : CommandSpec → Values → List Text → Text
unfolding param_parts flag_parts quote
canonical spec values flags =
    join (0x20 ∷ [])
      (spec.name ∷ (param_parts spec.params values true ++ flag_parts spec.flags flags))

-- `tuple((p.param_id, values[p.param_id]) for p in spec.params if p.param_id in values)`
unfoldable pub ordered_params : List ParamSpec → Values → List (Text × Text)
ordered_params [] values = []
ordered_params (p ∷ rest) values =
    let others = ordered_params rest values in
    elim (lookup p.param_id values) [ none ↦ others | some v ↦ (p.param_id, v) ∷ others ]

-- A platform is given and the command is not available on it.
abbrev pub excluded : Option Platform → CommandSpec → Bool
excluded none spec = false
excluded (some p) spec = not (offers p spec.platforms)

abbrev pub redirected : Option Text → Bool
redirected none = false
redirected (some file) = true

-- The last two checks of `_finish`.
unfoldable pub check_use : CommandSpec → Option Platform → Option Text → Bool → Result (Unit {0})
check_use spec platform output_to background =
    if excluded platform spec
    then err Failure.platform
    else if is_local spec.risk && (redirected output_to || background)
    then err Failure.local_only
    else ok tt

-- What `_finish` is given beside the specification.
pub record Request : Type 0 where
  pub values : Values
  pub flags : List Text
  pub platform : Option Platform
  pub raw_line : Text
  pub output_to : Option Text
  pub background : Bool

-- `_finish`
unfoldable pub finish : (Text → Text) → CommandSpec → Request → Result ParsedCommand
finish lower spec r = do
  values ← validate lower spec r.values
  check_use spec r.platform r.output_to r.background
  ok (record {
    spec = spec;
    params = ordered_params spec.params values;
    flags = r.flags;
    risk = risk_for lower spec values;
    console_line = canonical spec values r.flags;
    raw_line = r.raw_line;
    background = r.background;
    output_to = r.output_to;
  })
