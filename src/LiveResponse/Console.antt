-- ===== src/LiveResponse/Console.antt =====
-- `parse_console_line` and `build_command` of src/xdr_cli/live_response/parser.py: the two ways to a
-- command, from the operator's text and from structured options.
pub mod Accepted
use m365_xdr_cli.Base.{
  Bool, ◌||◌, not, Option, none, some, List, [], ◌∷◌, ◌++◌, Text, codes, text_eq, any, strip,
  if◌then◌else◌,
}
use m365_xdr_cli.Base.Dict.{Dict, lookup, keys}
use m365_xdr_cli.LiveResponse.Models.{
  Platform, ParamSpec, FlagSpec, CommandSpec, Values, ParsedCommand,
}
use m365_xdr_cli.LiveResponse.Failure.{Failure, Result, err, ◌>>=◌}
use m365_xdr_cli.LiveResponse.Tokens.{Token, tokenize}
use m365_xdr_cli.LiveResponse.Suffix.{Split, split_suffix}
use m365_xdr_cli.LiveResponse.Bind.{bind}
use m365_xdr_cli.LiveResponse.Parser.{finish, canonical}

-- The commands by lower-case name and alias: the pinned catalog, or a session's where one is given.
abbrev pub Index : Type 0
Index = Dict CommandSpec

-- The tokens of the command: the name is looked up, and the rest is bound and checked.
unfoldable pub run_command :
    (Text → Text) → Index → Option Platform → Text → Split → List Token → Result ParsedCommand
run_command lower index platform text split [] = err Failure.missing_command
run_command lower index platform text split (head ∷ rest) =
    if head.quoted then err Failure.quoted_command else elim (lookup (lower head.value) index) [
      | none ↦ err Failure.unknown_command
      | some spec ↦ do
        bound ← bind lower spec rest
        finish lower spec (record {
          values = bound.values;
          flags = bound.flags;
          platform = platform;
          raw_line = strip text;
          output_to = split.output_to;
          background = split.background;
        })
    ]

-- `parse_console_line`
unfoldable pub parse_console_line :
    (Text → Text) → Index → Option Platform → Text → Result ParsedCommand
parse_console_line lower index platform text = do
  tokens ← tokenize text
  split ← split_suffix tokens
  run_command lower index platform text split split.tokens

-- `{key: value for key, value in params.items() if value is not None}`
unfoldable pub given : Dict (Option Text) → Values
given [] = []
given ((k, none) ∷ rest) = given rest
given ((k, some v) ∷ rest) = (k, v) ∷ given rest

unfoldable pub names_param : List ParamSpec → Text → Bool
names_param params k = any (λ p. text_eq k p.param_id) params

unfoldable pub names_flag : List FlagSpec → Text → Bool
names_flag flags k = any (λ f. text_eq k f.flag_id) flags

-- A name that is no parameter of the command, or a flag that it does not have.
unfoldable pub has_unknown : CommandSpec → Values → List Text → Bool
has_unknown spec values flags =
    any (λ k. not (names_param spec.params k)) (keys values)
    || any (λ k. not (names_flag spec.flags k)) flags

-- What `build_command` is given.
pub record Options : Type 0 where
  pub verb : Text
  pub params : Dict (Option Text)
  pub flags : List Text
  pub platform : Option Platform
  pub background : Bool

-- `build_command` behind the look-up of the verb.
unfoldable pub build_from : (Text → Text) → CommandSpec → Options → Result ParsedCommand
build_from lower spec o =
    let values = given o.params in
    let line = canonical spec values o.flags in
    if has_unknown spec values o.flags
    then err Failure.unknown_names
    else finish lower spec (record {
      values = values;
      flags = o.flags;
      platform = o.platform;
      raw_line = if o.background then line ++ codes " &" else line;
      output_to = none;
      background = o.background;
    })

-- `build_command`
unfoldable pub build_command : (Text → Text) → Index → Options → Result ParsedCommand
build_command lower index o = elim (lookup o.verb index) [
  | none ↦ err Failure.unknown_command
  | some spec ↦
      if text_eq spec.name o.verb then build_from lower spec o else err Failure.unknown_command
]
