-- ===== src/LiveResponse/Bind.antt =====
-- `_bind` of src/xdr_cli/live_response/parser.py: the tokens behind the command name are given to
-- its parameters and flags.
use m365_xdr_cli.Base.{
  Bool, true, false, ◌&&◌, not, Option, none, some, List, [], ◌∷◌, ◌++◌, Text, contains, ◌==◌,
  if◌then◌else◌,
}
use m365_xdr_cli.Base.Dict.{Dict, lookup, has_key, insert, set_default}
use m365_xdr_cli.LiveResponse.Models.{ParamSpec, FlagSpec, CommandSpec, Values, spellings}
use m365_xdr_cli.LiveResponse.Failure.{Failure, Result, ok, err}
use m365_xdr_cli.LiveResponse.Tokens.{Token}

dashed : Text → Bool
dashed (c ∷ d ∷ rest) = c == b'-'
dashed _ = false

-- `_is_option`: an unquoted token of two characters or more that begins with a dash.
unfoldable pub is_option : Token → Bool
unfolding dashed
is_option t = not t.quoted && dashed t.value

-- `token.value[1:]`
abbrev pub behind_dash : Text → Text
behind_dash [] = []
behind_dash (c ∷ rest) = rest

-- What the loop has collected: the values by parameter id and the flags given.
pub record Bound : Type 0 where
  pub values : Values
  pub flags : List Text

-- `flags.add(flag)`
abbrev pub add_flag : Text → List Text → List Text
add_flag flag flags = if contains flag flags then flags else flags ++ (flag ∷ [])

-- `next((p for p in spec.params if p.param_id not in values), None)`
unfoldable pub free_slot : List ParamSpec → Values → Option ParamSpec
free_slot [] values = none
free_slot (p ∷ rest) values = if has_key p.param_id values then free_slot rest values else some p

abbrev pub is_empty : List Token → Bool
is_empty [] = true
is_empty (t ∷ rest) = false

module _ (lower : Text → Text) where
  -- One round of the loop that fills `by_option`: a label never hides an id.
  unfoldable pub add_option : ParamSpec → Dict Text → Dict Text
  add_option p by_option =
      let named = insert (lower p.param_id) p.param_id by_option in
      elim p.label [
        | none ↦ named
        | some [] ↦ named
        | some (c ∷ cs) ↦ set_default (lower (c ∷ cs)) p.param_id named
      ]

  unfoldable pub fill_options : List ParamSpec → Dict Text → Dict Text
  unfolding add_option
  fill_options [] by_option = by_option
  fill_options (p ∷ rest) by_option = fill_options rest (add_option p by_option)

  unfoldable pub add_spellings : List Text → Text → Dict Text → Dict Text
  add_spellings [] flag by_flag = by_flag
  add_spellings (s ∷ rest) flag by_flag = add_spellings rest flag (insert s flag by_flag)

  -- `by_flag`
  unfoldable pub fill_flags : List FlagSpec → Dict Text → Dict Text
  unfolding add_spellings
  fill_flags [] by_flag = by_flag
  fill_flags (f ∷ rest) by_flag =
      fill_flags rest (add_spellings (spellings lower f) f.flag_id by_flag)

-- The loop of `_bind` over the two dictionaries. `pending` names the parameter whose value is the
-- next token, behind an option that asks for one.
module _ (lower : Text → Text) (spec : CommandSpec) (by_option by_flag : Dict Text) where
  -- The branch for an option that is not a flag: `some` parameter takes the next token.
  unfoldable pub open_option : Token → List Token → Values → Result Text
  open_option t rest values = elim (lookup (lower (behind_dash t.value)) by_option) [
    | none ↦ err (Failure.unknown_option t.position)
    | some param_id ↦
        if is_empty rest
        then err (Failure.missing_value param_id)
        else if has_key param_id values
        then err (Failure.repeated_param param_id)
        else ok param_id
  ]

  unfoldable pub bind_loop : List Token → Option Text → Bound → Result Bound
  bind_loop [] pending b = ok b
  bind_loop (t ∷ rest) (some param_id) b =
      bind_loop rest none (record b { values = insert param_id t.value b.values })
  bind_loop (t ∷ rest) none b = elim (is_option t) [
    | true ↦ elim (lookup (lower (behind_dash t.value)) by_flag) [
      | some flag ↦ bind_loop rest none (record b { flags = add_flag flag b.flags })
      | none ↦ elim (open_option t rest b.values) [
        | err e ↦ err e
        | ok param_id ↦ bind_loop rest (some param_id) b
      ]
    ]
    | false ↦ elim (free_slot spec.params b.values) [
      | none ↦ err (Failure.unexpected_argument t.position)
      | some slot ↦
          bind_loop rest none (record b { values = insert slot.param_id t.value b.values })
    ]
  ]

-- `_bind`
unfoldable pub bind : (Text → Text) → CommandSpec → List Token → Result Bound
bind lower spec tokens =
    bind_loop lower spec (fill_options lower spec.params []) (fill_flags lower spec.flags []) tokens
      none (record { values = []; flags = [] })
