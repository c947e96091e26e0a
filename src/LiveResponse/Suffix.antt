-- ===== src/LiveResponse/Suffix.antt =====
-- `_split_suffix` of src/xdr_cli/live_response/parser.py: the local redirection and the background
-- marker at the end of a line.
pub mod Tail
use m365_xdr_cli.Base.{
  ℕ, Bool, true, false, ◌&&◌, Option, none, some, List, [], ◌∷◌, Text, text_eq, if◌then◌else◌,
}
use m365_xdr_cli.LiveResponse.Failure.{Failure, Result, ok, err, ◌>>=◌, ◌>>◌}
use m365_xdr_cli.LiveResponse.Tokens.{Token}

-- `tokens[:-1]` and `tokens[-1]`, where there is a last token.
unfoldable pub split_last {ℓ} : {A : Type ℓ} → List A → Option (List A × A)
split_last [] = none
split_last (x ∷ xs) = elim (split_last xs) [
  | none ↦ some ([], x)
  | some (init, last) ↦ some (x ∷ init, last)
]

-- `token.operator and token.value == …`
abbrev pub is_mark : ℕ → Token → Bool
is_mark c t = t.operator && text_eq t.value (c ∷ [])

-- The trailing background marker.
unfoldable pub peel_background : List Token → List Token × Bool
peel_background tokens = elim (split_last tokens) [
  | none ↦ (tokens, false)
  | some (init, last) ↦ if is_mark b'&' last then (init, true) else (tokens, false)
]

-- The local redirection at the end of the rest.
unfoldable pub peel_output : List Token → Result (List Token × Option Text)
peel_output tokens = elim (split_last tokens) [
  | none ↦ ok (tokens, none)
  | some (init, target) ↦ elim (split_last init) [
    | none ↦ ok (tokens, none)
    | some (front, mark) ↦
        if is_mark b'>' mark
        then (if target.operator
            then err (Failure.redirect_target target.position)
            else ok (front, some target.value))
        else ok (tokens, none)
  ]
]

-- An operator that is left stands before the end of the command.
unfoldable pub refuse_operators : List Token → Result (Unit {0})
refuse_operators [] = ok tt
refuse_operators (t ∷ rest) =
    if t.operator
    then (if text_eq t.value (b'&' ∷ [])
        then err (Failure.misplaced_background t.position)
        else err (Failure.misplaced_redirect t.position))
    else refuse_operators rest

-- What `_split_suffix` returns.
pub record Split : Type 0 where
  pub tokens : List Token
  pub output_to : Option Text
  pub background : Bool

-- `_split_suffix`
unfoldable pub split_suffix : List Token → Result Split
unfolding peel_background
split_suffix tokens =
    let (body, background) = peel_background tokens in
    do
      (front, output_to) ← peel_output body
      refuse_operators front
      ok (record { tokens = front; output_to = output_to; background = background })
