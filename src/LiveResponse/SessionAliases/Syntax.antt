-- ===== src/LiveResponse/SessionAliases/Syntax.antt =====
-- The identifiers of session_aliases.py: `is_alias`, `validate_alias` and `_identity`.
pub mod Lower
use m365_xdr_cli.Base.{
  ℕ, ◌+◌, ◌-◌, ◌^◌, Bool, true, false, ◌&&◌, ◌||◌, Option, none, some, List, [], ◌∷◌, Text, codes,
  length, all, ltb, leb, ◌==◌, ascii_lower, if◌then◌else◌,
}
use m365_xdr_cli.Base.Decimal.{is_digit, number}
use m365_xdr_cli.Base.Attempt.{Attempt, returned, raised}

-- What `session_aliases.py` raises.
pub data AliasError : Type 0 where
  -- UsageError: the alias, the session identifier or the machine identifier
  usage_alias usage_session usage_machine : AliasError
  -- `_invalid()`
  invalid : AliasError
  -- ArtifactError: the namespace, the directory, a registry that is lost, handles without one, a marker
  -- that is not there after it was written, a registry that vanished, is full, or was not saved
  bad_namespace not_private registry_missing handles_remain marker_unverified disappeared full
        unverified :
      AliasError
  -- ConflictError: another device, or no alias left
  device_changed exhausted : AliasError

abbrev is_letter : ℕ → Bool
is_letter c = (leb b'A' c && leb c b'Z') || (leb b'a' c && leb c b'z')

-- `[A-Za-z0-9_-]`
unfoldable pub session_char : ℕ → Bool
session_char c = is_letter c || (is_digit c || (c == b'_' || c == b'-'))

-- `CLR[A-Za-z0-9_-]{1,125}`
unfoldable pub is_session : Text → Bool
is_session (x ∷ y ∷ z ∷ rest) =
    x == b'C'
    && (y == b'L'
        && (z == b'R' && (all session_char rest && (leb 1 (length rest) && leb (length rest) 125))))
is_session _ = false

-- `[a-fA-F0-9]`
unfoldable pub hex_char : ℕ → Bool
hex_char c = is_digit c || ((leb b'a' c && leb c b'f') || (leb b'A' c && leb c b'F'))

-- `[a-fA-F0-9]{40}`
unfoldable pub is_device : Text → Bool
is_device t = all hex_char t && length t == 40

-- `[a-f0-9]{64}`
unfoldable pub is_fingerprint : Text → Bool
is_fingerprint t = all (λ c. is_digit c || (leb b'a' c && leb c b'f')) t && length t == 64

-- `_MAX_ALIAS`
abbrev pub max_alias : ℕ
max_alias = 2 ^ 63 - 1

-- `[1-9][0-9]{0,18}`
unfoldable pub is_numeral : Text → Bool
is_numeral [] = false
is_numeral (c ∷ cs) = (leb 49 c && leb c 57) && (all is_digit cs && leb (length cs) 18)

-- `alias[3:]`
abbrev pub behind_prefix : Text → Text
behind_prefix (x ∷ y ∷ z ∷ rest) = rest
behind_prefix _ = []

-- The prefix `lr-` in any case.
unfoldable pub has_prefix : Text → Bool
has_prefix (x ∷ y ∷ z ∷ rest) = (x == b'l' || x == b'L') && ((y == b'r' || y == b'R') && z == b'-')
has_prefix _ = false

-- `int(alias[3:])`
abbrev pub alias_number : Text → ℕ
alias_number alias = number (behind_prefix alias)

-- `is_alias`
unfoldable pub is_alias : Text → Bool
is_alias t = has_prefix t && (is_numeral (behind_prefix t) && leb (alias_number t) max_alias)

-- `validate_alias`
unfoldable pub validate_alias : Text → Attempt AliasError Text
validate_alias t = if is_alias t then returned (ascii_lower t) else raised AliasError.usage_alias

-- `_identity`
unfoldable pub identity : Text → Text → Attempt AliasError (Text × Text)
identity session_id machine_id =
    if is_session session_id
    then (if is_device machine_id
        then returned (session_id, ascii_lower machine_id)
        else raised AliasError.usage_machine)
    else raised AliasError.usage_session
