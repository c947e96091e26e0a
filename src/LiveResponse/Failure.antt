-- ===== src/LiveResponse/Failure.antt =====
-- What the console-line parser of live_response/parser.py raises: `_fail` at each of its calls, with
-- the position or parameter that it reports. The wording and the lists of allowed names and
-- suggestions are not modelled.
use m365_xdr_cli.Base.{ℕ, Text, ◌≡◌, refl}

pub data Failure : Type 0 where
  -- compound_syntax: a newline, carriage return, NUL or backtick anywhere in the line
  forbidden_char : ℕ → Failure
  -- compound_syntax: another control or separator character
  control_char : Failure
  -- compound_syntax: an operator at a position
  compound : ℕ → Failure
  unbalanced_quote : ℕ → Failure
  -- invalid_quoting: text directly behind a quoted value, at a position
  quote_not_ended : ℕ → Failure
  -- invalid_quoting: a quote inside a word, at a position
  quote_in_word : ℕ → Failure
  input_redirect : ℕ → Failure
  -- redirect: `>` with an operator behind it
  redirect_target : ℕ → Failure
  -- compound_syntax or redirect: `&` or `>` before the end
  misplaced_background : ℕ → Failure
  misplaced_redirect : ℕ → Failure
  missing_command : Failure
  quoted_command : Failure
  unknown_command : Failure
  -- missing_param: an option at the end of the line without its value
  missing_value : Text → Failure
  -- missing_param: a required parameter that is not given
  missing_param : Text → Failure
  -- invalid_param in its several uses
  repeated_param : Text → Failure
  unknown_option : ℕ → Failure
  unexpected_argument : ℕ → Failure
  empty_param : Text → Failure
  not_a_choice : Text → Failure
  unknown_names : Failure
  forbidden_parameter_chars : Failure
  platform : Failure
  local_only : Failure
  -- the model's own: the fuel of a loop ran out
  exhausted : Failure

pub data Result {ℓ} (A : Type ℓ) : Type ℓ where
  ok : A → Result A
  err : Failure → Result A

pub ok-injective {ℓ} : {A : Type ℓ} {a b : A} → ok a ≡ ok b → a ≡ b
ok-injective h = cc

infixl 5 ◌>>◌
module _ {ℓ κ} {A : Type ℓ} {B : Type κ} where
  infixl 5 ◌>>=◌
  -- What raises goes no further.
  abbrev pub ◌>>=◌ : Result A → (A → Result B) → Result B
  ok value >>= next = next value
  err failure >>= next = err failure

  -- A step that went well had a value to go on with.
  pub >>=-eq-ok :
      (step : Result A) (next : A → Result B) {last : B}
      → (step >>= next) ≡ ok last
      → (value : A) × (step ≡ ok value) × (next value ≡ ok last)
  >>=-eq-ok (ok value) next h = (value, refl, h)
  >>=-eq-ok (err failure) next h = cc

-- A check in front of what goes on without its value.
abbrev pub ◌>>◌ {κ} : {B : Type κ} → Result (Unit {0}) → Result B → Result B
check >> more = check >>= λ passed. more
