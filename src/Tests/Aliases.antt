-- ===== src/Tests/Aliases.antt =====
-- Two sessions of one device, named one after the other.
use m365_xdr_cli.Base.{
  ℕ, ◌≡◌, refl, true, some, [], ◌∷◌, Text, Text-discrete, codes, ascii_lower, arith,
}
use m365_xdr_cli.Base.Decimal.{is_digit, decimal, number_from}
use m365_xdr_cli.Base.Dict.{insert, lookup}
use m365_xdr_cli.Base.Json.{Json, get, names, unique}
use m365_xdr_cli.Base.Attempt.{returned, raised}
use m365_xdr_cli.LiveResponse.SessionAliases.Syntax.{
  AliasError, is_session, is_device, is_alias, is_numeral, has_prefix, session_char, hex_char,
  identity, validate_alias,
}
use m365_xdr_cli.LiveResponse.SessionAliases.Registry.{
  Namespace, Binding, Registry, to_json, binding_json, bindings_json, validate, validate_members,
  check_binding, check_bindings, find_alias,
}
use m365_xdr_cli.LiveResponse.SessionAliases.Registry.Valid.{IsValid, validate-IsValid}
use m365_xdr_cli.LiveResponse.SessionAliases.Registry.Encode.{validate-to_json}
use m365_xdr_cli.LiveResponse.SessionAliases.Files.{
  absent, holds, Files, State, read_file, has_marker, marker_bytes, check_handles, state_of,
  read_private, read_state,
}
use m365_xdr_cli.LiveResponse.SessionAliases.Operations.{
  Effect, ensure_marker, extended, same_bindings, same_registry, publish, allocate, assign_locked,
  assign, resolve,
}
use m365_xdr_cli.LiveResponse.SessionAliases.Operations.Publish.{IsGranted}
use m365_xdr_cli.LiveResponse.SessionAliases.Operations.Grant.{assign-IsGranted}
use m365_xdr_cli.LiveResponse.SessionAliases.Operations.Runs.{
  here, next, Bound, Runs-Bound, IsLost, assign-lost,
}
use m365_xdr_cli.LiveResponse.SessionAliases.Operations.Success.{assign_succeeds}

abbrev space : Namespace
space = record { tenant = codes "tenant"; backend = codes "official" }

abbrev device : Text
device = codes "ABCDEF0123456789abcdef0123456789abcdef01"

abbrev lower_device : Text
lower_device = codes "abcdef0123456789abcdef0123456789abcdef01"

abbrev small : Json → ℕ
small value = 100

abbrev first_binding : Binding
first_binding = record { session_id = codes "CLR1"; machine_id = lower_device }

abbrev second_binding : Binding
second_binding = record { session_id = codes "CLR2"; machine_id = lower_device }

abbrev one_name : Registry
one_name = record { next_alias = 2; bindings = (codes "lr-1", first_binding) ∷ [] }

abbrev two_names : Registry
two_names = record {
  next_alias = 3;
  bindings = (codes "lr-1", first_binding) ∷ (codes "lr-2", second_binding) ∷ [];
}

abbrev untouched : Files
untouched = record { private = true; registry = absent; marker = absent; handles = [] }

abbrev saved : Registry → Files
saved r = record {
  private = true;
  registry = holds (some (to_json space r));
  marker = holds (marker_bytes space);
  handles = [];
}

abbrev lost : Files
lost = record {
  private = true;
  registry = absent;
  marker = holds (marker_bytes space);
  handles = [];
}

first_assigned :
    assign small space untouched (codes "CLR1") device ≡ (returned (codes "lr-1"), saved one_name)
unfolding is_session is_device is_alias is_numeral has_prefix session_char hex_char identity
    validate_alias is_digit decimal number_from binding_json bindings_json to_json validate
    validate_members check_binding check_bindings find_alias read_file has_marker check_handles
    state_of read_private read_state ensure_marker extended same_bindings same_registry publish
    allocate assign_locked assign insert lookup get names unique ascii_lower Text-discrete
first_assigned = refl

second_assigned :
    assign small space (saved one_name) (codes "CLR2") device
    ≡ (returned (codes "lr-2"), saved two_names)
unfolding is_session is_device is_alias is_numeral has_prefix session_char hex_char identity
    validate_alias is_digit decimal number_from binding_json bindings_json to_json validate
    validate_members check_binding check_bindings find_alias read_file has_marker check_handles
    state_of read_private read_state ensure_marker extended same_bindings same_registry publish
    allocate assign_locked assign insert lookup get names unique ascii_lower Text-discrete
second_assigned = refl

one_name-IsValid : IsValid one_name
unfolding is_session is_device is_alias is_numeral has_prefix session_char hex_char identity
    validate_alias is_digit decimal number_from binding_json bindings_json to_json validate
    validate_members check_binding check_bindings find_alias read_file has_marker check_handles
    state_of read_private read_state ensure_marker extended same_bindings same_registry publish
    allocate assign_locked assign insert lookup get names unique ascii_lower Text-discrete
one_name-IsValid = validate-IsValid space (to_json space one_name) one_name refl refl

validate-IsValid_example : IsValid two_names
unfolding is_session is_device is_alias is_numeral has_prefix session_char hex_char identity
    validate_alias is_digit decimal number_from binding_json bindings_json to_json validate
    validate_members check_binding check_bindings find_alias read_file has_marker check_handles
    state_of read_private read_state ensure_marker extended same_bindings same_registry publish
    allocate assign_locked assign insert lookup get names unique ascii_lower Text-discrete
validate-IsValid_example = validate-IsValid space (to_json space two_names) two_names refl refl

validate-to_json_example : validate space (to_json space one_name) ≡ some one_name
validate-to_json_example = validate-to_json space one_name one_name-IsValid

assign-IsGranted_example :
    (before : State) × (read_state space (saved one_name) ≡ returned before)
    × IsGranted small space before.registry
        (codes "CLR2")
        (ascii_lower device)
        (codes "lr-2")
        (saved two_names)
assign-IsGranted_example =
    assign-IsGranted small space (saved one_name) (saved two_names) (codes "CLR2") device
      (codes "lr-2") second_assigned

first_bound : Bound small space (saved one_name) (codes "lr-1") first_binding
unfolding is_session is_device is_alias is_numeral has_prefix session_char hex_char identity
    validate_alias is_digit decimal number_from binding_json bindings_json to_json validate
    validate_members check_binding check_bindings find_alias read_file has_marker check_handles
    state_of read_private read_state ensure_marker extended same_bindings same_registry publish
    allocate assign_locked assign insert lookup get names unique ascii_lower Text-discrete
first_bound = record {
  state = record { registry = one_name; present = true; marked = true };
  read = refl;
  bound = refl;
}

Runs-Bound_example : Bound small space (saved two_names) (codes "lr-1") first_binding
Runs-Bound_example =
    Runs-Bound small space (codes "lr-1") first_binding
      (next (codes "CLR2") device (codes "lr-2") here second_assigned) first_bound

lost-IsLost : IsLost small space lost
unfolding is_session is_device is_alias is_numeral has_prefix session_char hex_char identity
    validate_alias is_digit decimal number_from binding_json bindings_json to_json validate
    validate_members check_binding check_bindings find_alias read_file has_marker check_handles
    state_of read_private read_state ensure_marker extended same_bindings same_registry publish
    allocate assign_locked assign insert lookup get names unique ascii_lower Text-discrete
lost-IsLost = record { private = refl; marker = refl; gone = refl }

assign-lost_example :
    (assign small space lost (codes "CLR1") device ≡ (raised AliasError.registry_missing, lost))
    × (resolve space lost lost (codes "LR-1") ≡ (raised AliasError.registry_missing, lost))
unfolding is_session is_device is_alias is_numeral has_prefix session_char hex_char identity
    validate_alias is_digit decimal number_from binding_json bindings_json to_json validate
    validate_members check_binding check_bindings find_alias read_file has_marker check_handles
    state_of read_private read_state ensure_marker extended same_bindings same_registry publish
    allocate assign_locked assign insert lookup get names unique ascii_lower Text-discrete
assign-lost_example =
    assign-lost small space lost lost (codes "CLR1") device (codes "LR-1")
      (codes "CLR1", lower_device) (codes "lr-1") lost-IsLost refl refl

assign_succeeds_example :
    (g : Files) × Path
      (Effect Text)
      (assign small space (saved one_name) (codes "CLR2") device)
      (returned (codes "lr-2"), g)
unfolding is_session is_device is_alias is_numeral has_prefix session_char hex_char identity
    validate_alias is_digit decimal number_from binding_json bindings_json to_json validate
    validate_members check_binding check_bindings find_alias read_file has_marker check_handles
    state_of read_private read_state ensure_marker extended same_bindings same_registry publish
    allocate assign_locked assign insert lookup get names unique ascii_lower Text-discrete
assign_succeeds_example =
    assign_succeeds small space (saved one_name) (codes "CLR2") device
      (record { registry = one_name; present = true; marked = true }) refl refl refl refl refl
      (omega arith) (omega arith)
