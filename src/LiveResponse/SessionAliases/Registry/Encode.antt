-- ===== src/LiveResponse/SessionAliases/Registry/Encode.antt =====
-- What is written of an alias registry in session_aliases.py, read back.
use Prim.Native.Nat.{max}
use m365_xdr_cli.Base.{
  ℕ, ◌+◌, ◌<◌, ◌≡◌, refl, ap, true, some, List, [], ◌∷◌, Text, Text-discrete, text_eq_self,
  Distinct, ascii_lower, arith, lt→ltb, le→leb,
}
use m365_xdr_cli.Base.Dict.{Dict, keys}
use m365_xdr_cli.Base.Json.{names, get, unique, unique_members}
use m365_xdr_cli.LiveResponse.SessionAliases.Syntax.{
  max_alias, alias_number, is_session, is_device, identity,
}
use m365_xdr_cli.LiveResponse.SessionAliases.Registry.{
  Namespace, Binding, Registry, check_binding, check_bindings, validate, validate_members,
  members_of, binding_json, bindings_json, to_json, identity_of,
}
use m365_xdr_cli.LiveResponse.SessionAliases.Registry.Valid.{IsBound, AllBound, IsValid}

identity_of_self :
    (s m : Text)
    → is_session s ≡ true
    → is_device m ≡ true
    → ascii_lower m ≡ m
    → identity_of s m ≡ some (s, m)
unfolding identity
identity_of_self s m f g e = ground arith

check_binding-binding_json :
    (alias : Text) (b : Binding)
    → IsBound alias b
    → check_binding alias (members_of (some (binding_json b))) ≡ some b
unfolding check_binding binding_json names get Text-discrete
check_binding-binding_json alias b h =
    rw
      (
        h.alias_form,
        h.lower_alias,
        text_eq_self alias,
        identity_of_self b.session_id b.machine_id h.session_form h.machine_form h.lower_machine,
        text_eq_self b.machine_id,
      )
      refl

-- The largest number among the aliases, and what came before.
largest : ℕ → Dict Binding → ℕ
largest m [] = m
largest m ((alias, b) ∷ rest) = largest (max m (alias_number alias)) rest

check_bindings-bindings_json :
    (next : ℕ) (seen : List Text) (m : ℕ) (ds : Dict Binding)
    → AllBound next seen ds
    → check_bindings (bindings_json ds) seen m ≡ some (ds, largest m ds)
unfolding check_bindings bindings_json largest
check_bindings-bindings_json next seen m [] h = refl
check_bindings-bindings_json next seen m ((alias, b) ∷ rest) (bound, less, fresh, more) =
    rw
      (
        check_binding-binding_json alias b bound,
        fresh,
        check_bindings-bindings_json next (b.session_id ∷ seen) (max m (alias_number alias)) rest
            more,
      )
      refl

largest-lt :
    (next : ℕ) (seen : List Text) (m : ℕ) (ds : Dict Binding)
    → m < next
    → AllBound next seen ds
    → largest m ds < next
unfolding largest
largest-lt next seen m [] l h = l
largest-lt next seen m ((alias, b) ∷ rest) l (bound, less, fresh, more) =
    largest-lt next (b.session_id ∷ seen) (max m (alias_number alias)) rest (omega arith) more

-- What is written of a valid registry is read back as that registry.
pub validate-to_json :
    (n : Namespace) (r : Registry) → IsValid r → validate n (to_json n r) ≡ some r
unfolding validate validate_members to_json names get Text-discrete
validate-to_json n r h =
    rw
      (
        text_eq_self n.tenant,
        text_eq_self n.backend,
        le→leb 1 r.next_alias h.low,
        le→leb r.next_alias (max_alias + 1) h.high,
        check_bindings-bindings_json r.next_alias [] 0 r.bindings h.bound,
        lt→ltb (largest 0 r.bindings) r.next_alias
            (largest-lt r.next_alias [] 0 r.bindings (omega (arith, h.low)) h.bound),
      )
      refl

names-bindings_json : (ds : Dict Binding) → names (bindings_json ds) ≡ keys ds
unfolding names bindings_json
names-bindings_json [] = refl
names-bindings_json ((alias, b) ∷ rest) =
    ap (λ (ks : List Text). alias ∷ ks) (names-bindings_json rest)

unique-binding_json : (b : Binding) → unique (binding_json b) ≡ true
unfolding unique names binding_json Text-discrete
unique-binding_json b = refl

unique-bindings_json :
    (ds : Dict Binding) → Distinct (keys ds) → unique_members (bindings_json ds) ≡ true
unfolding unique bindings_json
unique-bindings_json [] d = refl
unique-bindings_json ((alias, b) ∷ rest) (f, d) =
    rw (names-bindings_json rest, f, unique-binding_json b, unique-bindings_json rest d) refl

-- No key is repeated in what is written.
pub unique-to_json : (n : Namespace) (r : Registry) → IsValid r → unique (to_json n r) ≡ true
unfolding unique names to_json Text-discrete
unique-to_json n r h = rw (unique-bindings_json r.bindings h.distinct) refl
