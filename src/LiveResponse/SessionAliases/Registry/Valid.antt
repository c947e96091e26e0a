-- ===== src/LiveResponse/SessionAliases/Registry/Valid.antt =====
-- The invariant of the alias registry of session_aliases.py, as `_validate` checks it.
use m365_xdr_cli.Base.{
  ℕ, ◌+◌, ◌≤◌, ◌<◌, ◌≡◌, refl, sym, ap, ◌∙◌, true, false, ◌&&◌, not, Option, none, some, List, [],
  ◌∷◌, Text, codes, text_eq, text_eq_sound, contains, Distinct, ascii_lower, same_names, ltb, leb,
  arith, >>=-eq-some, guard-eq-some, &&-left, not-eq-true, Bool-cases, inl, inr, &&-right, ltb→lt,
  leb→le,
}
use Prim.Native.Nat.{max}
use mathlib.Core.Path.{subst}
use mathlib.Core.Option.{some-injective}
use m365_xdr_cli.Base.Dict.{Dict, keys}
use m365_xdr_cli.Base.Json.{
  Json, Members, end, member, names, get, unique, unique_members, object, null, other, boolean,
  whole, text, array,
}
use m365_xdr_cli.LiveResponse.SessionAliases.Syntax.{
  max_alias, alias_number, is_alias, is_session, is_device, identity,
}
use m365_xdr_cli.LiveResponse.SessionAliases.Registry.{
  Namespace, Binding, Registry, check_binding, check_bindings, validate, validate_members,
  identity_of, text_of, whole_of, members_of, is_whole, is_text, field_names,
}

-- One binding, without its alias number.
pub record IsBound (alias : Text) (b : Binding) : Type 0 where
  pub alias_form : is_alias alias ≡ true
  pub lower_alias : ascii_lower alias ≡ alias
  pub session_form : is_session b.session_id ≡ true
  pub machine_form : is_device b.machine_id ≡ true
  pub lower_machine : ascii_lower b.machine_id ≡ b.machine_id

-- The bindings: aliases below the next one, and each session once.
abbrev pub AllBound : ℕ → List Text → Dict Binding → Type 0
AllBound next seen [] = Unit
AllBound next seen ((alias, b) ∷ rest) =
    IsBound alias b
    × (alias_number alias < next)
    × (contains b.session_id seen ≡ false)
    × AllBound next (b.session_id ∷ seen) rest

pub record IsValid (r : Registry) : Type 0 where
  pub low : 1 ≤ r.next_alias
  pub high : r.next_alias ≤ max_alias + 1
  pub bound : AllBound r.next_alias [] r.bindings
  pub distinct : Distinct (keys r.bindings)

identity_of-eq-some :
    (s m : Text) (pair : Text × Text)
    → identity_of s m ≡ some pair
    → (is_session s ≡ true) × (is_device m ≡ true) × (s ≡ pair.0) × (ascii_lower m ≡ pair.1)
unfolding identity
identity_of-eq-some s m pair h = ground arith

check_binding-IsBound :
    (alias : Text) (o : Option Members) (b : Binding)
    → check_binding alias o ≡ some b
    → IsBound alias b
unfolding check_binding
check_binding-IsBound alias none b h = absurd (cc)
check_binding-IsBound alias (some ms) b h =
    let (form, h1) = guard-eq-some _ _ h in
    let (fields, h2) = guard-eq-some _ _ h1 in
    let (s, es, h3) = >>=-eq-some (text_of (get (codes "session_id") ms)) _ h2 in
    let (m, em, h4) = >>=-eq-some (text_of (get (codes "machine_id") ms)) _ h3 in
    let (pair, ep, h5) = >>=-eq-some (identity_of s m) _ h4 in
    let (same, h6) = guard-eq-some _ _ h5 in
    let (f, g, p, q) = identity_of-eq-some s m pair ep in
    let same_machine : pair.1 ≡ m = text_eq_sound pair.1 m same in
    let machine = q ∙ same_machine in
    let lower_alias : ascii_lower alias ≡ alias =
      sym (text_eq_sound alias (ascii_lower alias) (&&-right (is_alias alias) _ form)) in
    subst (IsBound alias) (some-injective _ b h6) (record {
      alias_form = &&-left (is_alias alias) _ form;
      lower_alias = lower_alias;
      session_form = subst (λ (t : Text). is_session t ≡ true) p f;
      machine_form = subst (λ (t : Text). is_device t ≡ true) (sym same_machine) g;
      lower_machine = ap ascii_lower same_machine ∙ (machine ∙ sym same_machine);
    })

-- What the loop has found where it ends.
record IsLoop (ms : Members) (seen : List Text) (maximum : ℕ) (ds : Dict Binding) (largest : ℕ)
    : Type 0 where
  grown : maximum ≤ largest
  bound : (next : ℕ) → largest < next → AllBound next seen ds
  same_keys : keys ds ≡ names ms

check_bindings-IsLoop :
    (ms : Members) (seen : List Text) (maximum : ℕ) (ds : Dict Binding) (largest : ℕ)
    → check_bindings ms seen maximum ≡ some (ds, largest)
    → IsLoop ms seen maximum ds largest
unfolding check_bindings names
check_bindings-IsLoop end seen maximum ds largest h =
    let same : [] ≡ ds = ap (λ (p : Dict Binding × ℕ). p.0) (some-injective _ _ h) in
    let here : maximum ≡ largest = ap (λ (p : Dict Binding × ℕ). p.1) (some-injective _ _ h) in
    subst (λ (d : Dict Binding). IsLoop end seen maximum d largest) same
      (record { grown = omega (arith, here); bound = λ next l. tt; same_keys = refl })
check_bindings-IsLoop (member alias value rest) seen maximum ds largest h =
    let (b, eb, h1) = >>=-eq-some (check_binding alias (members_of (some value))) _ h in
    let (fresh, h2) = guard-eq-some (not (contains b.session_id seen)) _ h1 in
    let ((others, top), eo, h3) =
      >>=-eq-some (check_bindings rest (b.session_id ∷ seen) (max maximum (alias_number alias))) _
        h2 in
    let loop =
      check_bindings-IsLoop rest (b.session_id ∷ seen) (max maximum (alias_number alias)) others top
        eo in
    let same : ((alias, b) ∷ others) ≡ ds =
      ap (λ (p : Dict Binding × ℕ). p.0) (some-injective _ _ h3) in
    let here : top ≡ largest = ap (λ (p : Dict Binding × ℕ). p.1) (some-injective _ _ h3) in
    let unseen : contains b.session_id seen ≡ false = ground arith in
    subst (λ (d : Dict Binding). IsLoop (member alias value rest) seen maximum d largest) same
      (record {
        grown = omega (arith, loop.grown, here);
        bound = λ next l. (
          check_binding-IsBound alias (members_of (some value)) b eb,
          omega (arith, loop.grown, here, l),
          unseen,
          loop.bound next (omega (arith, here, l)),
        );
        same_keys = ap (λ (ks : List Text). alias ∷ ks) loop.same_keys;
      })

unique-Distinct : (ms : Members) → unique_members ms ≡ true → Distinct (names ms)
unfolding unique names
unique-Distinct end h = tt
unique-Distinct (member k v rest) h =
    let more = &&-right (not (contains k (names rest))) _ h in
    (
      not-eq-true _ (&&-left (not (contains k (names rest))) _ h),
      unique-Distinct rest (&&-right (unique v) _ more),
    )

unique-members_of :
    (v : Json) (inner : Members)
    → unique v ≡ true
    → members_of (some v) ≡ some inner
    → unique_members inner ≡ true
unfolding unique
unique-members_of (object ms) inner u h =
    subst (λ (m : Members). unique_members m ≡ true) (some-injective ms inner h) u
unique-members_of null inner u h = absurd (cc)
unique-members_of other inner u h = absurd (cc)
unique-members_of (boolean b) inner u h = absurd (cc)
unique-members_of (whole n) inner u h = absurd (cc)
unique-members_of (text t) inner u h = absurd (cc)
unique-members_of (array xs) inner u h = absurd (cc)

unique-get :
    (k : Text) (ms inner : Members)
    → unique_members ms ≡ true
    → members_of (get k ms) ≡ some inner
    → unique_members inner ≡ true
unfolding unique get
unique-get k end inner u h = absurd (cc)
unique-get k (member j v rest) inner u h =
    let more = &&-right (not (contains j (names rest))) _ u in
    elim (Bool-cases (text_eq k j)) [
      | inl y ↦ unique-members_of v inner (&&-left (unique v) _ more) (rw (y, get) at h)
      | inr n ↦ unique-get k rest inner (&&-right (unique v) _ more) (rw (n, get) at h)
    ]

validate_members-IsValid :
    (n : Namespace) (o : Option Members) (r : Registry)
    → ((ms : Members) → o ≡ some ms → unique_members ms ≡ true)
    → validate_members n o ≡ some r
    → IsValid r
unfolding validate_members
validate_members-IsValid n none r u h = absurd (cc)
validate_members-IsValid n (some ms) r u h =
    let (f0, h0) = guard-eq-some (same_names (names ms) field_names) _ h in
    let (f1, h1) = guard-eq-some (is_whole 1 (get (codes "version") ms)) _ h0 in
    let (f2, h2) = guard-eq-some (is_text n.tenant (get (codes "tenant") ms)) _ h1 in
    let (f3, h3) = guard-eq-some (is_text n.backend (get (codes "backend") ms)) _ h2 in
    let (next, en, h4) = >>=-eq-some (whole_of (get (codes "next_alias") ms)) _ h3 in
    let (range, h5) = guard-eq-some (leb 1 next && leb next (max_alias + 1)) _ h4 in
    let (entries, ee, h6) = >>=-eq-some (members_of (get (codes "bindings") ms)) _ h5 in
    let ((ds, largest), ed, h7) = >>=-eq-some (check_bindings entries [] 0) _ h6 in
    let (less, h8) = guard-eq-some (ltb largest next) _ h7 in
    let loop = check_bindings-IsLoop entries [] 0 ds largest ed in
    subst IsValid (some-injective _ r h8) (record {
      low = leb→le 1 next (&&-left (leb 1 next) _ range);
      high = leb→le next (max_alias + 1) (&&-right (leb 1 next) _ range);
      bound = loop.bound next (ltb→lt largest next less);
      distinct =
          subst Distinct (sym loop.same_keys)
            (unique-Distinct entries (unique-get (codes "bindings") ms entries (u ms refl) ee));
    })

-- What `_validate` accepts, of a value without repeated keys, is a valid registry.
pub validate-IsValid :
    (n : Namespace) (value : Json) (r : Registry)
    → unique value ≡ true
    → validate n value ≡ some r
    → IsValid r
unfolding validate
validate-IsValid n value r u h =
    validate_members-IsValid n (members_of (some value)) r (λ ms e. unique-members_of value ms u e)
      h
