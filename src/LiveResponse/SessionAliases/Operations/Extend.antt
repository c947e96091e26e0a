-- ===== src/LiveResponse/SessionAliases/Operations/Extend.antt =====
-- The registry of session_aliases.py with one more alias.
use mathlib.Core.Path.{subst}
use m365_xdr_cli.Base.{
  ℕ, ◌+◌, ◌≤◌, ◌<◌, ◌≡◌, refl, sym, ap, ◌∙◌, true, false, none, List, [], ◌∷◌, ◌++◌, Text, codes,
  text_eq, contains, Distinct, Distinct-append, ascii_lower, all, length, leb, arith, le→leb,
  &&-left, &&-right, Bool-cases, inl, inr,
}
use m365_xdr_cli.Base.Decimal.{
  is_digit, decimal, number-decimal, all-decimal, decimal-leading, pow10, length-decimal,
}
use m365_xdr_cli.Base.Dict.{Dict, keys, insert}
use m365_xdr_cli.Base.Attempt.{returned}
use m365_xdr_cli.LiveResponse.SessionAliases.Syntax.{
  max_alias, alias_number, has_prefix, is_numeral, is_alias, is_session, is_device,
}
use m365_xdr_cli.LiveResponse.SessionAliases.Registry.{Binding, Registry, find_alias}
use m365_xdr_cli.LiveResponse.SessionAliases.Registry.Valid.{IsBound, AllBound, IsValid}
use m365_xdr_cli.LiveResponse.SessionAliases.Operations.{alias_text, extended}

max_alias-lt : max_alias < pow10 19
unfolding pow10
max_alias-lt = omega arith

digit_high : (c : ℕ) → is_digit c ≡ true → leb c 57 ≡ true
unfolding is_digit
digit_high c h = &&-right (leb 48 c) _ h

is_numeral-decimal : (n : ℕ) → 1 ≤ n → n ≤ max_alias → is_numeral (decimal n) ≡ true
unfolding is_numeral
is_numeral-decimal n low high =
    let (c, cs, e, p) = decimal-leading n low in
    let digits : all is_digit (c ∷ cs) ≡ true =
      subst (λ (t : Text). all is_digit t ≡ true) e (all-decimal n) in
    let short : length (c ∷ cs) ≤ 19 =
      subst (λ (t : Text). length t ≤ 19) e (length-decimal 18 n (omega (arith, max_alias-lt))) in
    subst (λ (t : Text). is_numeral t ≡ true) (sym e)
      (rw
        (
          le→leb 49 c (omega arith),
          digit_high c (&&-left (is_digit c) _ digits),
          &&-right (is_digit c) _ digits,
          le→leb (length cs) 18 (omega (arith, short)),
        )
        refl)

pub is_alias-alias_text : (n : ℕ) → 1 ≤ n → n ≤ max_alias → is_alias (alias_text n) ≡ true
unfolding is_alias has_prefix
is_alias-alias_text n low high =
    rw (is_numeral-decimal n low high, number-decimal n, le→leb n max_alias high) refl

lower-digits : (t : Text) → all is_digit t ≡ true → ascii_lower t ≡ t
unfolding ascii_lower is_digit
lower-digits [] h = refl
lower-digits (c ∷ cs) h = ground (arith, lower-digits cs)

lower-alias_text : (n : ℕ) → ascii_lower (alias_text n) ≡ alias_text n
unfolding ascii_lower
lower-alias_text n = ap (λ (t : Text). codes "lr-" ++ t) (lower-digits (decimal n) (all-decimal n))

-- An alias of the next number is new.
pub alias_text_fresh :
    (next : ℕ) (seen : List Text) (ds : Dict Binding)
    → AllBound next seen ds
    → contains (alias_text next) (keys ds) ≡ false
alias_text_fresh next seen [] h = refl
alias_text_fresh next seen ((alias, b) ∷ rest) (bound, less, fresh, more) =
    elim (Bool-cases (text_eq (alias_text next) alias)) [
      | inl y ↦
          let same : alias_text next ≡ alias = ground arith in
          absurd (omega (arith, less, ap alias_number same, number-decimal next))
      | inr n ↦ rw (n, alias_text_fresh next (b.session_id ∷ seen) rest more) refl
    ]

insert-append :
    (k : Text) (b : Binding) (ds : Dict Binding)
    → contains k (keys ds) ≡ false
    → insert k b ds ≡ ds ++ ((k, b) ∷ [])
unfolding insert
insert-append k b [] h = refl
insert-append k b ((j, c) ∷ ds) h = ground (arith, insert-append k b ds)

keys-append :
    (ds : Dict Binding) (k : Text) (b : Binding) → keys (ds ++ ((k, b) ∷ [])) ≡ keys ds ++ (k ∷ [])
keys-append [] k b = refl
keys-append ((j, c) ∷ ds) k b = ap (λ (ks : List Text). j ∷ ks) (keys-append ds k b)

find_alias-none :
    (alias : Text) (c : Binding) (ds : Dict Binding) (s m : Text)
    → find_alias ((alias, c) ∷ ds) s m ≡ returned none
    → (text_eq s c.session_id ≡ false) × (find_alias ds s m ≡ returned none)
unfolding find_alias
find_alias-none alias c ds s m h = ground arith

AllBound-append :
    (next : ℕ) (seen : List Text) (ds : Dict Binding) (alias : Text) (b : Binding)
    → AllBound next seen ds
    → IsBound alias b
    → alias_number alias < next + 1
    → contains b.session_id seen ≡ false
    → find_alias ds b.session_id b.machine_id ≡ returned none
    → AllBound (next + 1) seen (ds ++ ((alias, b) ∷ []))
AllBound-append next seen [] alias b h bound less fresh f = (bound, less, fresh, tt)
AllBound-append next seen ((j, c) ∷ ds) alias b (p, q, r, more) bound less fresh f =
    let (unlike, g) = find_alias-none j c ds b.session_id b.machine_id f in
    (
      p,
      omega arith,
      r,
      AllBound-append next (c.session_id ∷ seen) ds alias b more bound less
          (rw (unlike, fresh) refl) g,
    )

-- The registry with one more alias for a session that has none is valid.
pub extended-IsValid :
    (r : Registry) (s m : Text)
    → IsValid r
    → r.next_alias ≤ max_alias
    → is_session s ≡ true
    → is_device m ≡ true
    → ascii_lower m ≡ m
    → find_alias r.bindings s m ≡ returned none
    → IsValid (extended r s m)
unfolding extended
extended-IsValid r s m h room fs fm lm free =
    let alias = alias_text r.next_alias in
    let b : Binding = record { session_id = s; machine_id = m } in
    let new = alias_text_fresh r.next_alias [] r.bindings h.bound in
    let appended = insert-append alias b r.bindings new in
    let own : alias_number alias < r.next_alias + 1 = omega (arith, number-decimal r.next_alias) in
    record {
      low = omega arith;
      high = omega (arith, room);
      bound = subst (AllBound (r.next_alias + 1) []) (sym appended) (
          AllBound-append r.next_alias [] r.bindings alias b h.bound
            (record {
              alias_form = is_alias-alias_text r.next_alias h.low room;
              lower_alias = lower-alias_text r.next_alias;
              session_form = fs;
              machine_form = fm;
              lower_machine = lm;
            })
            own refl free);
      distinct =
          subst Distinct (sym (ap keys appended ∙ keys-append r.bindings alias b))
            (Distinct-append (keys r.bindings) alias h.distinct new);
    }
