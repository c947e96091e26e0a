-- ===== src/Helpers/Filter.antt =====
-- The filter of `build_odata_filter` in helpers.py, as a reader of OData finds its literals.
use mathlib.Core.Path.{subst}
use mathlib.Core.List.{append_assoc, append-nil}
use m365_xdr_cli.Base.{
  ◌≡◌, refl, sym, ap, ◌∙◌, true, Option, some, List, [], ◌∷◌, ◌++◌, map, Text, codes, join, arith,
  >>=-eq-some,
}
use m365_xdr_cli.Helpers.{
  clause, odata_string_literal, one_of, given_text, Filters, since_part, build_odata_filter,
}
use m365_xdr_cli.Helpers.Literals.{
  outside, literals, literals-plain, plain, Free, push_all, push_all_nil, Reads, Reads-append,
  Reads-plain, Reads-odata_string_literal,
}

Reads-front :
    (text part : Text) (vs : List Text)
    → plain text ≡ true
    → Reads part vs
    → Reads (text ++ part) vs
Reads-front text part vs p r rest f =
    ap (literals outside) (append_assoc text part rest)
    ∙ (literals-plain text (part ++ rest) p ∙ r rest f)

Reads-back :
    (part text : Text) (vs : List Text)
    → plain text ≡ true
    → ((rest : Text) → Free rest → Free (text ++ rest))
    → Reads part vs
    → Reads (part ++ text) vs
Reads-back part text vs p free r rest f =
    ap (literals outside) (append_assoc part text rest)
    ∙ (r (text ++ rest) (free rest f) ∙ ap (push_all vs) (literals-plain text rest p))

Reads-clause : (name v : Text) → plain name ≡ true → Reads (clause name v) (v ∷ [])
unfolding clause
Reads-clause name v p = Reads-front name (codes " eq " ++ odata_string_literal v) (v ∷ []) p (
    Reads-front (codes " eq ") (odata_string_literal v) (v ∷ []) refl
      (Reads-odata_string_literal v))

-- The parts are read as the values, in order.
abbrev ReadsAll : List Text → List Text → Type 0
ReadsAll [] vs = vs ≡ []
ReadsAll (p ∷ ps) vs =
    (us : List Text) × (ws : List Text) × (vs ≡ us ++ ws) × Reads p us × ReadsAll ps ws

ReadsAll-append :
    (ps qs vs ws : List Text) → ReadsAll ps vs → ReadsAll qs ws → ReadsAll (ps ++ qs) (vs ++ ws)
ReadsAll-append [] qs vs ws h k = subst (λ (u : List Text). ReadsAll qs (u ++ ws)) (sym h) k
ReadsAll-append (p ∷ ps) qs vs ws (us, more, e, r, h) k = (
  us,
  more ++ ws,
  ap (λ (u : List Text). u ++ ws) e ∙ append_assoc us more ws,
  r,
  ReadsAll-append ps qs more ws h k,
)

Reads-join :
    (sep : Text) (ps vs : List Text)
    → plain sep ≡ true
    → ((rest : Text) → Free (sep ++ rest))
    → ReadsAll ps vs
    → Reads (join sep ps) vs
unfolding push_all
Reads-join sep [] vs p free h = subst (Reads []) (sym h) (λ rest f. refl)
Reads-join sep (x ∷ []) vs p free (us, ws, e, r, h) =
    subst (Reads x) (sym (e ∙ (ap (λ (w : List Text). us ++ w) h ∙ append-nil us))) r
Reads-join sep (x ∷ y ∷ rest) vs p free (us, ws, e, r, h) =
    subst (Reads (x ++ (sep ++ join sep (y ∷ rest)))) (sym e) (
      Reads-append x (sep ++ join sep (y ∷ rest)) us ws r
        (Reads-front sep (join sep (y ∷ rest)) ws p (Reads-join sep (y ∷ rest) ws p free h))
        (λ t f.
          subst Free (sym (append_assoc sep (join sep (y ∷ rest)) t))
            (free (join sep (y ∷ rest) ++ t))))

clauses-ReadsAll :
    (name : Text) (vs : List Text) → plain name ≡ true → ReadsAll (map (clause name) vs) vs
clauses-ReadsAll name [] p = refl
clauses-ReadsAll name (v ∷ vs) p =
    (v ∷ [], vs, refl, Reads-clause name v p, clauses-ReadsAll name vs p)

one_of-ReadsAll : (name : Text) (vs : List Text) → plain name ≡ true → ReadsAll (one_of name vs) vs
unfolding one_of
one_of-ReadsAll name [] p = refl
one_of-ReadsAll name (v ∷ []) p = clauses-ReadsAll name (v ∷ []) p
one_of-ReadsAll name (v ∷ w ∷ rest) p =
    let parts = map (clause name) (v ∷ w ∷ rest) in
    (
      v ∷ w ∷ rest,
      [],
      sym (append-nil (v ∷ w ∷ rest)),
      Reads-front (b'(' ∷ []) (join (codes " or ") parts ++ (b')' ∷ [])) (v ∷ w ∷ rest) refl (
          Reads-back (join (codes " or ") parts) (b')' ∷ []) (v ∷ w ∷ rest) refl (λ t f. refl)
            (Reads-join (codes " or ") parts (v ∷ w ∷ rest) refl (λ t. refl)
              (clauses-ReadsAll name (v ∷ w ∷ rest) p))),
      refl,
    )

-- What is known of the instants: they are written without apostrophes.
abbrev pub IsPlain : (Text → Option Text) → Type 0
IsPlain moment = (s iso : Text) → moment s ≡ some iso → plain iso ≡ true

since_part-ReadsAll :
    (moment : Text → Option Text) (since created : List Text)
    → IsPlain moment
    → since_part moment since ≡ some created
    → ReadsAll created []
unfolding since_part
since_part-ReadsAll moment [] created m h =
    let same : [] ≡ created = ground arith in subst (λ (c : List Text). ReadsAll c []) same refl
since_part-ReadsAll moment (s ∷ rest) created m h =
    let (iso, e, f) = >>=-eq-some (moment s) _ h in
    let text = codes "createdDateTime ge " ++ iso in
    let same : (text ∷ []) ≡ created = ground arith in
    subst (λ (c : List Text). ReadsAll c []) same
      (
        [],
        [],
        refl,
        Reads-front (codes "createdDateTime ge ") iso [] refl (Reads-plain iso (m s iso e)),
        refl,
      )

-- Where the instants are written without apostrophes, the string literals of the filter that
-- `build_odata_filter` builds, read by the rules of OData, are the severities, the statuses, the
-- assignee and the service source that were given, in this order, whatever characters they hold.
pub literals-build_odata_filter :
    (moment : Text → Option Text) (f : Filters) (text : Text)
    → IsPlain moment
    → build_odata_filter moment f ≡ some text
    → literals outside text
      ≡ some (f.severity ++ (f.status ++ (given_text f.assigned_to ++ given_text f.service_source)))
unfolding build_odata_filter literals
literals-build_odata_filter moment f text m h =
    let (created, e, g) = >>=-eq-some (since_part moment (given_text f.since)) _ h in
    let assigned = map (clause (codes "assignedTo")) (given_text f.assigned_to) in
    let sources = map (clause (codes "serviceSource")) (given_text f.service_source) in
    let values =
      f.severity ++ (f.status ++ (given_text f.assigned_to ++ given_text f.service_source)) in
    let parts =
      one_of (codes "severity") f.severity
      ++ (one_of (codes "status") f.status ++ (assigned ++ (created ++ sources))) in
    let all_read : ReadsAll parts values =
      ReadsAll-append _ _ _ _ (one_of-ReadsAll (codes "severity") f.severity refl) (
        ReadsAll-append _ _ _ _ (one_of-ReadsAll (codes "status") f.status refl) (
          ReadsAll-append _ _ _ _
            (clauses-ReadsAll (codes "assignedTo") (given_text f.assigned_to) refl)
            (ReadsAll-append _ _ _ _ (since_part-ReadsAll moment (given_text f.since) created m e)
              (clauses-ReadsAll (codes "serviceSource") (given_text f.service_source) refl)))) in
    let read : literals outside (join (codes " and ") parts ++ [])
        ≡ push_all values (literals outside []) =
      Reads-join (codes " and ") parts values refl (λ t. refl) all_read [] tt in
    let same : join (codes " and ") parts ≡ text = ground arith in
    subst (λ (t : Text). literals outside t ≡ some values)
      (append-nil (join (codes " and ") parts) ∙ same) (read ∙ push_all_nil values)
