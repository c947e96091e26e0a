-- ===== src/SchemaGraph/Lineage/Recover/Away.antt =====
-- `project-away` in `recover_field_origins` of lineage.py.
use mathlib.Core.Path.{subst}
use m365_xdr_cli.Base.{
  ◌≡◌, refl, sym, ap, ◌∙◌, Bool, true, false, Option, none, some, List, [], ◌∷◌, Text, text_eq,
  text_eq_self, codes, Among, inl, inr, if◌then◌else◌,
}
use m365_xdr_cli.Base.Dict.{lookup, lookup-insert, lookup-remove}
use m365_xdr_cli.Base.Attempt.{returned, raised, >>=-eq-returned, returned-injective}
use m365_xdr_cli.Base.Outcomes.{Returns, Returns-bind, Returns-eq, Always, always}
use m365_xdr_cli.SchemaGraph.Lineage.Split.{Unsupported, split}
use m365_xdr_cli.SchemaGraph.Lineage.Origins.{FieldOrigins, origin, column_expression, name_of}
use m365_xdr_cli.SchemaGraph.Lineage.Recover.{
  Outputs, hide, away_column, each_away, outputs_of, with_outputs, apply_away,
}

-- The column has no origin, and no expression is kept for it.
record IsHidden (name : Text) (w : Outputs) : Type 0 where
  column : lookup name w.columns ≡ some none
  dropped : lookup name w.expressions ≡ none

hide-IsHidden : (name : Text) (w : Outputs) → IsHidden name (hide name w)
unfolding hide
hide-IsHidden name w = record {
  column = lookup-insert name name none w.columns ∙ rw (text_eq_self name) refl;
  dropped = lookup-remove name name w.expressions ∙ rw (text_eq_self name) refl;
}

hide-kept : (name other : Text) (w : Outputs) → IsHidden name w → IsHidden name (hide other w)
unfolding hide
hide-kept name other w h = record {
  column = lookup-insert name other none w.columns ∙ both (text_eq name other) (some none) h.column;
  dropped = lookup-remove name other w.expressions ∙ both (text_eq name other) none h.dropped;
}
  where
    both : {A : Type 0} (b : Bool) (a : A) {c : A} → c ≡ a → (if b then a else c) ≡ a
    both true a e = refl
    both false a e = e

origin_hidden :
    (p : FieldOrigins) (name : Text)
    → lookup name p.columns ≡ some none
    → origin p name ≡ returned none
unfolding origin
origin_hidden p name e = rw (e, origin) refl

column_expression_hidden :
    (p : FieldOrigins) (name : Text)
    → lookup name p.columns ≡ some none
    → lookup name p.expressions ≡ none
    → column_expression p name ≡ returned none
unfolding column_expression
column_expression_hidden p name c e = rw (e, column_expression, origin_hidden p name c) refl

module _ (literal : Text → Option Text) (name : Text) where
  away_column-kept :
      (tokens : List Text) (w : Outputs)
      → IsHidden name w
      → Returns (IsHidden name) (away_column literal tokens w)
  unfolding away_column
  away_column-kept tokens w h =
      Returns-bind Always (IsHidden name) (name_of literal tokens) _
        (always (name_of literal tokens)) (λ found u. go found)
    where
      go :
          (found : Option Text)
          → Returns {E = Unsupported}
              (IsHidden name)
              (elim found [ none ↦ raised Unsupported.project_away | some n ↦ returned (hide n w) ])
      go none = tt
      go (some other) = hide-kept name other w h

  away_column-IsHidden :
      (tokens : List Text) (w : Outputs)
      → name_of literal tokens ≡ returned (some name)
      → Returns (IsHidden name) (away_column literal tokens w)
  unfolding away_column
  away_column-IsHidden tokens w e = rw e (hide-IsHidden name w)

  each_away-kept :
      (parts : List (List Text)) (w : Outputs)
      → IsHidden name w
      → Returns (IsHidden name) (each_away literal parts w)
  unfolding each_away
  each_away-kept [] w h = h
  each_away-kept (tokens ∷ others) w h =
      Returns-bind (IsHidden name) (IsHidden name) (away_column literal tokens w)
        (each_away literal others) (away_column-kept tokens w h)
        (λ next k. each_away-kept others next k)

  each_away-IsHidden :
      (part : List Text) (parts : List (List Text)) (w : Outputs)
      → Among part parts
      → name_of literal part ≡ returned (some name)
      → Returns (IsHidden name) (each_away literal parts w)
  unfolding each_away
  each_away-IsHidden part [] w among e = elim among [ ]
  each_away-IsHidden part (tokens ∷ others) w (inl same) e =
      Returns-bind (IsHidden name) (IsHidden name) (away_column literal tokens w)
        (each_away literal others)
        (away_column-IsHidden tokens w (ap (name_of literal) (sym same) ∙ e))
        (λ next k. each_away-kept others next k)
  each_away-IsHidden part (tokens ∷ others) w (inr later) e =
      Returns-bind Always (IsHidden name) (away_column literal tokens w) (each_away literal others)
        (always (away_column literal tokens w))
        (λ next u. each_away-IsHidden part others next later e)

  -- A column that `project-away` names has no origin behind it, and gives none to an expression.
  pub apply_away_hides :
      (o p : FieldOrigins) (body part : List Text) (parts : List (List Text))
      → apply_away literal o body ≡ returned p
      → split (codes ",") body ≡ returned parts
      → Among part parts
      → name_of literal part ≡ returned (some name)
      → (origin p name ≡ returned none) × (column_expression p name ≡ returned none)
  unfolding apply_away
  apply_away_hides o p body part parts h s among e =
      let (ps, q, k) = >>=-eq-returned (split (codes ",") body) _ h in
      let (w, each, done) = >>=-eq-returned (each_away literal ps (outputs_of literal o)) _ k in
      let same : ps ≡ parts = returned-injective (sym q ∙ s) in
      let hidden = Returns-eq (IsHidden name) (each_away literal ps (outputs_of literal o)) w each (
        each_away-IsHidden part ps (outputs_of literal o) (subst (Among part) (sym same) among)
          e) in
      subst
        (λ (r : FieldOrigins).
          (origin r name ≡ returned none) × (column_expression r name ≡ returned none))
        (returned-injective done)
        (
          origin_hidden (with_outputs literal o o.passthrough w) name hidden.column,
          column_expression_hidden (with_outputs literal o o.passthrough w) name hidden.column
              hidden.dropped,
        )
