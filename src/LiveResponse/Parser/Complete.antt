-- ===== src/LiveResponse/Parser/Complete.antt =====
-- What `_finish` of live_response/parser.py asks of a command.
use mathlib.Core.Path.{subst}
use m365_xdr_cli.Base.{
  ◌≡◌, ◌≢◌, refl, sym, ◌∙◌, Bool, true, false, Option, none, some, List, [], ◌∷◌, Text, All, arith,
  contains,
}
use m365_xdr_cli.Base.Dict.{lookup, lookup-cons, lookup-insert}
use m365_xdr_cli.LiveResponse.Models.{
  ParamSpec, CommandSpec, Values, ParsedCommand, is_local, Platform,
}
use m365_xdr_cli.LiveResponse.Failure.{ok, >>=-eq-ok, ok-injective}
use m365_xdr_cli.LiveResponse.Parser.{
  canonical_choice, is_nil, check_choice, check_value, check_params, validate, ordered_params,
  excluded, check_use, Request, finish,
}

-- A choice is one of those that the specification lists.
abbrev Allowed : Option (List Text) → Text → Type 0
Allowed none v = Unit
Allowed (some choices) v = contains v choices ≡ true

-- What a parameter asks of its value.
abbrev pub Satisfies : ParamSpec → Option Text → Type 0
Satisfies p none = p.required ≡ false
Satisfies p (some v) = (is_nil v ≡ false) × Allowed p.choices v

-- No two parameters share their id.
abbrev pub DistinctIds : List ParamSpec → Type 0
DistinctIds [] = Unit
DistinctIds (p ∷ rest) = All (λ (q : ParamSpec). q.param_id ≢ p.param_id) rest × DistinctIds rest

-- No choice that the specification lists is the empty text.
abbrev pub AllFull : Option (List Text) → Type 0
AllFull none = Unit
AllFull (some choices) = All (λ (c : Text). is_nil c ≡ false) choices

full_choice :
    (choices : List Text) (c : Text)
    → AllFull (some choices)
    → contains c choices ≡ true
    → is_nil c ≡ false
full_choice [] c full h = ground arith
full_choice (d ∷ rest) c (f, full) h = ground (arith, full_choice rest c full)

module _ (lower : Text → Text) where
  canonical_choice-contains :
      (choices : List Text) (v c : Text)
      → canonical_choice lower choices v ≡ some c
      → contains c choices ≡ true
  unfolding canonical_choice
  canonical_choice-contains [] v c h = ground arith
  canonical_choice-contains (d ∷ rest) v c h = ground (arith, canonical_choice-contains rest v c)

  -- A choice that is accepted is put in place of the value, and nothing else changes.
  module _ (p : ParamSpec) (v : Text) (values : Values) {checked : Values} where
    lookup-check_choice :
        (choices : Option (List Text)) (k : Text)
        → k ≢ p.param_id
        → check_choice lower p choices v values ≡ ok checked
        → lookup k checked ≡ lookup k values
    unfolding check_choice
    lookup-check_choice none k n h = ground arith
    lookup-check_choice (some choices) k n h = go (canonical_choice lower choices v) refl
      where
        go :
            (o : Option Text)
            → canonical_choice lower choices v ≡ o
            → lookup k checked ≡ lookup k values
        go none e = absurd (ground arith)
        go (some c) e = ground (arith, lookup-insert k p.param_id c values)

    check_choice-Satisfies :
        (choices : Option (List Text))
        → is_nil v ≡ false
        → lookup p.param_id values ≡ some v
        → AllFull choices
        → check_choice lower p choices v values ≡ ok checked
        → (c : Text) × (lookup p.param_id checked ≡ some c) × (is_nil c ≡ false) × Allowed choices c
    unfolding check_choice
    check_choice-Satisfies none f e full h = (v, ground arith, f, tt)
    check_choice-Satisfies (some choices) f e full h = go (canonical_choice lower choices v) refl
      where
        go :
            (o : Option Text)
            → canonical_choice lower choices v ≡ o
            → (c : Text) × (lookup p.param_id checked ≡ some c)
              × (is_nil c ≡ false)
              × Allowed (some choices) c
        go none q = absurd (ground arith)
        go (some c) q = (
          c,
          ground (arith, lookup-insert p.param_id p.param_id c values),
          full_choice choices c full (canonical_choice-contains choices v c q),
          canonical_choice-contains choices v c q,
        )

  -- Only the entry of the parameter itself can change.
  lookup-check_value :
      (p : ParamSpec) (o : Option Text) (values checked : Values) (k : Text)
      → k ≢ p.param_id
      → check_value lower p o values ≡ ok checked
      → lookup k checked ≡ lookup k values
  unfolding check_value
  lookup-check_value p none values checked k n h = ground arith
  lookup-check_value p (some v) values checked k n h =
      lookup-check_choice p v values p.choices k n (ground arith)

  check_value-Satisfies :
      (p : ParamSpec) (o : Option Text) (values checked : Values)
      → AllFull p.choices
      → lookup p.param_id values ≡ o
      → check_value lower p o values ≡ ok checked
      → Satisfies p (lookup p.param_id checked)
  unfolding check_value
  check_value-Satisfies p none values checked full e h =
      let same : lookup p.param_id checked ≡ none = ground arith in rw same (ground arith)
  check_value-Satisfies p (some v) values checked full e h =
      let (c, l, f, a) =
        check_choice-Satisfies p v values {checked = checked} p.choices (ground arith) e full
          (ground arith) in
      rw l (f, a)

  lookup-check_params :
      (params : List ParamSpec) (values checked : Values) (k : Text)
      → All (λ (q : ParamSpec). q.param_id ≢ k) params
      → check_params lower params values ≡ ok checked
      → lookup k checked ≡ lookup k values
  unfolding check_params
  lookup-check_params [] values checked k d h = ground arith
  lookup-check_params (p ∷ rest) values checked k (n, d) h =
      let (next, e, f) = >>=-eq-ok (check_value lower p (lookup p.param_id values) values) _ h in
      lookup-check_params rest next checked k d f
      ∙ lookup-check_value p (lookup p.param_id values) values next k (λ q. n (sym q)) e

  check_params-Satisfies :
      (params : List ParamSpec) (values checked : Values)
      → DistinctIds params
      → All (λ (p : ParamSpec). AllFull p.choices) params
      → check_params lower params values ≡ ok checked
      → All (λ (p : ParamSpec). Satisfies p (lookup p.param_id checked)) params
  unfolding check_params
  check_params-Satisfies [] values checked d full h = tt
  check_params-Satisfies (p ∷ rest) values checked (n, d) (full, fulls) h =
      let (next, e, f) = >>=-eq-ok (check_value lower p (lookup p.param_id values) values) _ h in
      (
        rw (lookup-check_params rest next checked p.param_id n f)
            (check_value-Satisfies p (lookup p.param_id values) values next full refl e),
        check_params-Satisfies rest next checked d fulls f,
      )

-- The ordered parameters of the command are what is stored under the ids.
lookup-ordered_params_of_absent :
    (params : List ParamSpec) (values : Values) (k : Text)
    → All (λ (q : ParamSpec). q.param_id ≢ k) params
    → lookup k (ordered_params params values) ≡ none
unfolding ordered_params lookup
lookup-ordered_params_of_absent [] values k d = refl
lookup-ordered_params_of_absent (p ∷ rest) values k (n, d) =
    ground (arith, lookup-ordered_params_of_absent rest values k d)

lookup-ordered_params_head :
    (p : ParamSpec) (rest : List ParamSpec) (values : Values)
    → All (λ (q : ParamSpec). q.param_id ≢ p.param_id) rest
    → lookup p.param_id (ordered_params (p ∷ rest) values) ≡ lookup p.param_id values
unfolding ordered_params
lookup-ordered_params_head p rest values d = go (lookup p.param_id values) refl
  where
    go :
        (o : Option Text)
        → lookup p.param_id values ≡ o
        → lookup p.param_id (ordered_params (p ∷ rest) values) ≡ lookup p.param_id values
    go none e = ground (arith, lookup-ordered_params_of_absent rest values p.param_id d)
    go (some v) e = ground (arith, lookup-cons p.param_id p.param_id v (ordered_params rest values))

lookup-ordered_params_tail :
    (p : ParamSpec) (rest : List ParamSpec) (values : Values) (k : Text)
    → k ≢ p.param_id
    → lookup k (ordered_params (p ∷ rest) values) ≡ lookup k (ordered_params rest values)
unfolding ordered_params
lookup-ordered_params_tail p rest values k n = go (lookup p.param_id values) refl
  where
    go :
        (o : Option Text)
        → lookup p.param_id values ≡ o
        → lookup k (ordered_params (p ∷ rest) values) ≡ lookup k (ordered_params rest values)
    go none e = ground arith
    go (some v) e = ground (arith, lookup-cons k p.param_id v (ordered_params rest values))

ordered_params-Satisfies :
    (params : List ParamSpec) (values : Values)
    → DistinctIds params
    → All (λ (p : ParamSpec). Satisfies p (lookup p.param_id values)) params
    → All (λ (p : ParamSpec). Satisfies p (lookup p.param_id (ordered_params params values))) params
ordered_params-Satisfies [] values d h = tt
ordered_params-Satisfies (p ∷ rest) values (n, d) (s, h) = (
  rw (lookup-ordered_params_head p rest values n) s,
  All-zip rest n (ordered_params-Satisfies rest values d h),
)
  where
    All-zip :
        (params : List ParamSpec)
        → All (λ (q : ParamSpec). q.param_id ≢ p.param_id) params
        → All
            (λ (q : ParamSpec). Satisfies q (lookup q.param_id (ordered_params rest values)))
            params
        → All
            (λ (q : ParamSpec). Satisfies q (lookup q.param_id (ordered_params (p ∷ rest) values)))
            params
    All-zip [] u v = tt
    All-zip (q ∷ qs) (u, us) (v, vs) =
        (rw (lookup-ordered_params_tail p rest values q.param_id u) v, All-zip qs us vs)

-- What an accepted command promises: its parameters are complete, and it may run where and how it
-- is asked to.
pub record IsComplete (spec : CommandSpec) (r : Request) (c : ParsedCommand) : Type 0 where
  pub params : All (λ (p : ParamSpec). Satisfies p (lookup p.param_id c.params)) spec.params
  pub available : excluded r.platform spec ≡ false
  pub alone : is_local spec.risk ≡ true → (r.output_to ≡ none) × (r.background ≡ false)

-- A specification whose parameters have distinct ids and whose choices are not empty texts.
pub record IsSound (spec : CommandSpec) : Type 0 where
  pub distinct : DistinctIds spec.params
  pub full : All (λ (p : ParamSpec). AllFull p.choices) spec.params

validate-eq-ok :
    (lower : Text → Text) (spec : CommandSpec) (values checked : Values)
    → validate lower spec values ≡ ok checked
    → check_params lower spec.params values ≡ ok checked
unfolding validate
validate-eq-ok lower spec values checked h =
    let (c, e, f) = >>=-eq-ok (check_params lower spec.params values) _ h in ground arith

check_use-eq-ok :
    (spec : CommandSpec) (platform : Option Platform) (output_to : Option Text) (background : Bool)
    → check_use spec platform output_to background ≡ ok tt
    → (excluded platform spec ≡ false)
      × (is_local spec.risk ≡ true → (output_to ≡ none) × (background ≡ false))
unfolding check_use
check_use-eq-ok spec platform none background h = (ground arith, λ l. (refl, ground arith))
check_use-eq-ok spec platform (some f) background h = (ground arith, λ l. absurd (ground arith))

-- For a specification with distinct parameter ids and no empty choice, a command that `_finish`
-- accepts has every required parameter, no empty value, only values among the choices where there
-- are choices, is available on the platform that was named, and is neither redirected nor sent to
-- the background if it is answered locally.
pub finish-IsComplete :
    (lower : Text → Text) (spec : CommandSpec) (r : Request) (c : ParsedCommand)
    → IsSound spec
    → finish lower spec r ≡ ok c
    → IsComplete spec r c
unfolding finish
finish-IsComplete lower spec r c sound h =
    let (values, e, f) = >>=-eq-ok (validate lower spec r.values) _ h in
    let (u, k, g) = >>=-eq-ok (check_use spec r.platform r.output_to r.background) _ f in
    let (a, l) = check_use-eq-ok spec r.platform r.output_to r.background k in
    subst (IsComplete spec r) (ok-injective g) (record {
      params = ordered_params-Satisfies spec.params values sound.distinct (
          check_params-Satisfies lower spec.params r.values values sound.distinct sound.full
            (validate-eq-ok lower spec r.values values e));
      available = a;
      alone = l;
    })
