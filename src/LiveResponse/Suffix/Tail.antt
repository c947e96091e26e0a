-- ===== src/LiveResponse/Suffix/Tail.antt =====
-- `_split_suffix` of live_response/parser.py against a description of the end of a line.
use mathlib.Core.Path.{subst}
use mathlib.Core.List.{append_assoc, append-nil}
use m365_xdr_cli.Base.{
  ◌≡◌, refl, sym, ap, ◌∙◌, Bool, true, false, Option, none, some, List, [], ◌∷◌, ◌++◌, Text, All,
  Bool-cases, inl, inr, arith,
}
use m365_xdr_cli.LiveResponse.Failure.{ok, >>=-eq-ok, ok-injective}
use m365_xdr_cli.LiveResponse.Tokens.{Token}
use m365_xdr_cli.LiveResponse.Suffix.{
  split_last, is_mark, peel_background, peel_output, refuse_operators, Split, split_suffix,
}

split_last-eq-none {ℓ} : {A : Type ℓ} (xs : List A) → split_last xs ≡ none → xs ≡ []
unfolding split_last
split_last-eq-none [] h = refl
split_last-eq-none {A} (x ∷ xs) h = go (split_last xs) refl
  where
    go : (o : Option (List A × A)) → split_last xs ≡ o → (x ∷ xs) ≡ []
    go none e = absurd (ground arith)
    go (some (i, l)) e = absurd (ground arith)

append-split_last {ℓ} :
    {A : Type ℓ} (xs init : List A) (last : A)
    → split_last xs ≡ some (init, last)
    → xs ≡ init ++ (last ∷ [])
unfolding split_last
append-split_last [] init last h = ground arith
append-split_last {A} (x ∷ xs) [] last h = go (split_last xs) refl
  where
    go : (o : Option (List A × A)) → split_last xs ≡ o → (x ∷ xs) ≡ last ∷ []
    go none e = ground (arith, split_last-eq-none xs e)
    go (some (i, l)) e = absurd (ground arith)
append-split_last (x ∷ xs) (y ∷ init) last h = ground (arith, append-split_last xs init last)

-- The background marker, where there is one.
pub data Mark : Bool → List Token → Type 0 where
  unmarked : Mark false []
  marked : (m : Token) → is_mark b'&' m ≡ true → Mark true (m ∷ [])

-- The redirection to a file, where there is one.
pub data Saved : Option Text → List Token → Type 0 where
  unsaved : Saved none []
  saved :
      (r t : Token) → is_mark b'>' r ≡ true → t.operator ≡ false → Saved (some t.value) (r ∷ t ∷ [])

pub refuse_operators-eq-ok :
    (tokens : List Token)
    → refuse_operators tokens ≡ ok tt
    → All (λ (t : Token). t.operator ≡ false) tokens
unfolding refuse_operators
refuse_operators-eq-ok [] h = tt
refuse_operators-eq-ok (t ∷ rest) h = (ground arith, refuse_operators-eq-ok rest (ground arith))

-- The end of the line, read off the tokens in front of it.
peel_background-eq :
    (tokens body : List Token) (background : Bool)
    → peel_background tokens ≡ (body, background)
    → (mark : List Token) × (tokens ≡ body ++ mark) × Mark background mark
unfolding peel_background
peel_background-eq tokens body background h = go (split_last tokens) refl
  where
    plain :
        tokens ≡ body
        → false ≡ background
        → (mark : List Token) × (tokens ≡ body ++ mark) × Mark background mark
    plain t b = ([], t ∙ sym (append-nil body), subst (λ x. Mark x []) b Mark.unmarked)

    found :
        (init : List Token) (m : Token)
        → tokens ≡ init ++ (m ∷ [])
        → is_mark b'&' m ≡ true
        → init ≡ body
        → true ≡ background
        → (mark : List Token) × (tokens ≡ body ++ mark) × Mark background mark
    found init m t y i b =
        (m ∷ [], t ∙ ap (λ x. x ++ (m ∷ [])) i, subst (λ x. Mark x (m ∷ [])) b (Mark.marked m y))

    go :
        (o : Option (List Token × Token))
        → split_last tokens ≡ o
        → (mark : List Token) × (tokens ≡ body ++ mark) × Mark background mark
    go none e = plain (ground arith) (ground arith)
    go (some (init, m)) e = elim (Bool-cases (is_mark b'&' m)) [
      | inl y ↦ found init m (append-split_last tokens init m e) y (ground arith) (ground arith)
      | inr n ↦ plain (ground arith) (ground arith)
    ]

module _ (tokens front : List Token) (output_to : Option Text) where
  bare_end :
      tokens ≡ front
      → none ≡ output_to
      → (end : List Token) × (tokens ≡ front ++ end) × Saved output_to end
  bare_end t o = ([], t ∙ sym (append-nil front), subst (λ x. Saved x []) o Saved.unsaved)

  redirected_end :
      (before : List Token) (r t : Token)
      → tokens ≡ (before ++ (r ∷ [])) ++ (t ∷ [])
      → is_mark b'>' r ≡ true
      → t.operator ≡ false
      → before ≡ front
      → some t.value ≡ output_to
      → (end : List Token) × (tokens ≡ front ++ end) × Saved output_to end
  redirected_end before r t e m n f o = (
    r ∷ t ∷ [],
    e ∙ append_assoc before (r ∷ []) (t ∷ []) ∙ ap (λ x. x ++ (r ∷ t ∷ [])) f,
    subst (λ x. Saved x (r ∷ t ∷ [])) o (Saved.saved r t m n),
  )

  peel_output-eq-ok :
      peel_output tokens ≡ ok (front, output_to)
      → (end : List Token) × (tokens ≡ front ++ end) × Saved output_to end
  unfolding peel_output
  peel_output-eq-ok h = go (split_last tokens) refl
    where
      inner :
          (init : List Token) (t : Token) (o : Option (List Token × Token))
          → split_last tokens ≡ some (init, t)
          → split_last init ≡ o
          → (end : List Token) × (tokens ≡ front ++ end) × Saved output_to end
      inner init t none e f = bare_end (ground arith) (ground arith)
      inner init t (some (before, r)) e f = elim (Bool-cases (is_mark b'>' r)) [
        | inl y ↦
            redirected_end before r t
              (append-split_last tokens init t e
                ∙ ap (λ x. x ++ (t ∷ [])) (append-split_last init before r f))
              y (ground arith) (ground arith) (ground arith)
        | inr n ↦ bare_end (ground arith) (ground arith)
      ]

      go :
          (o : Option (List Token × Token))
          → split_last tokens ≡ o
          → (end : List Token) × (tokens ≡ front ++ end) × Saved output_to end
      go none e = bare_end (ground arith) (ground arith)
      go (some (init, t)) e = inner init t (split_last init) e refl

-- The tokens are those of the command, then the redirection and then the background marker, each
-- where the split says that it is there; and no token of the command is an operator.
pub record IsSplitOf (tokens : List Token) (s : Split) : Type 0 where
  pub end : List Token
  pub mark : List Token
  pub whole : tokens ≡ s.tokens ++ (end ++ mark)
  pub saved_there : Saved s.output_to end
  pub mark_there : Mark s.background mark
  pub no_operator : All (λ (t : Token). t.operator ≡ false) s.tokens

-- A line that `_split_suffix` accepts is the tokens of the command, none of them an operator, then
-- the redirection and then the background marker, each where the result says that it is there.
pub split_suffix-IsSplitOf :
    (tokens : List Token) (s : Split) → split_suffix tokens ≡ ok s → IsSplitOf tokens s
unfolding split_suffix
split_suffix-IsSplitOf tokens s h =
    let (body, background) = peel_background tokens in
    let (mark, t, m) = peel_background-eq tokens body background refl in
    let ((front, output_to), e, f) = >>=-eq-ok (peel_output body) _ h in
    let (end, b, sv) = peel_output-eq-ok body front output_to e in
    let (u, r, g) = >>=-eq-ok (refuse_operators front) _ f in
    subst (IsSplitOf tokens) (ok-injective g) (record {
      end = end;
      mark = mark;
      whole = t ∙ ap (λ x. x ++ mark) b ∙ append_assoc front end mark;
      saved_there = sv;
      mark_there = m;
      no_operator = refuse_operators-eq-ok front r;
    })
