-- ===== src/SchemaGraph/Lineage/Split/Inverse.antt =====
-- The chunks of `_split` of lineage.py, put together again.
use mathlib.Core.Path.{subst}
use m365_xdr_cli.Base.{
  ◌≡◌, refl, sym, ap, ◌∙◌, Option, none, some, List, [], ◌∷◌, ◌++◌, Text, text_eq, text_eq_sound,
  text_eq_self, All, All-map, Bool-cases, inl, inr,
}
use m365_xdr_cli.Base.Attempt.{
  Attempt, returned, raised, ◌>>=◌, >>=-eq-returned, returned-injective,
}
use m365_xdr_cli.SchemaGraph.Lineage.Split.{Unsupported, Chunks, nest, advance, split_from, split}

module _ (separator : Text) where
  -- The chunks behind the first one, each behind a separator.
  abbrev pub tail_of : List (List Text) → List Text
  tail_of [] = []
  tail_of (chunk ∷ more) = separator ∷ (chunk ++ tail_of more)

  -- `separator.join`, on tokens
  abbrev pub glue : List (List Text) → List Text
  glue [] = []
  glue (chunk ∷ more) = chunk ++ tail_of more

  -- The tokens are one chunk: `_split` leaves them as they are.
  abbrev pub IsChunk : List Text → Type 0
  IsChunk ts = split separator ts ≡ returned (ts ∷ [])

  abbrev IsRest : List Text → List Text → Type 0
  IsRest stack ts =
      Path (Attempt Unsupported Chunks) (split_from separator stack ts) (returned (ts, []))

  abbrev behind : List Text → List Text
  behind [] = []
  behind (_ ∷ ts) = ts

  record IsSplit (stack ts : List Text) (split_up : Chunks) : Type 0 where
    joined : ts ≡ split_up.0 ++ tail_of split_up.1
    first : IsRest stack split_up.0
    others : All (IsRest []) split_up.1

  no_end :
      (o : Attempt Unsupported (List Text))
      → Path
          (Attempt Unsupported (Option (List Text)))
          (o >>= λ inner. returned (some inner))
          (returned none)
      → ⊥
  no_end (raised e) p = cc
  no_end (returned a) p = cc

  advance-eq-none :
      (stack : List Text) (t : Text)
      → advance separator stack t ≡ returned none
      → (t ≡ separator) × (stack ≡ [])
  unfolding advance
  advance-eq-none [] t h = elim (Bool-cases (text_eq t separator)) [
    | inl y ↦ (text_eq_sound t separator y, refl)
    | inr n ↦ absurd (no_end (nest [] t) (rw n at h))
  ]
  advance-eq-none (top ∷ below) t h = elim (Bool-cases (text_eq t separator)) [
    | inl y ↦ absurd (no_end (nest (top ∷ below) t) (rw y at h))
    | inr n ↦ absurd (no_end (nest (top ∷ below) t) (rw n at h))
  ]

  advance-separator :
      Path
        (Attempt Unsupported (Option (List Text)))
        (advance separator [] separator)
        (returned none)
  unfolding advance
  advance-separator = rw (text_eq_self separator) refl

  split_from-cons :
      (stack inner : List Text) (t : Text) (ts : List Text) (c : Chunks)
      → advance separator stack t ≡ returned (some inner)
      → split_from separator inner ts ≡ returned c
      → Path
          (Attempt Unsupported Chunks)
          (split_from separator stack (t ∷ ts))
          (returned (t ∷ c.0, c.1))
  unfolding split_from
  split_from-cons stack inner t ts c a e = rw (a, split_from, e) refl

  split_from-separator :
      (ts : List Text) (c : Chunks)
      → split_from separator [] ts ≡ returned c
      → Path
          (Attempt Unsupported Chunks)
          (split_from separator [] (separator ∷ ts))
          (returned ([], c.0 ∷ c.1))
  unfolding split_from
  split_from-separator ts c e = rw (advance-separator, split_from, e) refl

  split_from-nil :
      (stack : List Text) (c : Chunks)
      → split_from separator stack [] ≡ returned c
      → IsSplit stack [] c
  unfolding split_from
  split_from-nil [] c h =
      subst (IsSplit [] []) (returned-injective h)
        (record { joined = refl; first = refl; others = tt })
  split_from-nil (top ∷ below) c h = absurd (cc)

  split_from-IsSplit :
      (stack ts : List Text) (c : Chunks)
      → split_from separator stack ts ≡ returned c
      → IsSplit stack ts c
  unfolding split_from
  split_from-IsSplit stack [] c h = split_from-nil stack c h
  split_from-IsSplit stack (t ∷ ts) c h =
      go (λ st d e. split_from-IsSplit st ts d e) (advance separator stack t) refl h
    where
      go :
          ((st : List Text) (d : Chunks)
            → split_from separator st ts ≡ returned d
            → IsSplit st ts d)
          → (o : Attempt Unsupported (Option (List Text))) → advance separator stack t ≡ o
          → Path
              (Attempt Unsupported Chunks)
              (elim o [
                | raised e ↦ raised e
                | returned none ↦
                    split_from separator [] ts >>= λ (chunk, more). returned ([], chunk ∷ more)
                | returned (some inner) ↦
                    split_from separator inner ts >>= λ (chunk, more). returned (t ∷ chunk, more)
              ])
              (returned c)
          → IsSplit stack (t ∷ ts) c
      go again (raised e) q p = absurd (cc)
      go again (returned none) q p =
          let (d, e, r) = >>=-eq-returned (split_from separator [] ts) _ p in
          let rest = again [] d e in
          let (same, empty) = advance-eq-none stack t q in
          subst (IsSplit stack (t ∷ ts)) (returned-injective r) (record {
            joined =
                ap (λ (x : Text). x ∷ ts) same
                ∙ ap (λ (xs : List Text). separator ∷ xs) rest.joined;
            first = subst (λ (st : List Text). IsRest st []) (sym empty) refl;
            others = (rest.first, rest.others);
          })
      go again (returned (some inner)) q p =
          let (d, e, r) = >>=-eq-returned (split_from separator inner ts) _ p in
          let rest = again inner d e in
          subst (IsSplit stack (t ∷ ts)) (returned-injective r) (record {
            joined = ap (λ (xs : List Text). t ∷ xs) rest.joined;
            first = split_from-cons stack inner t d.0 (d.0, []) q rest.first;
            others = rest.others;
          })

  -- A chunk in front of what is split by itself.
  split_from-append :
      (stack chunk rest : List Text) (more : List (List Text))
      → IsRest stack chunk
      → Path (Attempt Unsupported Chunks) (split_from separator [] rest) (returned ([], more))
      → Path
          (Attempt Unsupported Chunks)
          (split_from separator stack (chunk ++ rest))
          (returned (chunk, more))
  unfolding split_from
  split_from-append [] [] rest more h k = k
  split_from-append (top ∷ below) [] rest more h k = absurd (cc)
  split_from-append stack (t ∷ ts) rest more h k =
      go (λ st e. split_from-append st ts rest more e k) (advance separator stack t) refl h
    where
      go :
          ((st : List Text)
            → IsRest st ts
            → Path
                (Attempt Unsupported Chunks)
                (split_from separator st (ts ++ rest))
                (returned (ts, more)))
          → (o : Attempt Unsupported (Option (List Text))) → advance separator stack t ≡ o
          → Path
              (Attempt Unsupported Chunks)
              (elim o [
                | raised e ↦ raised e
                | returned none ↦
                    split_from separator [] ts >>= λ (chunk, more). returned ([], chunk ∷ more)
                | returned (some inner) ↦
                    split_from separator inner ts >>= λ (chunk, more). returned (t ∷ chunk, more)
              ])
              (returned (t ∷ ts, []))
          → Path
              (Attempt Unsupported Chunks)
              (split_from separator stack (t ∷ (ts ++ rest)))
              (returned (t ∷ ts, more))
      go again (raised e) q p = absurd (cc)
      go again (returned none) q p =
          let (d, e, r) = >>=-eq-returned (split_from separator [] ts) _ p in absurd (cc)
      go again (returned (some inner)) q p =
          let (d, e, r) = >>=-eq-returned (split_from separator inner ts) _ p in
          let same : d ≡ (ts, []) = ap (λ (x : Chunks). (behind x.0, x.1)) (returned-injective r) in
          split_from-cons stack inner t (ts ++ rest) (ts, more) q
            (again inner (e ∙ ap returned same))

  IsRest-IsChunk : (ts : List Text) → IsRest [] ts → IsChunk ts
  unfolding split
  IsRest-IsChunk ts h = rw (h, split) refl

  IsChunk-IsRest : (ts : List Text) → IsChunk ts → IsRest [] ts
  unfolding split
  IsChunk-IsRest ts h =
      let (d, e, r) = >>=-eq-returned (split_from separator [] ts) _ h in
      e ∙ ap (λ (cs : List (List Text)). returned (front cs, behind_all cs)) (returned-injective r)
    where
      front : List (List Text) → List Text
      front [] = []
      front (c ∷ _) = c

      behind_all : List (List Text) → List (List Text)
      behind_all [] = []
      behind_all (_ ∷ cs) = cs

  -- What `_split` returns are chunks that it would split no further, and joined by the separator they are
  -- the tokens.
  pub split-IsChunk :
      (ts : List Text) (chunks : List (List Text))
      → split separator ts ≡ returned chunks
      → (glue chunks ≡ ts) × All IsChunk chunks
  unfolding split
  split-IsChunk ts chunks h =
      let (d, e, r) = >>=-eq-returned (split_from separator [] ts) _ h in
      let found = split_from-IsSplit [] ts d e in
      subst (λ (cs : List (List Text)). (glue cs ≡ ts) × All IsChunk cs) (returned-injective r)
        (
          sym found.joined,
          (
            IsRest-IsChunk d.0 found.first,
            All-map (IsRest []) IsChunk d.1 IsRest-IsChunk found.others,
          ),
        )

  split_from-tail_of :
      (more : List (List Text))
      → All IsChunk more
      → Path
          (Attempt Unsupported Chunks)
          (split_from separator [] (tail_of more))
          (returned ([], more))
  unfolding split_from
  split_from-tail_of [] h = refl
  split_from-tail_of (chunk ∷ more) (h, hs) =
      split_from-separator (chunk ++ tail_of more) (chunk, more)
        (split_from-append [] chunk (tail_of more) more (IsChunk-IsRest chunk h)
          (split_from-tail_of more hs))

  -- Chunks that `_split` would split no further, at least one, are what it returns for these chunks
  -- joined by the separator.
  pub split-glue :
      (chunk : List Text) (more : List (List Text))
      → All IsChunk (chunk ∷ more)
      → split separator (glue (chunk ∷ more)) ≡ returned (chunk ∷ more)
  unfolding split
  split-glue chunk more (h, hs) =
      rw
        (
          split,
          split_from-append [] chunk (tail_of more) more (IsChunk-IsRest chunk h)
              (split_from-tail_of more hs),
        )
        refl
