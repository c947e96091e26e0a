-- ===== src/LiveResponse/Catalog/Aliases/Correct.antt =====
-- `build_alias_index` of live_response/catalog.py against a description of its index.
use mathlib.Core.Path.{subst}
use mathlib.Core.Option.{some-injective}
use mathlib.Core.List.{append_assoc}
use m365_xdr_cli.Base.{
  ℕ, zero, suc, ◌+◌, ◌≡◌, refl, sym, ap, ◌∙◌, Option, none, some, List, [], ◌∷◌, ◌++◌, Text,
  text_eq, Bool-cases, inl, inr, arith, All, All-map, get_elem?, get_elem?-append, length,
  length-append,
}
use m365_xdr_cli.Base.Dict.{Dict, lookup, lookup-nil, insert, lookup-insert}
use m365_xdr_cli.LiveResponse.Models.{CommandSpec}
use m365_xdr_cli.LiveResponse.Catalog.Aliases.{
  Entry, add_name, add_names, add_specs, build_alias_index,
}

-- A key of the index leads to the specification at a place.
abbrev Leads : Dict Entry → ℕ → Text → Type 0
Leads index place key = (e : Entry) × (lookup key index ≡ some e) × (e.0 ≡ place)

-- What is in one index stays in another.
abbrev Extends : Dict Entry → Dict Entry → Type 0
Extends index next = (key : Text) (e : Entry) → lookup key index ≡ some e → lookup key next ≡ some e

Leads-Extends :
    (index next : Dict Entry) (place : ℕ) (key : Text)
    → Extends index next
    → Leads index place key
    → Leads next place key
Leads-Extends index next place key x (e, l, p) = (e, x key e l, p)

pair_eq :
    (e : Entry) (place : ℕ) (spec : CommandSpec) → e.0 ≡ place → e.1 ≡ spec → e ≡ (place, spec)
pair_eq e place spec p q = λ i. (p i, q i)

-- Every entry is a specification of the list with its place.
abbrev Places : List CommandSpec → Dict Entry → Type 0
Places specs index =
    (key : Text) (e : Entry) → lookup key index ≡ some e → get_elem? specs e.0 ≡ some e.1

-- What adding one name comes to: it was free and is taken, or leads to the same place already.
data Added (key : Text) (entry : Entry) (index next : Dict Entry) : Type 0 where
  fresh : lookup key index ≡ none → next ≡ insert key entry index → Added key entry index next
  known :
      (other : Entry)
      → lookup key index ≡ some other
      → other.0 ≡ entry.0
      → next ≡ index
      → Added key entry index next

add_name-Added :
    (lower : Text → Text) (entry : Entry) (name : Text) (index next : Dict Entry)
    → add_name lower entry name index ≡ some next
    → Added (lower name) entry index next
unfolding add_name
add_name-Added lower entry name index next h = go (lookup (lower name) index) refl
  where
    go : (o : Option Entry) → lookup (lower name) index ≡ o → Added (lower name) entry index next
    go none e = Added.fresh e (ground arith)
    go (some other) e = Added.known other e (ground arith) (ground arith)

module _ (key : Text) (entry : Entry) (index next : Dict Entry) where
  Extends-Added : Added key entry index next → Extends index next
  Extends-Added (Added.fresh f e) k v l = rw e (ground (arith, lookup-insert k key entry index))
  Extends-Added (Added.known other o p e) k v l = rw e l

  Leads-Added : Added key entry index next → Leads next entry.0 key
  Leads-Added (Added.fresh f e) =
      (entry, rw e (ground (arith, lookup-insert key key entry index)), refl)
  Leads-Added (Added.known other o p e) = (other, rw e o, p)

  Places-Added :
      (specs : List CommandSpec)
      → get_elem? specs entry.0 ≡ some entry.1
      → Added key entry index next
      → Places specs index
      → Places specs next
  Places-Added specs g (Added.fresh f e) h k v l = elim (Bool-cases (text_eq k key)) [
    | inl y ↦
        let same : entry ≡ v = ground (arith, lookup-insert k key entry index) in
        subst (λ (x : Entry). get_elem? specs x.0 ≡ some x.1) same g
    | inr n ↦ h k v (ground (arith, lookup-insert k key entry index))
  ]
  Places-Added specs g (Added.known other o p e) h k v l = h k v (rw (← e) l)

module _ (lower : Text → Text) where
  -- What adding the names of one specification does to the index.
  record Grown (entry : Entry) (names : List Text) (index next : Dict Entry) : Type 0 where
    extends : Extends index next
    leads : All (λ name. Leads next entry.0 (lower name)) names
    places :
        (specs : List CommandSpec)
        → get_elem? specs entry.0 ≡ some entry.1
        → Places specs index
        → Places specs next

  add_names-Grown :
      (entry : Entry) (names : List Text) (index next : Dict Entry)
      → add_names lower entry names index ≡ some next
      → Grown entry names index next
  unfolding add_names
  add_names-Grown entry [] index next h =
      let same : index ≡ next = some-injective index next h in
      record {
        extends = λ k v l. rw (← same) l;
        leads = tt;
        places = λ specs g p k v l. p k v (rw same l);
      }
  add_names-Grown entry (name ∷ rest) index next h =
      go (add_name lower entry name index) (λ middle. add_names-Grown entry rest middle next) refl
    where
      step :
          (middle : Dict Entry)
          → Added (lower name) entry index middle
          → Grown entry rest middle next
          → Grown entry (name ∷ rest) index next
      step middle a g = record {
        extends = λ k v l. g.extends k v (Extends-Added (lower name) entry index middle a k v l);
        leads = (
          Leads-Extends middle next entry.0 (lower name) g.extends
              (Leads-Added (lower name) entry index middle a),
          g.leads,
        );
        places = λ specs e p.
            g.places specs e (Places-Added (lower name) entry index middle specs e a p);
      }

      go :
          (o : Option (Dict Entry))
          → ((middle : Dict Entry)
              → add_names lower entry rest middle ≡ some next
              → Grown entry rest middle next)
          → add_name lower entry name index ≡ o
          → Grown entry (name ∷ rest) index next
      go none grow e = absurd (ground arith)
      go (some middle) grow e =
          step middle (add_name-Added lower entry name index middle e) (grow middle (ground arith))

  -- The names of the specifications from a place on lead to their places.
  abbrev LeadsFrom : Dict Entry → ℕ → List CommandSpec → Type 0
  LeadsFrom index place [] = Unit
  LeadsFrom index place (spec ∷ rest) =
      All (λ name. Leads index place (lower name)) (spec.name ∷ spec.aliases)
      × LeadsFrom index (suc place) rest

  Leads-All :
      (index next : Dict Entry) (place : ℕ) (names : List Text)
      → Extends index next
      → All (λ name. Leads index place (lower name)) names
      → All (λ name. Leads next place (lower name)) names
  Leads-All index next place [] x h = tt
  Leads-All index next place (name ∷ rest) x (h, hs) =
      (Leads-Extends index next place (lower name) x h, Leads-All index next place rest x hs)

  record Indexed (place : ℕ) (specs : List CommandSpec) (index next : Dict Entry) : Type 0 where
    extends : Extends index next
    leads : LeadsFrom next place specs
    places :
        (before : List CommandSpec)
        → length before ≡ place
        → Places (before ++ specs) index
        → Places (before ++ specs) next

  add_specs-Indexed :
      (place : ℕ) (specs : List CommandSpec) (index next : Dict Entry)
      → add_specs lower place specs index ≡ some next
      → Indexed place specs index next
  unfolding add_specs
  add_specs-Indexed place [] index next h =
      let same : index ≡ next = some-injective index next h in
      record {
        extends = λ k v l. rw (← same) l;
        leads = tt;
        places = λ before n p k v l. p k v (rw same l);
      }
  add_specs-Indexed place (spec ∷ rest) index next h =
      go (add_names lower (place, spec) (spec.name ∷ spec.aliases) index)
        (λ middle. add_specs-Indexed (suc place) rest middle next) refl
    where
      step :
          (middle : Dict Entry)
          → Grown (place, spec) (spec.name ∷ spec.aliases) index middle
          → Indexed (suc place) rest middle next
          → Indexed place (spec ∷ rest) index next
      step middle g i = record {
        extends = λ k v l. i.extends k v (g.extends k v l);
        leads = (Leads-All middle next place (spec.name ∷ spec.aliases) i.extends g.leads, i.leads);
        places = λ before n p.
            let shift : before ++ (spec ∷ rest) ≡ (before ++ (spec ∷ [])) ++ rest =
              sym (append_assoc before (spec ∷ []) rest) in
            let at : get_elem? (before ++ (spec ∷ rest)) place ≡ some spec =
              subst (λ (x : ℕ). get_elem? (before ++ (spec ∷ rest)) x ≡ some spec) n
                (get_elem?-append before spec rest) in
            subst (λ all. Places all next) (sym shift)
              (i.places (before ++ (spec ∷ []))
                (omega (arith, length-append {0} before (spec ∷ [])))
                (subst (λ all. Places all middle) shift (g.places (before ++ (spec ∷ rest)) at p)));
      }

      go :
          (o : Option (Dict Entry))
          → ((middle : Dict Entry)
              → add_specs lower (suc place) rest middle ≡ some next
              → Indexed (suc place) rest middle next)
          → add_names lower (place, spec) (spec.name ∷ spec.aliases) index ≡ o
          → Indexed place (spec ∷ rest) index next
      go none grow e = absurd (ground arith)
      go (some middle) grow e =
          step middle (add_names-Grown (place, spec) (spec.name ∷ spec.aliases) index middle e)
            (grow middle (ground arith))

  -- What a finished index promises.
  pub record IsIndexOf (specs : List CommandSpec) (index : Dict Entry) : Type 0 where
    pub leads :
        (place : ℕ) (spec : CommandSpec)
        → get_elem? specs place ≡ some spec
        → All (λ name. lookup (lower name) index ≡ some (place, spec)) (spec.name ∷ spec.aliases)
    pub only : (key : Text) (e : Entry) → lookup key index ≡ some e → get_elem? specs e.0 ≡ some e.1

  LeadsFrom-at :
      (index : Dict Entry) (start i : ℕ) (specs : List CommandSpec) (spec : CommandSpec)
      → LeadsFrom index start specs
      → get_elem? specs i ≡ some spec
      → All (λ name. Leads index (start + i) (lower name)) (spec.name ∷ spec.aliases)
  LeadsFrom-at index start i [] spec l h = absurd (ground arith)
  LeadsFrom-at index start zero (s ∷ rest) spec (l, ls) h =
      let here : start ≡ start + 0 = omega arith in
      subst
        (λ (x : CommandSpec).
          All (λ name. Leads index (start + 0) (lower name)) (x.name ∷ x.aliases))
        (some-injective s spec h)
        (subst (λ (p : ℕ). All (λ name. Leads index p (lower name)) (s.name ∷ s.aliases)) here l)
  LeadsFrom-at index start (suc i) (s ∷ rest) spec (l, ls) h =
      let there : suc start + i ≡ start + suc i = omega arith in
      subst (λ (p : ℕ). All (λ name. Leads index p (lower name)) (spec.name ∷ spec.aliases)) there
        (LeadsFrom-at index (suc start) i rest spec ls h)

  -- Where the index is built, each name and alias of each specification, in lower case, leads to
  -- that very specification, and the index holds nothing but specifications of the list.
  pub build_alias_index-IsIndexOf :
      (specs : List CommandSpec) (index : Dict Entry)
      → build_alias_index lower specs ≡ some index
      → IsIndexOf specs index
  unfolding build_alias_index
  build_alias_index-IsIndexOf specs index h =
      let i = add_specs-Indexed 0 specs [] index h in
      let only : Places specs index =
        i.places [] refl (λ k v l. absurd (cc (lookup-nil {V = Entry} k))) in
      record {
        leads = λ place spec at.
            All-map _ _ (spec.name ∷ spec.aliases)
              (λ name (e, l, p').
                let p : e.0 ≡ place = omega arith in
                let placed : get_elem? specs place ≡ some e.1 =
                  subst (λ (x : ℕ). get_elem? specs x ≡ some e.1) p (only (lower name) e l) in
                l ∙ ap some (pair_eq e place spec p (some-injective e.1 spec (sym placed ∙ at))))
              (LeadsFrom-at index 0 place specs spec i.leads at);
        only = only;
      }
