-- ===== src/SchemaGraph/CapturePlan/Accounts.antt =====
-- What becomes of each table that capture_plan.py considers.
use mathlib.Core.Path.{subst}
use m365_xdr_cli.Base.{
  ◌≡◌, refl, sym, ◌⊎◌, inl, inr, Bool, true, false, ◌||◌, Option, none, some, List, [], ◌∷◌, Text,
  text_eq, text_eq_sound, contains, contains-Among, Among, Among-append, Bool-cases, if◌then◌else◌,
}
use m365_xdr_cli.Base.Dict.{Dict, keys, lookup, lookup_or, has_key}
use m365_xdr_cli.Base.Sort.{sort_texts, lex_leb, Among-sort_by}
use m365_xdr_cli.SchemaGraph.CapturePlan.{
  Columns, CaptureTable, Reason, Exclusion, Selection, exclusion, capture_table, select_one,
  is_wanted, select_tables, missing_names, not_cached, given_names, select,
}

Among-sort_texts : (z : Text) (xs : List Text) → Among z xs → Among z (sort_texts xs)
unfolding sort_texts
Among-sort_texts z xs h = Among-sort_by lex_leb z xs h

-- The table is captured, or it is excluded with a reason.
pub data IsAccounted (name : Text) (s : Selection) : Type 0 where
  captured : (t : CaptureTable) → Among t s.tables → t.name ≡ name → IsAccounted name s
  excluded : (e : Exclusion) → Among e s.exclusions → e.table ≡ name → IsAccounted name s

select_one-IsAccounted :
    (name : Text) (columns : Columns) (s : Selection) → IsAccounted name (select_one name columns s)
unfolding select_one capture_table
select_one-IsAccounted name columns s = go (exclusion name columns)
  where
    go :
        (o : Option Reason)
        → IsAccounted name (elim o [
          | some reason ↦ record s {
            exclusions = (record { table = name; reason = reason }) ∷ s.exclusions;
          }
          | none ↦ record s { tables = capture_table name columns ∷ s.tables }
        ])
    go none = captured (capture_table name columns) (inl refl) refl
    go (some reason) = excluded (record { table = name; reason = reason }) (inl refl) refl

select_one-kept :
    (name other : Text) (columns : Columns) (s : Selection)
    → IsAccounted name s
    → IsAccounted name (select_one other columns s)
unfolding select_one
select_one-kept name other columns s h = go (exclusion other columns) h
  where
    go :
        (o : Option Reason)
        → IsAccounted name s
        → IsAccounted name (elim o [
          | some reason ↦ record s {
            exclusions = (record { table = other; reason = reason }) ∷ s.exclusions;
          }
          | none ↦ record s { tables = capture_table other columns ∷ s.tables }
        ])
    go none (captured t a e) = captured t (inr a) e
    go none (excluded x a e) = excluded x a e
    go (some reason) (captured t a e) = captured t a e
    go (some reason) (excluded x a e) = excluded x (inr a) e

module _ (columns : Dict Columns) (wanted : Option (List Text)) where
  select_tables-IsAccounted :
      (name : Text) (names : List Text)
      → is_wanted wanted name ≡ true
      → Among name names
      → IsAccounted name (select_tables columns wanted names)
  unfolding select_tables
  select_tables-IsAccounted name [] w h = elim h [ ]
  select_tables-IsAccounted name (other ∷ names) w (inl e) =
      subst (λ (x : Text). IsAccounted name (select_tables columns wanted (x ∷ names))) e
        (rw (w, select_tables)
          (select_one-IsAccounted name (lookup_or name columns [])
            (select_tables columns wanted names)))
  select_tables-IsAccounted name (other ∷ names) w (inr h) =
      go (is_wanted wanted other) (select_tables-IsAccounted name names w h)
    where
      go :
          (b : Bool)
          → IsAccounted name (select_tables columns wanted names)
          → IsAccounted name (
              if b
              then select_one other
                  (lookup_or other columns [])
                  (select_tables columns wanted names)
              else select_tables columns wanted names)
      go true k =
          select_one-kept name other (lookup_or other columns [])
            (select_tables columns wanted names) k
      go false k = k

  missing_names-Among :
      (name : Text) (names : List Text)
      → has_key name columns ≡ false
      → Among name names
      → Among name (missing_names columns names)
  unfolding missing_names
  missing_names-Among name [] m h = elim h [ ]
  missing_names-Among name (other ∷ names) m (inl e) =
      subst (λ (x : Text). Among name (missing_names columns (x ∷ names))) e
        (elim (Bool-cases (contains name (missing_names columns names))) [
          | inl y ↦ rw (m, missing_names, y) (contains-Among name (missing_names columns names) y)
          | inr n ↦ rw (m, missing_names, n) (inl refl)
        ])
  missing_names-Among name (other ∷ names) m (inr h) =
      go (has_key other columns || contains other (missing_names columns names))
        (missing_names-Among name names m h)
    where
      go :
          (b : Bool)
          → Among name (missing_names columns names)
          → Among name
              (if b then missing_names columns names else other ∷ missing_names columns names)
      go true k = k
      go false k = inr k

not_cached-Among :
    (name : Text) (names : List Text)
    → Among name names
    → (e : Exclusion) × Among e (not_cached names) × (e.table ≡ name)
not_cached-Among name [] h = elim h [ ]
not_cached-Among name (other ∷ names) (inl e) =
    (record { table = other; reason = Reason.not_in_physical_cache }, inl refl, sym e)
not_cached-Among name (other ∷ names) (inr h) =
    let (x, a, e) = not_cached-Among name names h in (x, inr a, e)

has_key-Among : (name : Text) (d : Dict Columns) → has_key name d ≡ true → Among name (keys d)
unfolding has_key lookup
has_key-Among name [] h = absurd (cc)
has_key-Among name ((k, v) ∷ d) h = elim (Bool-cases (text_eq name k)) [
  | inl y ↦ inl (text_eq_sound name k y)
  | inr n ↦ inr (has_key-Among name d (rw (n, has_key) at h))
]

module _ (columns : Dict Columns) (wanted : Option (List Text)) where
  abbrev cached : Selection
  cached = select_tables columns wanted (sort_texts (keys columns))

  abbrev not_there : List Text
  not_there = sort_texts (missing_names columns (given_names wanted))

  cached-IsAccounted :
      (name : Text) → IsAccounted name cached → IsAccounted name (select columns wanted)
  unfolding select
  cached-IsAccounted name (captured t a e) = captured t a e
  cached-IsAccounted name (excluded x a e) =
      excluded x (Among-append x cached.exclusions (not_cached not_there) (inl a)) e

  listed-IsAccounted :
      (name : Text)
      → is_wanted wanted name ≡ true
      → Among name (keys columns)
      → IsAccounted name (select columns wanted)
  listed-IsAccounted name w h = cached-IsAccounted name (
      select_tables-IsAccounted columns wanted name (sort_texts (keys columns)) w
        (Among-sort_texts name (keys columns) h))

  -- Every table that is wanted, and is in the cache or was asked for, is captured or excluded with a
  -- reason.
  pub select-IsAccounted :
      (name : Text)
      → is_wanted wanted name ≡ true
      → Among name (keys columns) ⊎ Among name (given_names wanted)
      → IsAccounted name (select columns wanted)
  unfolding select
  select-IsAccounted name w (inl h) = listed-IsAccounted name w h
  select-IsAccounted name w (inr h) = elim (Bool-cases (has_key name columns)) [
    | inl y ↦ listed-IsAccounted name w (has_key-Among name columns y)
    | inr n ↦
        let (x, a, e) = not_cached-Among name not_there (
          Among-sort_texts name (missing_names columns (given_names wanted))
            (missing_names-Among columns wanted name (given_names wanted) n h)) in
        excluded x (Among-append x cached.exclusions (not_cached not_there) (inr a)) e
  ]
