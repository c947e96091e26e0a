-- ===== src/LiveResponse/Console/Accepted.antt =====
-- The whole way of a line through `parse_console_line` of live_response/parser.py.
use mathlib.Core.Path.{subst}
use m365_xdr_cli.Base.{
  ◌∙◌, All, ◌≡◌, refl, sym, ap, true, false, Option, none, some, List, [], ◌∷◌, Text, arith,
}
use m365_xdr_cli.Base.Dict.{lookup}
use m365_xdr_cli.LiveResponse.Models.{Platform, ParamSpec, is_local, CommandSpec, ParsedCommand}
use m365_xdr_cli.LiveResponse.Failure.{ok, >>=-eq-ok, ok-injective}
use m365_xdr_cli.LiveResponse.Tokens.{Token, tokenize}
use m365_xdr_cli.LiveResponse.Tokens.Cover.{Covers, tokenize-Covers}
use m365_xdr_cli.LiveResponse.Suffix.{Split, split_suffix}
use m365_xdr_cli.LiveResponse.Suffix.Tail.{IsSplitOf, split_suffix-IsSplitOf}
use m365_xdr_cli.LiveResponse.Bind.{bind}
use m365_xdr_cli.LiveResponse.Parser.{Request, excluded, finish, validate, check_use}
use m365_xdr_cli.LiveResponse.Parser.Complete.{Satisfies, IsSound, finish-IsComplete}
use m365_xdr_cli.LiveResponse.Console.{Index, run_command, parse_console_line}

finish-eq-ok :
    (lower : Text → Text) (spec : CommandSpec) (r : Request) (c : ParsedCommand)
    → finish lower spec r ≡ ok c
    → (c.spec ≡ spec) × (c.output_to ≡ r.output_to) × (c.background ≡ r.background)
unfolding finish
finish-eq-ok lower spec r c h =
    let (values, e, f) = >>=-eq-ok (validate lower spec r.values) _ h in
    let (u, k, g) = >>=-eq-ok (check_use spec r.platform r.output_to r.background) _ f in
    let same = sym (ok-injective g) in
    (
      ap (λ (x : ParsedCommand). x.spec) same,
      ap (λ (x : ParsedCommand). x.output_to) same,
      ap (λ (x : ParsedCommand). x.background) same,
    )

module _ (lower : Text → Text) (index : Index) (platform : Option Platform) (text : Text) where
  -- The command that the tokens name, complete and allowed where and how it is asked for.
  pub record IsCommand (split : Split) (tokens : List Token) (c : ParsedCommand) : Type 0 where
    pub head : Token
    pub rest : List Token
    pub front : tokens ≡ head ∷ rest
    pub unquoted : head.quoted ≡ false
    pub known : lookup (lower head.value) index ≡ some c.spec
    pub output_to : c.output_to ≡ split.output_to
    pub background : c.background ≡ split.background
    pub params : All (λ (p : ParamSpec). Satisfies p (lookup p.param_id c.params)) c.spec.params
    pub available : excluded platform c.spec ≡ false
    pub alone : is_local c.spec.risk ≡ true → (c.output_to ≡ none) × (c.background ≡ false)

  -- What a whole line promises that is accepted.
  pub record IsAccepted (c : ParsedCommand) : Type 0 where
    pub tokens : List Token
    pub split : Split
    pub covers : Covers 0 text tokens
    pub parts : IsSplitOf tokens split
    pub command : IsCommand split split.tokens c

  -- Every specification of the index is sound.
  abbrev pub AllSound : Type 0
  AllSound = (key : Text) (spec : CommandSpec) → lookup key index ≡ some spec → IsSound spec

  run_command-IsCommand :
      (split : Split) (tokens : List Token) (c : ParsedCommand)
      → AllSound
      → run_command lower index platform text split tokens ≡ ok c
      → IsCommand split tokens c
  unfolding run_command
  run_command-IsCommand split [] c sound h = absurd (cc)
  run_command-IsCommand split (head ∷ rest) c sound h = go (lookup (lower head.value) index) refl
    where
      go :
          (o : Option CommandSpec)
          → lookup (lower head.value) index ≡ o
          → IsCommand split (head ∷ rest) c
      go none e = absurd (ground arith)
      go (some spec) e =
          let unquoted : head.quoted ≡ false = ground arith in
          let (bound, b, f) =
            >>=-eq-ok (bind lower spec rest) _ (rw (unquoted, e, run_command) at h) in
          let (same, saved, behind) = finish-eq-ok lower spec _ c f in
          let complete = finish-IsComplete lower spec _ c (sound (lower head.value) spec e) f in
          record {
            head = head;
            rest = rest;
            front = refl;
            unquoted = unquoted;
            known = e ∙ ap some (sym same);
            output_to = saved;
            background = behind;
            params =
                subst
                  (λ (s : CommandSpec).
                    All (λ (p : ParamSpec). Satisfies p (lookup p.param_id c.params)) s.params)
                  (sym same) complete.params;
            available =
                subst (λ (s : CommandSpec). excluded platform s ≡ false) (sym same)
                  complete.available;
            alone = λ l.
                let (x, y) =
                  complete.alone (subst (λ (s : CommandSpec). is_local s.risk ≡ true) same l) in
                (saved ∙ x, behind ∙ y);
          }

  -- Where every specification of the index has distinct parameter ids and no empty choice, an
  -- accepted line is exactly the spellings of some tokens with whitespace around them; these are the
  -- tokens of one command, none of them an operator, and then its redirection and its background
  -- marker, if any; the first of them is not quoted and its lower-case form leads to the
  -- specification of the command in the index; and the command has its required parameters, only
  -- values that its specification allows, is available on the platform that was named, and is
  -- neither redirected nor in the background if it is answered locally.
  pub parse_console_line-IsAccepted :
      (c : ParsedCommand)
      → AllSound
      → parse_console_line lower index platform text ≡ ok c
      → IsAccepted c
  unfolding parse_console_line
  parse_console_line-IsAccepted c sound h =
      let (tokens, t, f) = >>=-eq-ok (tokenize text) _ h in
      let (split, s, g) = >>=-eq-ok (split_suffix tokens) _ f in
      record {
        tokens = tokens;
        split = split;
        covers = tokenize-Covers text tokens t;
        parts = split_suffix-IsSplitOf tokens split s;
        command = run_command-IsCommand split split.tokens c sound g;
      }
