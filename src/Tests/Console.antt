-- ===== src/Tests/Console.antt =====
-- Console lines through the tokenizer, the suffix and the checks of a command.
use mathlib.Core.Path.{subst}
use m365_xdr_cli.LiveResponse.Models.{spellings}
use m365_xdr_cli.LiveResponse.Bind.{
  bind, bind_loop, fill_options, fill_flags, add_option, add_spellings, is_option, free_slot,
}
use m365_xdr_cli.LiveResponse.Console.{Index, run_command, parse_console_line}
use m365_xdr_cli.LiveResponse.Console.Accepted.{AllSound, IsAccepted, parse_console_line-IsAccepted}
use m365_xdr_cli.Base.{strip}
use m365_xdr_cli.Base.{
  ◌≡◌, ◌≢◌, refl, true, false, none, some, List, [], ◌∷◌, Text, codes, Text-discrete, arith,
  is_space,
}
use m365_xdr_cli.Base.Dict.{lookup, insert, lookup_or, has_key}
use m365_xdr_cli.LiveResponse.Models.{ParsedCommand, read, windows, risk_for, offers}
use m365_xdr_cli.LiveResponse.Failure.{ok, err, exhausted}
use m365_xdr_cli.LiveResponse.Tokens.{
  Token, tokenize, word_token, quoted_token, operator_token, scan, scan_quoted, scan_operator,
  scan_unquoted, scan_word, split_quote, glued, is_control,
}
use m365_xdr_cli.LiveResponse.Tokens.Words.{word_char}
use m365_xdr_cli.LiveResponse.Tokens.Cover.{Covers, tokenize-Covers}
use m365_xdr_cli.LiveResponse.Tokens.Fuel.{tokenize-ne-exhausted}
use m365_xdr_cli.LiveResponse.Tokens.Render.{
  Piece, quoted, word, line, layout, printable, tokenize-line,
}
use m365_xdr_cli.LiveResponse.Suffix.{
  Split, split_suffix, split_last, peel_background, peel_output, refuse_operators,
}
use m365_xdr_cli.LiveResponse.Suffix.Tail.{IsSplitOf, split_suffix-IsSplitOf}
use m365_xdr_cli.LiveResponse.Parser.{
  Request, finish, validate, check_params, check_value, check_choice, canonical_choice,
  has_forbidden, check_use, ordered_params, canonical, param_parts, flag_parts, quote, needs_quotes,
}
use m365_xdr_cli.LiveResponse.Parser.Complete.{IsComplete, IsSound, finish-IsComplete}
use m365_xdr_cli.LiveResponse.Catalog.Inspection.{dir_spec}
use m365_xdr_cli.Tests.{ascii_lower}

abbrev list_folder : List Piece
list_folder = word (codes "dir") ∷ quoted (codes "C:/Temp files") ∷ []

tokenize-line_example : tokenize (line list_folder) ≡ ok (layout 0 list_folder)
unfolding word_char printable is_control is_space
tokenize-line_example =
    tokenize-line list_folder ((refl, omega arith), (refl, tt)) (refl, (refl, tt))

abbrev saved_line : Text
saved_line = codes "dir \"C:/Temp files\" > out &"

abbrev saved_tokens : List Token
saved_tokens =
    word_token (codes "dir") 0
    ∷ quoted_token (codes "C:/Temp files") 4
    ∷ operator_token b'>' 20
    ∷ word_token (codes "out") 22
    ∷ operator_token b'&' 26
    ∷ []

tokenize-Covers_example : Covers 0 saved_line saved_tokens
unfolding tokenize scan scan_quoted scan_operator scan_unquoted scan_word split_quote glued
    is_control is_space
tokenize-Covers_example = tokenize-Covers saved_line saved_tokens refl

tokenize-ne-exhausted_example : tokenize saved_line ≢ err exhausted
tokenize-ne-exhausted_example = tokenize-ne-exhausted saved_line

abbrev saved_split : Split
saved_split = record {
  tokens = word_token (codes "dir") 0 ∷ quoted_token (codes "C:/Temp files") 4 ∷ [];
  output_to = some (codes "out");
  background = true;
}

split_suffix-IsSplitOf_example : IsSplitOf saved_tokens saved_split
unfolding split_suffix split_last peel_background peel_output refuse_operators Text-discrete
split_suffix-IsSplitOf_example = split_suffix-IsSplitOf saved_tokens saved_split refl

abbrev folder_request : Request
folder_request = record {
  values = (codes "path", codes "C:/Temp files") ∷ (codes "output", codes "JSON") ∷ [];
  flags = codes "full_path" ∷ [];
  platform = some windows;
  raw_line = [];
  output_to = none;
  background = false;
}

abbrev folder_command : ParsedCommand
folder_command = record {
  spec = dir_spec;
  params = (codes "path", codes "C:/Temp files") ∷ (codes "output", codes "json") ∷ [];
  flags = codes "full_path" ∷ [];
  risk = read;
  console_line = codes "dir \"C:/Temp files\" json -full_path";
  raw_line = [];
  background = false;
  output_to = none;
}

dir_spec-IsSound : IsSound dir_spec
dir_spec-IsSound = record {
  distinct = (((λ e. absurd (cc)), tt), (tt, tt));
  full = (tt, ((refl, (refl, tt)), tt));
}

finish-IsComplete_example : IsComplete dir_spec folder_request folder_command
unfolding finish validate check_params check_value check_choice canonical_choice has_forbidden
    check_use ordered_params canonical param_parts flag_parts quote needs_quotes risk_for lookup
    lookup_or insert is_space Text-discrete offers
finish-IsComplete_example =
    finish-IsComplete ascii_lower dir_spec folder_request folder_command dir_spec-IsSound refl

abbrev only_dir : Index
only_dir = (codes "dir", dir_spec) ∷ []

only_dir-AllSound : AllSound ascii_lower only_dir none saved_line
unfolding lookup
only_dir-AllSound key spec h =
    let same : dir_spec ≡ spec = ground arith in subst IsSound same dir_spec-IsSound

abbrev saved_command : ParsedCommand
saved_command = record {
  spec = dir_spec;
  params = (codes "path", codes "C:/Temp files") ∷ [];
  flags = [];
  risk = read;
  console_line = codes "dir \"C:/Temp files\"";
  raw_line = saved_line;
  background = true;
  output_to = some (codes "out");
}

parse_console_line-IsAccepted_example :
    IsAccepted ascii_lower only_dir none saved_line saved_command
unfolding parse_console_line run_command bind bind_loop fill_options fill_flags add_option
    add_spellings spellings is_option free_slot strip tokenize scan scan_quoted scan_operator
    scan_unquoted scan_word split_quote glued is_control split_suffix split_last peel_background
    peel_output refuse_operators finish validate check_params check_value check_choice
    canonical_choice has_forbidden check_use ordered_params canonical param_parts flag_parts quote
    needs_quotes risk_for lookup lookup_or insert is_space Text-discrete offers has_key
parse_console_line-IsAccepted_example =
    parse_console_line-IsAccepted ascii_lower only_dir none saved_line saved_command
      only_dir-AllSound refl
