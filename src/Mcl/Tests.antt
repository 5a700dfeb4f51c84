-- ===== src/Mcl/Tests.antt =====
-- Runs of the command language, and instances of the theorems.
use morphic_os_dev.Base.{ℕ, ◌≡◌, refl, true, none, some, List, [], ◌∷◌, ◌++◌, take}
use morphic_os_dev.Base.Text.{bytes}
use morphic_os_dev.Runtime.{Text, kstrcmp}
use morphic_os_dev.Mcl.Tokens.{
  make_token, tokenize, tokenize_from, skip_blanks, read_word, colon_pos,
}
use morphic_os_dev.Mcl.Command.{
  parse, parse_tokens, find_verb, place_all, place_as, add_modifier, get_suggestions, matching,
  begins_with,
}
use morphic_os_dev.Mcl.Outcome.{Judged, parse-spaced}
use morphic_os_dev.Mcl.Editing.{Blank, Processed, edit_all, process_input-edit_all}
use morphic_os_dev.Mcl.Input.{input_char, type_keys, process_input, init_input}
use morphic_os_dev.Runtime.Strings.{NoNul}
use native.Mathlib.Omega.{arith}
use morphic_os_dev.Mcl.Words.{spaced, tokens_of, words_of, tokenize-spaced}

-- What is typed, as gaps and words.
abbrev list_line : List (Text × Text)
list_line = ([], bytes "list") ∷ (bytes "  ", bytes "files") ∷ (bytes " ", bytes "in:home") ∷ []

parsed : (parse (some (bytes "list  files in:home ")) none).0.target.text ≡ bytes "files"
unfolding parse parse_tokens tokenize tokenize_from skip_blanks read_word find_verb kstrcmp
    place_all place_as add_modifier make_token colon_pos
parsed = refl

suggested : get_suggestions (some (bytes "re")) ≡ bytes "read" ∷ bytes "reboot" ∷ []
unfolding get_suggestions find_verb kstrcmp matching begins_with
suggested = refl

tokenize-spaced_example :
    tokenize (spaced list_line (bytes " ")) 8 ≡ tokens_of true (take 8 (words_of list_line))
tokenize-spaced_example = tokenize-spaced list_line (bytes " ") 8 refl

no_nul : NoNul (bytes "list")
no_nul = (omega arith, (omega arith, (omega arith, (omega arith, tt))))

parse-spaced_example : Judged (bytes "list") none (parse (some (spaced list_line (bytes " "))) none)
parse-spaced_example =
    parse-spaced [] (bytes "list") ((bytes "  ", bytes "files") ∷ (bytes " ", bytes "in:home") ∷ [])
      (bytes " ") none refl no_nul

init_input-Blank : Blank init_input.0
init_input-Blank = record { start = refl; count = refl; idle = refl }

-- "lis", "x", a backspace and "t".
abbrev typed : List ℕ
typed = bytes "lisx" ++ (8 ∷ bytes "t")

edited : edit_all typed [] ≡ bytes "list"
edited = refl

process_input-edit_all_example :
    Processed
      (edit_all typed [])
      none
      (process_input (bytes "zz") (input_char b'\n' (type_keys typed init_input.0)) none)
process_input-edit_all_example =
    process_input-edit_all typed (bytes "zz") init_input.0 none refl init_input-Blank
