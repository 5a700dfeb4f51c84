-- ===== src/Mcl/Command.antt =====
-- kernel/mcl/mcl_parser.cpp: `Parse`, `Execute` and `GetSuggestions`, with the table of the verbs. An
-- error message is a constructor.
use morphic_os_dev.Base.{
  ℕ, zero, suc, Bool, true, false, Option, none, some, List, [], ◌∷◌, ◌++◌, ltb, ◌==◌,
  if◌then◌else◌, take, length,
}
use morphic_os_dev.Base.Text.{bytes}
use morphic_os_dev.Runtime.{Text, same_text}
use morphic_os_dev.Mcl.Tokens.{
  TokenType, none_type, target_type, modifier_type, Token, zero_token, max_tokens, tokenize,
}

pub data Category : Type 0 where
  unknown : Category
  storage : Category
  hardware : Category
  system : Category

pub data ErrorMessage : Type 0 where
  empty_command : ErrorMessage
  no_tokens_found : ErrorMessage
  unknown_action : ErrorMessage

pub record Command : Type 0 where
  pub category : Category
  pub action : Token
  pub target : Token
  pub modifiers : List Token
  pub valid : Bool
  pub error_message : Option ErrorMessage

pub record Verb : Type 0 where
  pub name : Text
  pub category : Category
  pub valid_targets : List Text

abbrev verb : Text → Category → List Text → Verb
verb name category targets = record { name = name; category = category; valid_targets = targets }

abbrev pub verbs : List Verb
verbs =
    verb (bytes "list") storage (bytes "files" ∷ bytes "folders" ∷ bytes "mounts" ∷ [])
    ∷ verb (bytes "read") storage []
    ∷ verb (bytes "create") storage (bytes "file" ∷ bytes "folder" ∷ [])
    ∷ verb (bytes "delete") storage (bytes "file" ∷ bytes "folder" ∷ [])
    ∷ verb (bytes "open") storage []
    ∷ verb (bytes "go") storage []
    ∷ verb (bytes "show") storage (bytes "cpu" ∷ bytes "memory" ∷ bytes "version" ∷ [])
    ∷ verb (bytes "check") hardware []
    ∷ verb (bytes "test") hardware []
    ∷ verb (bytes "scan") hardware (bytes "bus" ∷ [])
    ∷ verb (bytes "set") system (bytes "layout" ∷ bytes "volume" ∷ [])
    ∷ verb (bytes "toggle") system []
    ∷ verb (bytes "reboot") system []
    ∷ verb (bytes "shutdown") system []
    ∷ []

-- The first verb of that name.
unfoldable pub find_verb : List Verb → Text → Option Verb
find_verb [] w = none
find_verb (v ∷ vs) w = if same_text v.name w then some v else find_verb vs w

abbrev pub is_none : TokenType → Bool
is_none none_type = true
is_none _ = false

-- `cmd.modifiers[cmd.modifier_count++] = t`, if one of the four is left.
unfoldable pub add_modifier : Token → Command → Command
add_modifier t c =
    if ltb (length c.modifiers) 4 then record c { modifiers = c.modifiers ++ (t ∷ []) } else c

-- A target that comes after the target, as a modifier.
abbrev pub extra_target : Token → Token
extra_target t = record { type = modifier_type; text = t.text; key = take 31 t.text; value = [] }

-- What is done with a token of this type.
unfoldable pub place_as : TokenType → Token → Command → Command
unfolding add_modifier
place_as target_type t c =
    if is_none c.target.type then record c { target = t } else add_modifier (extra_target t) c
place_as modifier_type t c = add_modifier t c
place_as _ t c = c

unfoldable pub place_all : List Token → Command → Command
unfolding place_as
place_all [] c = c
place_all (t ∷ ts) c = place_all ts (place_as t.type t c)

-- The command with all bytes zero, and with the message.
abbrev pub zero_command : Command
zero_command = record {
  category = unknown;
  action = zero_token;
  target = zero_token;
  modifiers = [];
  valid = false;
  error_message = none;
}

abbrev pub failed : ErrorMessage → Command → Command
failed e c = record c { error_message = some e }

-- `Parse` from the tokens on.
unfoldable pub parse_tokens : List Token → Option ErrorMessage → Command × Option ErrorMessage
unfolding find_verb place_all
parse_tokens [] last_error = (failed no_tokens_found zero_command, last_error)
parse_tokens (t ∷ ts) last_error = elim (find_verb verbs t.text) [
  | none ↦ (failed unknown_action (record zero_command { action = t }), some unknown_action)
  | some v ↦ (
    record (place_all ts (record zero_command { action = t; category = v.category })) {
      valid = true;
    },
    last_error,
  )
]

-- `Parse`, with `lastError` before and after it. No input is a null pointer.
unfoldable pub parse : Option Text → Option ErrorMessage → Command × Option ErrorMessage
unfolding tokenize parse_tokens
parse none last_error = (failed empty_command zero_command, last_error)
parse (some []) last_error = (failed empty_command zero_command, last_error)
parse (some (c ∷ input)) last_error = parse_tokens (tokenize (c ∷ input) max_tokens) last_error

-- `switch (cmd->category)`: whose handler is called, if any.
abbrev pub handler : Category → Option Category
handler unknown = none
handler storage = some storage
handler hardware = some hardware
handler system = some system

unfoldable pub execute : Command → Option Category
execute c = if c.valid then handler c.category else none

-- `for (j = 0; j < partialLen; j++)`: the bytes of `name` from `j` on, the NUL behind them included,
-- are those of `partial`; the loop ends at the first that differs.
unfoldable pub begins_with : Text → Text → Bool
begins_with name [] = true
begins_with [] (c ∷ partial) = false
begins_with (d ∷ name) (c ∷ partial) = if d == c then begins_with name partial else false

-- The names that pass the test, while fewer than `room` are there.
unfoldable pub matching : ℕ → Text → List Verb → List Text
unfolding begins_with
matching zero partial vs = []
matching (suc room) partial [] = []
matching (suc room) partial (v ∷ vs) =
    let kept = matching room partial vs in
    let skipped = matching (suc room) partial vs in
    if begins_with v.name partial then v.name ∷ kept else skipped

unfoldable pub get_suggestions : Option Text → List Text
unfolding find_verb matching
get_suggestions none = matching 8 [] verbs
get_suggestions (some []) = matching 8 [] verbs
get_suggestions (some (c ∷ partial)) = elim (find_verb verbs (c ∷ partial)) [
  | some v ↦ take 8 v.valid_targets
  | none ↦ matching 8 (c ∷ partial) verbs
]
