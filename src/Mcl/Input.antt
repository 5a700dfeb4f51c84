-- ===== src/Mcl/Input.antt =====
-- kernel/mcl/mcl_parser.cpp: `InputChar` and `ProcessInput`. The buffer of 256 characters is a function
-- of the index.
use morphic_os_dev.Base.{
  ℕ, zero, suc, ◌+◌, ◌-◌, Bool, true, false, Option, none, some, List, [], ◌∷◌, ltb, ◌==◌,
  if◌then◌else◌, update,
}
use morphic_os_dev.Runtime.{Text}
use morphic_os_dev.Mcl.Command.{Command, Category, ErrorMessage, parse, execute}

pub record InputBuffer : Type 0 where
  pub buffer : ℕ → ℕ
  pub length : ℕ
  pub ready : Bool
  pub processing : Bool

abbrev pub input_buffer_size : ℕ
input_buffer_size = 256

-- `Init`; the second part is `lastError`.
abbrev pub init_input : InputBuffer × Option ErrorMessage
init_input = (record { buffer = λ i. 0; length = 0; ready = false; processing = false }, none)

unfoldable pub input_char : ℕ → InputBuffer → InputBuffer
input_char c b =
    if b.processing
    then b
    else if c == b'\n'
    then record b { ready = true }
    else if c == 8
    then (if ltb 0 b.length
        then record b { buffer = update b.buffer (b.length - 1) 0; length = b.length - 1 }
        else b)
    else if ltb b.length (input_buffer_size - 1)
    then record b {
      buffer = update (update b.buffer b.length c) (b.length + 1) 0;
      length = b.length + 1;
    }
    else b

unfoldable pub type_keys : List ℕ → InputBuffer → InputBuffer
unfolding input_char
type_keys [] b = b
type_keys (c ∷ keys) b = type_keys keys (input_char c b)

-- The text from an index on: up to the first NUL, in the characters that are left.
unfoldable pub text_from : ℕ → (ℕ → ℕ) → ℕ → Text
text_from zero m i = []
text_from (suc n) m i = let rest = text_from n m (i + 1) in if m i == 0 then [] else m i ∷ rest

pub data Outcome : Type 0 where
  not_ready : Outcome
  executed : Option Category → Command → Outcome
  printed : Option ErrorMessage → Outcome

unfoldable pub begin_processing : InputBuffer → InputBuffer
begin_processing b = record b { processing = true }

unfoldable pub end_processing : InputBuffer → InputBuffer
end_processing b = record {
  buffer = update b.buffer 0 0;
  length = 0;
  ready = false;
  processing = false;
}

-- What is done with the line: the handler is called, or the message is printed.
unfoldable pub outcome_of : Text → Option ErrorMessage → Outcome × Option ErrorMessage
unfolding parse execute
outcome_of line last_error =
    let (cmd, last_error') = parse (some line) last_error in
    if cmd.valid
    then (executed (execute cmd) cmd, last_error')
    else (printed cmd.error_message, last_error')

-- The keys are those that come while the line is processed.
unfoldable pub process_input :
    List ℕ → InputBuffer → Option ErrorMessage → Outcome × InputBuffer × Option ErrorMessage
unfolding text_from begin_processing end_processing outcome_of type_keys
process_input keys b last_error =
    if b.ready
    then (let b' = begin_processing b in
        let (done, last_error') = outcome_of (text_from input_buffer_size b'.buffer 0) last_error in
        (done, end_processing (type_keys keys b'), last_error'))
    else (not_ready, b, last_error)
