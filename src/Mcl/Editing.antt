-- ===== src/Mcl/Editing.antt =====
-- The line that the keyboard fills, as a list.
use mathlib.Core.Path.{subst}
use morphic_os_dev.Base.{
  ℕ, zero, suc, ◌+◌, ◌-◌, ◌≡◌, ◌≢◌, ◌<◌, refl, sym, ap, ◌∙◌, Bool, true, false, not, ◌&&◌, Option,
  List, [], ◌∷◌, ◌++◌, ltb, ◌==◌, if◌then◌else◌, length, update, arith, Bool-cases, length-append,
  inl, inr,
}
use morphic_os_dev.Runtime.{Text}
use morphic_os_dev.Mcl.Command.{ErrorMessage}
use morphic_os_dev.Mcl.Input.{
  InputBuffer, input_buffer_size, input_char, type_keys, text_from, Outcome, begin_processing,
  end_processing, outcome_of, process_input,
}

abbrev pub drop_last : Text → Text
drop_last [] = []
drop_last (c ∷ []) = []
drop_last (c ∷ d ∷ s) = c ∷ drop_last (d ∷ s)

-- A line editor: a backspace takes the last character away, and a 256th character is ignored.
abbrev pub edit : ℕ → Text → Text
edit c line =
    if c == 8 then drop_last line else if ltb (length line) 255 then line ++ (c ∷ []) else line

abbrev pub edit_all : List ℕ → Text → Text
edit_all [] line = line
edit_all (c ∷ keys) line = edit_all keys (edit c line)

-- Neither NUL nor the end of the line.
abbrev pub plain : List ℕ → Bool
plain [] = true
plain (c ∷ keys) = not (c == 0) && not (c == b'\n') && plain keys

-- The line stands from `i` on, and a NUL behind it.
abbrev Written : (ℕ → ℕ) → ℕ → Text → Type 0
Written m i [] = m i ≡ 0
Written m i (c ∷ line) = (m i ≡ c) × (c ≢ 0) × Written m (i + 1) line

record Holds (b : InputBuffer) (line : Text) : Type 0 where
  written : Written b.buffer 0 line
  count : b.length ≡ length line
  bounded : length line < input_buffer_size
  idle : b.processing ≡ false

append-Written :
    (m : ℕ → ℕ) (i k c : ℕ) (line : Text)
    → Written m i line
    → k ≡ i + length line
    → c ≢ 0
    → Written (update (update m k c) (k + 1) 0) i (line ++ (c ∷ []))
append-Written m i k c [] w e ne = (ground (arith, e), ne, ground (arith, e))
append-Written m i k c (d ∷ line) (at, nz, w) e ne =
    (ground (arith, e, at), nz, append-Written m (i + 1) k c line w (omega (arith, e)) ne)

drop_last-Written :
    (m : ℕ → ℕ) (i k d : ℕ) (line : Text)
    → Written m i (d ∷ line)
    → k ≡ i + length line
    → Written (update m k 0) i (drop_last (d ∷ line))
drop_last-Written m i k d [] w e = ground (arith, e)
drop_last-Written m i k d (c ∷ line) (at, nz, w) e =
    (ground (arith, e, at), nz, drop_last-Written m (i + 1) k c line w (omega (arith, e)))

length-drop_last : (d : ℕ) (line : Text) → length (drop_last (d ∷ line)) ≡ length line
length-drop_last d [] = refl
length-drop_last d (c ∷ line) = ap suc (length-drop_last c line)

text_from-Written :
    (n : ℕ) (m : ℕ → ℕ) (i : ℕ) (line : Text)
    → Written m i line
    → length line < n
    → text_from n m i ≡ line
unfolding text_from
text_from-Written zero m i line w lt = absurd (omega (arith, lt))
text_from-Written (suc n) m i [] w lt = ground (arith, w)
text_from-Written (suc n) m i (c ∷ line) (at, nz, w) lt =
    let rest = text_from-Written n m (i + 1) line w (omega (arith, lt)) in
    let here : (m i == 0) ≡ false = ground (arith, at, nz) in rw (here, rest, at) refl

-- The branches of `InputChar`, on a line that is held.
module _ (c : ℕ) (b : InputBuffer) (nl : (c == b'\n') ≡ false) (idle : b.processing ≡ false) where
  input_char_erase :
      (c == 8) ≡ true
      → ltb 0 b.length ≡ true
      → input_char c b
        ≡ record b { buffer = update b.buffer (b.length - 1) 0; length = b.length - 1 }
  unfolding input_char
  input_char_erase e f = rw (idle, nl, e, f, input_char) refl

  input_char_none : (c == 8) ≡ true → ltb 0 b.length ≡ false → input_char c b ≡ b
  unfolding input_char
  input_char_none e f = rw (idle, nl, e, f, input_char) refl

  input_char_add :
      (c == 8) ≡ false
      → ltb b.length 255 ≡ true
      → input_char c b ≡ record b {
        buffer = update (update b.buffer b.length c) (b.length + 1) 0;
        length = b.length + 1;
      }
  unfolding input_char
  input_char_add e f = rw (idle, nl, e, f, input_char) refl

  input_char_full : (c == 8) ≡ false → ltb b.length 255 ≡ false → input_char c b ≡ b
  unfolding input_char
  input_char_full e f = rw (idle, nl, e, f, input_char) refl

-- The line is held, and nothing else has changed.
abbrev Edited : InputBuffer → Text → InputBuffer → Type 0
Edited b line b' = Holds b' line × (b'.ready ≡ b.ready)

erase-Edited :
    (c : ℕ) (b : InputBuffer) (line : Text)
    → (c == b'\n') ≡ false
    → (c == 8) ≡ true
    → Holds b line
    → Edited b (drop_last line) (input_char c b)
erase-Edited c b [] nl e h =
    rw (input_char_none c b nl h.idle e (ground (arith, h.count))) (h, refl)
erase-Edited c b (d ∷ line) nl e h =
    rw (input_char_erase c b nl h.idle e (ground (arith, h.count))) (
      record {
        written =
            drop_last-Written b.buffer 0 (b.length - 1) d line h.written (omega (arith, h.count));
        count = omega (arith, h.count, length-drop_last d line);
        bounded = omega (arith, h.bounded, length-drop_last d line);
        idle = h.idle;
      },
      refl,
    )

input_char-Edited :
    (c : ℕ) (b : InputBuffer) (line : Text)
    → c ≢ 0
    → (c == b'\n') ≡ false
    → Holds b line
    → Edited b (edit c line) (input_char c b)
input_char-Edited c b line nz nl h = elim (Bool-cases (c == 8)) [
  | inl e ↦ rw e (erase-Edited c b line nl e h)
  | inr e ↦ elim (Bool-cases (ltb b.length 255)) [
    | inl f ↦
        let f' : ltb (length line) 255 ≡ true = ground (arith, f, h.count) in
        rw (e, f', input_char_add c b nl h.idle e f)
          (
            record {
              written =
                  append-Written b.buffer 0 b.length c line h.written (omega (arith, h.count)) nz;
              count = omega (arith, h.count, length-append line (c ∷ []));
              bounded = ground (arith, f', length-append line (c ∷ []));
              idle = h.idle;
            },
            refl,
          )
    | inr f ↦
        let f' : ltb (length line) 255 ≡ false = ground (arith, f, h.count) in
        rw (e, f', input_char_full c b nl h.idle e f) (h, refl)
  ]
]

type_keys-Holds :
    (keys : List ℕ) (b : InputBuffer) (line : Text)
    → plain keys ≡ true
    → Holds b line
    → Holds (type_keys keys b) (edit_all keys line)
unfolding type_keys
type_keys-Holds [] b line p h = h
type_keys-Holds (c ∷ keys) b line p h =
    type_keys-Holds keys (input_char c b) (edit c line) (ground (arith, p))
      (input_char-Edited c b line (ground (arith, p)) (ground (arith, p)) h).0

-- Keys that come while a line is processed are dropped.
input_char_processing : (c : ℕ) (b : InputBuffer) → b.processing ≡ true → input_char c b ≡ b
unfolding input_char
input_char_processing c b e = simp (e, input_char)

type_keys_processing :
    (keys : List ℕ) (b : InputBuffer) → b.processing ≡ true → type_keys keys b ≡ b
unfolding type_keys
type_keys_processing [] b e = refl
type_keys_processing (c ∷ keys) b e =
    ap (type_keys keys) (input_char_processing c b e) ∙ type_keys_processing keys b e

input_char_newline :
    (b : InputBuffer) → b.processing ≡ false → input_char b'\n' b ≡ record b { ready = true }
unfolding input_char
input_char_newline b e = simp (e, input_char)

-- No line, and no processing.
pub record Blank (b : InputBuffer) : Type 0 where
  pub start : b.buffer 0 ≡ 0
  pub count : b.length ≡ 0
  pub idle : b.processing ≡ false

-- The line is handled, and the buffer is empty again and not ready.
abbrev pub Processed :
    Text → Option ErrorMessage → Outcome × InputBuffer × Option ErrorMessage → Type 0
Processed line last_error (done, b, last_error') =
    ((done, last_error') ≡ outcome_of line last_error) × Blank b × (b.ready ≡ false)

process_input-Processed :
    (during : List ℕ) (b : InputBuffer) (line : Text) (last_error : Option ErrorMessage)
    → Holds b line
    → Processed line last_error (process_input during (record b { ready = true }) last_error)
unfolding process_input begin_processing end_processing
process_input-Processed during b line last_error h =
    let read = text_from-Written input_buffer_size b.buffer 0 line h.written h.bounded in
    (
      ap (λ (s : Text). outcome_of s last_error) read,
      record { start = refl; count = refl; idle = refl },
      refl,
    )

-- From an empty buffer, keys without a NUL and a newline, and then the newline: `ProcessInput` handles
-- exactly the line that a line editor of 255 characters makes of the keys, whatever is typed while it
-- does so, and leaves an empty buffer that is not ready.
pub process_input-edit_all :
    (keys during : List ℕ) (b : InputBuffer) (last_error : Option ErrorMessage)
    → plain keys ≡ true
    → Blank b
    → Processed
        (edit_all keys [])
        last_error
        (process_input during (input_char b'\n' (type_keys keys b)) last_error)
process_input-edit_all keys during b last_error p h =
    let start : Holds b [] = record {
      written = h.start;
      count = h.count;
      bounded = omega arith;
      idle = h.idle;
    } in
    let typed = type_keys-Holds keys b [] p start in
    subst
      (λ (b' : InputBuffer).
        Processed (edit_all keys []) last_error (process_input during b' last_error))
      (sym (input_char_newline (type_keys keys b) typed.idle))
      (process_input-Processed during (type_keys keys b) (edit_all keys []) last_error typed)
