-- ===== src/Mcl/Tokens.antt =====
-- kernel/mcl/mcl_parser.cpp, `Tokenize`. A text is the list of the bytes before the NUL; the fields of
-- 64 and 32 characters keep at most 63 and 31 of them.
use morphic_os_dev.Base.{
  ℕ, zero, suc, ◌+◌, Bool, true, false, ◌||◌, Option, none, some, List, [], ◌∷◌, ◌==◌,
  if◌then◌else◌, take, drop,
}
use morphic_os_dev.Runtime.{Text}

pub data TokenType : Type 0 where
  none_type : TokenType
  action_type : TokenType
  target_type : TokenType
  modifier_type : TokenType
  value_type : TokenType
  error_type : TokenType

pub record Token : Type 0 where
  pub type : TokenType
  pub text : Text
  pub key : Text
  pub value : Text

-- All bytes zero.
abbrev pub zero_token : Token
zero_token = record { type = none_type; text = []; key = []; value = [] }

abbrev pub max_tokens : ℕ
max_tokens = 8

abbrev pub max_token_len : ℕ
max_token_len = 64

abbrev pub is_blank : ℕ → Bool
is_blank c = c == b' ' || c == b'\t'

unfoldable pub skip_blanks : Text → Text
skip_blanks [] = []
skip_blanks (c ∷ p) = if is_blank c then skip_blanks p else c ∷ p

-- The word that begins at `p`, of at most `room` bytes, and what follows it.
unfoldable pub read_word : ℕ → Text → Text × Text
read_word zero p = ([], p)
read_word (suc room) [] = ([], [])
read_word (suc room) (c ∷ p) =
    let rest = read_word room p in if is_blank c then ([], c ∷ p) else (c ∷ rest.0, rest.1)

-- `colonPos`: where the first colon stands.
unfoldable pub colon_pos : Text → Option ℕ
colon_pos [] = none
colon_pos (c ∷ w) =
    let rest : Option ℕ = elim (colon_pos w) [ some i ↦ some (suc i) | none ↦ none ] in
    if c == b':' then some 0 else rest

-- The parts before and after the colon. Where the colon stands at 32 or later, `key[colonPos] = 0`
-- writes behind the key, into the value that is still all zero and is filled after that.
unfoldable pub make_token : Bool → Text → Token
unfolding colon_pos
make_token true w = record { type = action_type; text = w; key = []; value = [] }
make_token false w = elim (colon_pos w) [
  | none ↦ record { type = target_type; text = w; key = []; value = [] }
  | some i ↦ record {
    type = modifier_type;
    text = w;
    key = take 31 (take i w);
    value = take 31 (drop (i + 1) w);
  }
]

-- The number is that of the tokens that still fit; `is_first` is `tokenCount == 0`.
unfoldable pub tokenize_from : ℕ → Bool → Text → List Token
unfolding skip_blanks read_word make_token
tokenize_from zero is_first p = []
tokenize_from (suc n) is_first p =
    let q = skip_blanks p in
    let word = read_word 63 q in
    let rest = tokenize_from n false word.1 in
    elim q [ [] ↦ [] | c ∷ q' ↦ make_token is_first word.0 ∷ rest ]

unfoldable pub tokenize : Text → ℕ → List Token
unfolding tokenize_from
tokenize input max = tokenize_from max true input
