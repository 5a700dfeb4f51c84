-- ===== src/Mcl/Words.antt =====
-- Which words `Tokenize` finds.
use morphic_os_dev.Base.{
  ℕ, zero, suc, ◌≡◌, ◌≤◌, refl, ap, ◌∙◌, Bool, true, false, not, ◌&&◌, ◌||◌, List, [], ◌∷◌, ◌++◌,
  leb, length, take, arith,
}
use morphic_os_dev.Runtime.{Text}
use morphic_os_dev.Mcl.Tokens.{
  Token, is_blank, skip_blanks, read_word, make_token, tokenize_from, tokenize,
}

abbrev pub all_blank : Text → Bool
all_blank [] = true
all_blank (c ∷ s) = is_blank c && all_blank s

abbrev pub no_blank : Text → Bool
no_blank [] = true
no_blank (c ∷ s) = not (is_blank c) && no_blank s

abbrev pub is_empty : Text → Bool
is_empty [] = true
is_empty (c ∷ s) = false

-- A word of 1 to 63 bytes.
abbrev pub is_word : Text → Bool
is_word w = not (is_empty w) && no_blank w && leb (length w) 63

-- A line of words, each with the blanks before it, and the blanks at the end.
abbrev pub spaced : List (Text × Text) → Text → Text
spaced [] tail = tail
spaced ((gap, w) ∷ rest) tail = gap ++ (w ++ spaced rest tail)

-- Only the first gap may be empty.
abbrev pub well_spaced : Bool → List (Text × Text) → Text → Bool
well_spaced is_first [] tail = all_blank tail
well_spaced is_first ((gap, w) ∷ rest) tail =
    all_blank gap && (is_first || not (is_empty gap)) && is_word w && well_spaced false rest tail

abbrev pub words_of : List (Text × Text) → List Text
words_of [] = []
words_of ((gap, w) ∷ rest) = w ∷ words_of rest

-- The tokens for these words.
abbrev pub tokens_of : Bool → List Text → List Token
tokens_of is_first [] = []
tokens_of is_first (w ∷ ws) = make_token is_first w ∷ tokens_of false ws

skip_blanks-append : (gap p : Text) → all_blank gap ≡ true → skip_blanks (gap ++ p) ≡ skip_blanks p
unfolding skip_blanks
skip_blanks-append [] p e = refl
skip_blanks-append (c ∷ gap) p e = ground (arith, e, skip_blanks-append gap p)

skip_blanks-all_blank : (tail : Text) → all_blank tail ≡ true → skip_blanks tail ≡ []
unfolding skip_blanks
skip_blanks-all_blank [] e = refl
skip_blanks-all_blank (c ∷ tail) e = ground (arith, e, skip_blanks-all_blank tail)

skip_blanks-word :
    (w p : Text) → is_empty w ≡ false → no_blank w ≡ true → skip_blanks (w ++ p) ≡ w ++ p
unfolding skip_blanks
skip_blanks-word [] p e f = absurd (ground (arith, e))
skip_blanks-word (c ∷ w) p e f = ground (arith, f)

-- Nothing follows, or a blank.
abbrev ends_word : Text → Bool
ends_word [] = true
ends_word (c ∷ p) = is_blank c

read_word-append :
    (room : ℕ) (w p : Text)
    → no_blank w ≡ true
    → length w ≤ room
    → ends_word p ≡ true
    → read_word room (w ++ p) ≡ (w, p)
unfolding read_word
read_word-append zero [] p f le e = refl
read_word-append zero (c ∷ w) p f le e = absurd (omega (arith, le))
read_word-append (suc room) [] [] f le e = refl
read_word-append (suc room) [] (c ∷ p) f le e = ground (arith, e)
read_word-append (suc room) (c ∷ w) p f le e =
    let g : is_blank c ≡ false = ground (arith, f) in
    let rest = read_word-append room w p (ground (arith, f)) (omega (arith, le)) e in
    rw (g, rest) refl

well_spaced-ends_word :
    (gws : List (Text × Text)) (tail : Text)
    → well_spaced false gws tail ≡ true
    → ends_word (spaced gws tail) ≡ true
well_spaced-ends_word [] [] e = refl
well_spaced-ends_word [] (c ∷ tail) e = ground (arith, e)
well_spaced-ends_word (([], w) ∷ gws) tail e = absurd (ground (arith, e))
well_spaced-ends_word ((c ∷ gap, w) ∷ gws) tail e = ground (arith, e)

-- The first word and what follows it.
tokenize_from_word :
    (n : ℕ) (is_first : Bool) (gap w p : Text)
    → all_blank gap ≡ true
    → is_word w ≡ true
    → ends_word p ≡ true
    → tokenize_from (suc n) is_first (gap ++ (w ++ p))
      ≡ make_token is_first w ∷ tokenize_from n false p
unfolding tokenize_from
tokenize_from_word n is_first gap [] p b w e = absurd (ground (arith, w))
tokenize_from_word n is_first gap (c ∷ w) p b f e =
    let skipped =
      skip_blanks-append gap ((c ∷ w) ++ p) b
      ∙ skip_blanks-word (c ∷ w) p refl (ground (arith, f)) in
    let word = read_word-append 63 (c ∷ w) p (ground (arith, f)) (ground (arith, f)) e in
    rw (skipped, tokenize_from) (rw (skipped, word, tokenize_from) refl)

tokenize_from-spaced :
    (n : ℕ) (is_first : Bool) (gws : List (Text × Text)) (tail : Text)
    → well_spaced is_first gws tail ≡ true
    → tokenize_from n is_first (spaced gws tail) ≡ tokens_of is_first (take n (words_of gws))
unfolding tokenize_from
tokenize_from-spaced zero is_first gws tail e = refl
tokenize_from-spaced (suc n) is_first [] tail e =
    rw (skip_blanks-all_blank tail e, tokenize_from) refl
tokenize_from-spaced (suc n) is_first ((gap, w) ∷ gws) tail e =
    let rest : well_spaced false gws tail ≡ true = ground (arith, e) in
    tokenize_from_word n is_first gap w (spaced gws tail) (ground (arith, e)) (ground (arith, e))
      (well_spaced-ends_word gws tail rest)
    ∙ ap (λ (ts : List Token). make_token is_first w ∷ ts)
        (tokenize_from-spaced n false gws tail rest)

-- Words of at most 63 bytes with blanks or tabs between them, and any number of these in front and at
-- the end, are the texts of the tokens, in order, as many as the caller has room for.
pub tokenize-spaced :
    (gws : List (Text × Text)) (tail : Text) (max : ℕ)
    → well_spaced true gws tail ≡ true
    → tokenize (spaced gws tail) max ≡ tokens_of true (take max (words_of gws))
unfolding tokenize
tokenize-spaced gws tail max e = tokenize_from-spaced max true gws tail e
