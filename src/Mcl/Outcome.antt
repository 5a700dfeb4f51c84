-- ===== src/Mcl/Outcome.antt =====
-- What `Parse` makes of a line of words.
use mathlib.Core.Path.{subst}
use morphic_os_dev.Base.{
  ℕ, zero, suc, ◌≡◌, ◌≢◌, ◌⊎◌, inl, inr, refl, ap, ◌∙◌, Bool, true, false, not, ◌&&◌, Option, none,
  some, List, [], ◌∷◌, ◌==◌, take, ltb, length, get_elem?, arith, Bool-cases, Option-cases,
  none-ne-some, some-eq,
}
use morphic_os_dev.Runtime.{Text, same_text}
use morphic_os_dev.Runtime.Strings.{NoNul, same_text-equal, same_text-differ}
use morphic_os_dev.Mcl.Tokens.{
  Token, TokenType, none_type, action_type, target_type, modifier_type, value_type, error_type,
  make_token, max_tokens, tokenize,
}
use morphic_os_dev.Mcl.Command.{
  Category, unknown, storage, hardware, system, ErrorMessage, unknown_action, Command, Verb, verbs,
  find_verb, add_modifier, extra_target, is_none, place_as, place_all, parse, parse_tokens,
  zero_command, execute, handler,
}
use morphic_os_dev.Mcl.Words.{spaced, well_spaced, is_empty, words_of, tokens_of, tokenize-spaced}

abbrev pub names : List Verb → List Text
names [] = []
names (v ∷ vs) = v.name ∷ names vs

abbrev without_nul : Text → Bool
without_nul [] = true
without_nul (c ∷ s) = not (c == 0) && without_nul s

without_nul-NoNul : (s : Text) → without_nul s ≡ true → NoNul s
without_nul-NoNul [] e = tt
without_nul-NoNul (c ∷ s) e = (ground (arith, e), without_nul-NoNul s (ground (arith, e)))

abbrev is_known : Category → Bool
is_known unknown = false
is_known _ = true

-- The verbs have C strings as names, and known categories.
abbrev proper : List Verb → Bool
proper [] = true
proper (v ∷ vs) = without_nul v.name && is_known v.category && proper vs

-- A verb of that name is found, or there is none.
abbrev Search : List Verb → Text → Option Verb → Type 0
Search vs w none = (i : ℕ) → get_elem? (names vs) i ≢ some w
Search vs w (some v) =
    ((i : ℕ) × (get_elem? vs i ≡ some v)) × (v.name ≡ w) × (is_known v.category ≡ true)

Search-behind :
    (v : Verb) (vs : List Verb) (w : Text) (o : Option Verb)
    → v.name ≢ w
    → Search vs w o
    → Search (v ∷ vs) w o
Search-behind v vs w none ne s = λ i h. later i h
  where
    later : (i : ℕ) → get_elem? (names (v ∷ vs)) i ≡ some w → ⊥
    later zero h = ne (some-eq h)
    later (suc i) h = s i h
Search-behind v vs w (some v') ne ((i, at), n, k) = ((suc i, at), n, k)

find_verb-Search :
    (vs : List Verb) (w : Text) → proper vs ≡ true → NoNul w → Search vs w (find_verb vs w)
unfolding find_verb
find_verb-Search [] w e q = λ i h. none-ne-some h
find_verb-Search (v ∷ vs) w e q = elim (Bool-cases (same_text v.name w)) [
  | inl s ↦ rw s (
    (0, refl),
    same_text-equal v.name w (without_nul-NoNul v.name (ground (arith, e))) q s,
    ground (arith, e),
  )
  | inr s ↦ rw s (
      Search-behind v vs w (find_verb vs w)
        (same_text-differ v.name w (without_nul-NoNul v.name (ground (arith, e))) q s)
        (find_verb-Search vs w (ground (arith, e)) q))
]

-- What placing a token leaves alone.
abbrev kept : Command → Category × Token × Option ErrorMessage
kept c = (c.category, c.action, c.error_message)

add_modifier-kept : (t : Token) (c : Command) → kept (add_modifier t c) ≡ kept c
unfolding add_modifier
add_modifier-kept t c = elim (Bool-cases (ltb (length c.modifiers) 4)) [
  | inl e ↦ rw e refl
  | inr e ↦ rw e refl
]

place_as-kept : (type : TokenType) (t : Token) (c : Command) → kept (place_as type t c) ≡ kept c
unfolding place_as
place_as-kept target_type t c = elim (Bool-cases (is_none c.target.type)) [
  | inl e ↦ rw e refl
  | inr e ↦ rw e (add_modifier-kept (extra_target t) c)
]
place_as-kept modifier_type t c = add_modifier-kept t c
place_as-kept none_type t c = refl
place_as-kept action_type t c = refl
place_as-kept value_type t c = refl
place_as-kept error_type t c = refl

place_all-kept : (ts : List Token) (c : Command) → kept (place_all ts c) ≡ kept c
unfolding place_all
place_all-kept [] c = refl
place_all-kept (t ∷ ts) c = place_all-kept ts (place_as t.type t c) ∙ place_as-kept t.type t c

-- Accepted as this verb, or refused.
abbrev pub Accepted : Text → Option ErrorMessage → Verb → Command × Option ErrorMessage → Type 0
Accepted w last_error v (c, last_error') =
    (c.valid ≡ true)
    × (c.error_message ≡ none)
    × (c.action.text ≡ w)
    × (execute c ≡ some v.category)
    × (last_error' ≡ last_error)

abbrev pub Refused : ErrorMessage → Command × Option ErrorMessage → Type 0
Refused e (c, last_error') =
    (c.valid ≡ false) × (c.error_message ≡ some e) × (execute c ≡ none) × (last_error' ≡ some e)

-- Accepted as a verb of that name, or refused where there is none.
abbrev pub Judged : Text → Option ErrorMessage → Command × Option ErrorMessage → Type 0
Judged w last_error r =
    ((v : Verb) × ((i : ℕ) × (get_elem? verbs i ≡ some v))
      × (v.name ≡ w)
      × Accepted w last_error v r)
    ⊎ (((i : ℕ) → get_elem? (names verbs) i ≢ some w) × Refused unknown_action r)

known-handler : (c : Category) → is_known c ≡ true → handler c ≡ some c
known-handler unknown e = absurd (ground (arith, e))
known-handler storage e = refl
known-handler hardware e = refl
known-handler system e = refl

parse_tokens-Judged :
    (t : Token) (ts : List Token) (last_error : Option ErrorMessage)
    → NoNul t.text
    → Judged t.text last_error (parse_tokens (t ∷ ts) last_error)
unfolding parse_tokens execute
parse_tokens-Judged t ts last_error q =
    let search = find_verb-Search verbs t.text refl q in
    elim (Option-cases (find_verb verbs t.text)) [
      | inl e ↦
          rw (e, parse_tokens)
            (inr (subst (Search verbs t.text) e search, (refl, refl, refl, refl)))
      | inr (v, e) ↦
          let (at, n, k) = subst (Search verbs t.text) e search in
          let start = record zero_command { action = t; category = v.category } in
          let left = place_all-kept ts start in
          rw (e, parse_tokens)
            (inl (
              v,
              at,
              n,
              (
                refl,
                ap (λ (x : Category × Token × Option ErrorMessage). x.2) left,
                ap (λ (x : Category × Token × Option ErrorMessage). x.1.text) left,
                ap (λ (x : Category × Token × Option ErrorMessage). handler x.0) left
                    ∙ known-handler v.category k,
                refl,
              ),
            ))
    ]

parse_nonempty :
    (p : Text) (last_error : Option ErrorMessage)
    → is_empty p ≡ false
    → parse (some p) last_error ≡ parse_tokens (tokenize p max_tokens) last_error
unfolding parse
parse_nonempty [] last_error e = absurd (ground (arith, e))
parse_nonempty (c ∷ p) last_error e = refl

spaced-is_empty :
    (gap w : Text) (gws : List (Text × Text)) (tail : Text)
    → is_empty w ≡ false
    → is_empty (spaced ((gap, w) ∷ gws) tail) ≡ false
spaced-is_empty (c ∷ gap) w gws tail e = refl
spaced-is_empty [] (c ∷ w) gws tail e = refl
spaced-is_empty [] [] gws tail e = absurd (ground (arith, e))

-- A line whose first word is the name of a verb is a valid command, and `Execute` goes to the
-- handlers of that verb's category; with any other first word the line is refused as an unknown
-- action, and nothing is executed.
pub parse-spaced :
    (gap w : Text) (gws : List (Text × Text)) (tail : Text) (last_error : Option ErrorMessage)
    → well_spaced true ((gap, w) ∷ gws) tail ≡ true
    → NoNul w
    → Judged w last_error (parse (some (spaced ((gap, w) ∷ gws) tail)) last_error)
unfolding make_token
parse-spaced gap w gws tail last_error e q =
    let found = tokenize-spaced ((gap, w) ∷ gws) tail max_tokens e in
    let filled = spaced-is_empty gap w gws tail (ground (arith, e)) in
    rw (parse_nonempty (spaced ((gap, w) ∷ gws) tail) last_error filled, found)
      (parse_tokens-Judged (make_token true w) (tokens_of false (take 7 (words_of gws))) last_error
        q)
