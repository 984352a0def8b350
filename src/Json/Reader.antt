-- ===== src/Json/Reader.antt =====
-- A reader of JSON documents without white space between the tokens.
use sentinel_kv.Prelude.{
  ℕ, zero, suc, Bool, true, false, Option, none, some, [], ◌∷◌, Text, text, nat_beq, ltb, is_digit,
  read_digits, if◌then◌else◌, ◌>>=◌,
}
use sentinel_kv.Json.{
  Json, null, boolean, number, string, array, object, Items, nil, cons, Fields, end, field,
}

-- what one character of a string means; the flag tells whether a backslash stands before it
pub data Mark : Type 0 where
  close skip reject : Mark
  emit : ℕ → Mark

unfoldable pub mark_of : Bool → ℕ → Mark
mark_of true c =
    if nat_beq c b'\\'
    then emit b'\\'
    else if nat_beq c b'"'
    then emit b'"'
    else if nat_beq c b'n'
    then emit b'\n'
    else reject
mark_of false c =
    if nat_beq c b'"'
    then close
    else if nat_beq c b'\\'
    then skip
    else if ltb c 32
    then reject
    else emit c

unfoldable pub push : ℕ → Option (Text × Text) → Option (Text × Text)
push c none = none
push c (some (s, rest)) = some (c ∷ s, rest)

-- the characters of a string up to the closing quote, and what follows it
unfoldable pub read_chars : Bool → Text → Option (Text × Text)
unfolding mark_of push
read_chars escaped [] = none
read_chars escaped (c ∷ s) = elim (mark_of escaped c) [
  | close ↦ some ([], s)
  | skip ↦ read_chars true s
  | reject ↦ none
  | emit d ↦ push d (read_chars false s)
]

-- the rest behind a word
unfoldable pub expect : Text → Text → Option Text
expect [] s = some s
expect (c ∷ word) [] = none
expect (c ∷ word) (d ∷ s) = if nat_beq c d then expect word s else none

pub data Start : Type 0 where
  quote bracket brace digit letter_n letter_t letter_f none_of_these : Start

unfoldable pub start : ℕ → Start
unfolding is_digit
start c =
    if nat_beq c b'"'
    then quote
    else if nat_beq c b'['
    then bracket
    else if nat_beq c b'{'
    then brace
    else if is_digit c
    then digit
    else if nat_beq c b'n'
    then letter_n
    else if nat_beq c b't'
    then letter_t
    else if nat_beq c b'f'
    then letter_f
    else none_of_these

unfoldable pub word : Text → Json → Text → Option (Json × Text)
unfolding expect
word w v s = do rest ← expect w s; some (v, rest)

unfoldable pub read_string : Text → Option (Json × Text)
unfolding read_chars
read_string s = do r ← read_chars false s; some (string r.0, r.1)

unfoldable pub read_number : Text → Option (Json × Text)
unfolding read_digits
read_number s = let (n, rest) = read_digits 0 s in some (number n, rest)

-- what follows an element: the end, or a comma
unfoldable mutual
  unfolding start word read_string read_number text

  pub read : ℕ → Text → Option (Json × Text)
  read zero s = none
  read (suc f) [] = none
  read (suc f) (c ∷ s) = elim (start c) [
    | quote ↦ read_string s
    | bracket ↦ (do r ← read_items f s; some (array r.0, r.1))
    | brace ↦ (do r ← read_fields f s; some (object r.0, r.1))
    | digit ↦ read_number (c ∷ s)
    | letter_n ↦ word (text "null") null (c ∷ s)
    | letter_t ↦ word (text "true") (boolean true) (c ∷ s)
    | letter_f ↦ word (text "false") (boolean false) (c ∷ s)
    | none_of_these ↦ none
  ]

  pub read_items : ℕ → Text → Option (Items × Text)
  read_items zero s = none
  read_items (suc f) [] = none
  read_items (suc f) (c ∷ s) = elim (nat_beq c b']') [
    | true ↦ some (nil, s)
    | false ↦ (do v ← read f (c ∷ s); r ← read_more f v.1; some (cons v.0 r.0, r.1))
  ]

  pub read_more : ℕ → Text → Option (Items × Text)
  read_more zero s = none
  read_more (suc f) [] = none
  read_more (suc f) (c ∷ s) = elim (nat_beq c b']') [
    | true ↦ some (nil, s)
    | false ↦ (do
      s' ← expect (b',' ∷ []) (c ∷ s)
      v ← read f s'
      r ← read_more f v.1
      some (cons v.0 r.0, r.1))
  ]

  pub read_fields : ℕ → Text → Option (Fields × Text)
  read_fields zero s = none
  read_fields (suc f) [] = none
  read_fields (suc f) (c ∷ s) = elim (nat_beq c b'}') [
    | true ↦ some (end, s)
    | false ↦ (do
      k' ← expect (b'"' ∷ []) (c ∷ s)
      k ← read_chars false k'
      s' ← expect (b':' ∷ []) k.1
      v ← read f s'
      r ← read_more_fields f v.1
      some (field k.0 v.0 r.0, r.1))
  ]

  pub read_more_fields : ℕ → Text → Option (Fields × Text)
  read_more_fields zero s = none
  read_more_fields (suc f) [] = none
  read_more_fields (suc f) (c ∷ s) = elim (nat_beq c b'}') [
    | true ↦ some (end, s)
    | false ↦ (do
      k' ← expect (b',' ∷ b'"' ∷ []) (c ∷ s)
      k ← read_chars false k'
      s' ← expect (b':' ∷ []) k.1
      v ← read f s'
      r ← read_more_fields f v.1
      some (field k.0 v.0 r.0, r.1))
  ]
