-- ===== src/Json.antt =====
-- JSON documents as RFC 8259 describes them, as far as the program writes them: the reports of
-- skv-analyzer/src/main.rs are compared with these documents, and read back by the reader below.
pub mod Reader
pub mod Tokens
pub mod RoundTrip
use sentinel_kv.Prelude.{
  ℕ, suc, ◌+◌, Bool, true, false, ◌&&◌, ◌||◌, not, List, [], ◌∷◌, ◌++◌, Text, text, decimal,
  nat_beq, ltb, if◌then◌else◌,
}

mutual
  pub data Json : Type 0 where
    null : Json
    boolean : Bool → Json
    number : ℕ → Json
    string : Text → Json
    array : Items → Json
    object : Fields → Json

  pub data Items : Type 0 where
    nil : Items
    cons : Json → Items → Items

  pub data Fields : Type 0 where
    end : Fields
    field : Text → Json → Fields → Fields

-- A character inside a string: the quote, the backslash and the line feed are escaped.
unfoldable pub escape_char : ℕ → Text → Text
escape_char c rest =
    if nat_beq c b'\\'
    then b'\\' ∷ b'\\' ∷ rest
    else if nat_beq c b'"'
    then b'\\' ∷ b'"' ∷ rest
    else if nat_beq c b'\n'
    then b'\\' ∷ b'n' ∷ rest
    else c ∷ rest

unfoldable pub escape : Text → Text → Text
unfolding escape_char
escape [] rest = rest
escape (c ∷ s) rest = escape_char c (escape s rest)

unfoldable pub quoted : Text → Text → Text
quoted s rest = b'"' ∷ escape s (b'"' ∷ rest)

-- Each document is written in front of what follows it.
unfoldable mutual
  unfolding quoted text

  pub print : Json → Text → Text
  print null rest = text "null" ++ rest
  print (boolean true) rest = text "true" ++ rest
  print (boolean false) rest = text "false" ++ rest
  print (number n) rest = decimal n ++ rest
  print (string s) rest = quoted s rest
  print (array items) rest = b'[' ∷ print_items items rest
  print (object fields) rest = b'{' ∷ print_fields fields rest

  pub print_items : Items → Text → Text
  print_items nil rest = b']' ∷ rest
  print_items (cons v vs) rest = print v (print_more vs rest)

  pub print_more : Items → Text → Text
  print_more nil rest = b']' ∷ rest
  print_more (cons v vs) rest = b',' ∷ print v (print_more vs rest)

  pub print_fields : Fields → Text → Text
  print_fields end rest = b'}' ∷ rest
  print_fields (field k v fs) rest = quoted k (b':' ∷ print v (print_more_fields fs rest))

  pub print_more_fields : Fields → Text → Text
  print_more_fields end rest = b'}' ∷ rest
  print_more_fields (field k v fs) rest =
      b',' ∷ quoted k (b':' ∷ print v (print_more_fields fs rest))

-- A string may hold no control character but the line feed, for which there is an escape.
unfoldable pub is_printable : Text → Bool
is_printable [] = true
is_printable (c ∷ s) = (nat_beq c b'\n' || not (ltb c 32)) && is_printable s

-- all strings of a document are printable
unfoldable mutual
  unfolding is_printable

  pub is_writable : Json → Bool
  is_writable (string s) = is_printable s
  is_writable (array items) = is_writable_items items
  is_writable (object fields) = is_writable_fields fields
  is_writable null = true
  is_writable (boolean b) = true
  is_writable (number n) = true

  pub is_writable_items : Items → Bool
  is_writable_items nil = true
  is_writable_items (cons v vs) = is_writable v && is_writable_items vs

  pub is_writable_fields : Fields → Bool
  is_writable_fields end = true
  is_writable_fields (field k v fs) = is_printable k && (is_writable v && is_writable_fields fs)

-- the number of constructors, as much fuel as the reader needs
unfoldable mutual
  pub size : Json → ℕ
  size (array items) = suc (size_items items)
  size (object fields) = suc (size_fields fields)
  size null = 1
  size (boolean b) = 1
  size (number n) = 1
  size (string s) = 1

  pub size_items : Items → ℕ
  size_items nil = 1
  size_items (cons v vs) = suc (size v + size_items vs)

  pub size_fields : Fields → ℕ
  size_fields end = 1
  size_fields (field k v fs) = suc (size v + size_fields fs)
