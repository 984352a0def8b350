-- ===== src/Json/RoundTrip.antt =====
-- The reader takes back what is printed.
use sentinel_kv.Prelude.{ends, read_digits-decimal, starts_with_digit, decimal-digit, is_digit}
use sentinel_kv.Prelude.{
  ℕ, zero, suc, ◌≤◌, ◌≡◌, refl, ◌∙◌, Bool, true, false, not, some, [], ◌∷◌, ◌++◌, Text, text,
  decimal, nat_beq, arith,
}
use sentinel_kv.Json.{
  Json, null, boolean, number, string, array, object, Items, nil, cons, Fields, end, field, quoted,
  print, print_items, print_more, print_fields, print_more_fields, is_printable, is_writable,
  is_writable_items, is_writable_fields, size, size_items, size_fields,
}
use sentinel_kv.Json.Tokens.{and-true, read_chars-escape}
use sentinel_kv.Json.Reader.{
  expect, start, word, read_string, read_number, read, read_items, read_more, read_fields,
  read_more_fields,
}

-- a text that starts with a digit is read as a number
read-digits : (f : ℕ) (s : Text) → starts_with_digit s ≡ true → read (suc f) s ≡ read_number s
unfolding read start is_digit
read-digits f [] h = cc
read-digits f (c ∷ s) h = ground arith

-- no document starts with a closing bracket
abbrev opens : Text → Bool
opens [] = false
opens (c ∷ s) = not (nat_beq c b']')

opens-digit : (s : Text) → starts_with_digit s ≡ true → opens s ≡ true
unfolding is_digit
opens-digit [] h = h
opens-digit (c ∷ s) h = ground arith

opens-print : (j : Json) (rest : Text) → opens (print j rest) ≡ true
unfolding print text quoted
opens-print null rest = refl
opens-print (boolean true) rest = refl
opens-print (boolean false) rest = refl
opens-print (number n) rest = opens-digit _ (decimal-digit n rest)
opens-print (string s) rest = refl
opens-print (array items) rest = refl
opens-print (object fields) rest = refl

read_items_cons :
    (f : ℕ) (s k rest : Text) (v : Json) (vs : Items)
    → opens s ≡ true
    → read f s ≡ some (v, k)
    → read_more f k ≡ some (vs, rest)
    → read_items (suc f) s ≡ some (cons v vs, rest)
unfolding read_items
read_items_cons f [] k rest v vs o h h' = cc
read_items_cons f (c ∷ s) k rest v vs o h h' = ground arith

ends-more : (items : Items) (rest : Text) → ends (print_more items rest) ≡ true
unfolding print_more ends is_digit
ends-more nil rest = refl
ends-more (cons v vs) rest = refl

ends-more_fields : (fields : Fields) (rest : Text) → ends (print_more_fields fields rest) ≡ true
unfolding print_more_fields ends is_digit
ends-more_fields end rest = refl
ends-more_fields (field k v fs) rest = refl

-- The reader, on one level, given what it does on the level below.
read-array :
    (f : ℕ) (s k : Text) (items : Items)
    → read_items f s ≡ some (items, k)
    → read (suc f) (b'[' ∷ s) ≡ some (array items, k)
unfolding read start is_digit
read-array f s k items h = rw h refl

read-object :
    (f : ℕ) (s k : Text) (fields : Fields)
    → read_fields f s ≡ some (fields, k)
    → read (suc f) (b'{' ∷ s) ≡ some (object fields, k)
unfolding read start is_digit
read-object f s k fields h = rw h refl

read-string :
    (f : ℕ) (s rest : Text)
    → is_printable s ≡ true
    → read (suc f) (quoted s rest) ≡ some (string s, rest)
unfolding read start quoted read_string
read-string f s rest h = rw (read_chars-escape s rest h) refl

read-number :
    (f n : ℕ) (rest : Text)
    → ends rest ≡ true
    → read (suc f) (decimal n ++ rest) ≡ some (number n, rest)
read-number f n rest h =
    read-digits f _ (decimal-digit n rest)
    ∙ (unfold read_number in rw (read_digits-decimal n rest h) refl)

read_more_cons :
    (f : ℕ) (s k rest : Text) (v : Json) (vs : Items)
    → read f s ≡ some (v, k)
    → read_more f k ≡ some (vs, rest)
    → read_more (suc f) (b',' ∷ s) ≡ some (cons v vs, rest)
unfolding read_more expect
read_more_cons f s k rest v vs h h' = rw h (rw h' refl)

read_fields_field :
    (f : ℕ) (name s k rest : Text) (v : Json) (fs : Fields)
    → is_printable name ≡ true
    → read f s ≡ some (v, k)
    → read_more_fields f k ≡ some (fs, rest)
    → read_fields (suc f) (quoted name (b':' ∷ s)) ≡ some (field name v fs, rest)
unfolding read_fields expect quoted
read_fields_field f name s k rest v fs hn h h' =
    rw (read_chars-escape name (b':' ∷ s) hn) (rw h (rw h' refl))

read_more_fields_field :
    (f : ℕ) (name s k rest : Text) (v : Json) (fs : Fields)
    → is_printable name ≡ true
    → read f s ≡ some (v, k)
    → read_more_fields f k ≡ some (fs, rest)
    → read_more_fields (suc f) (b',' ∷ quoted name (b':' ∷ s)) ≡ some (field name v fs, rest)
unfolding read_more_fields expect quoted
read_more_fields_field f name s k rest v fs hn h h' =
    rw (read_chars-escape name (b':' ∷ s) hn) (rw h (rw h' refl))

no_fuel : (j : Json) → ¬ (size j ≤ 0)
unfolding size
no_fuel null h = omega arith
no_fuel (boolean b) h = omega arith
no_fuel (number n) h = omega arith
no_fuel (string s) h = omega arith
no_fuel (array items) h = omega arith
no_fuel (object fields) h = omega arith

no_fuel_fields : (fs : Fields) → ¬ (size_fields fs ≤ 0)
unfolding size
no_fuel_fields end h = omega arith
no_fuel_fields (field k v fs) h = omega arith

read-null : (f : ℕ) (rest : Text) → read (suc f) (text "null" ++ rest) ≡ some (null, rest)
unfolding read start is_digit word expect text
read-null f rest = refl

read-true : (f : ℕ) (rest : Text) → read (suc f) (text "true" ++ rest) ≡ some (boolean true, rest)
unfolding read start is_digit word expect text
read-true f rest = refl

read-false :
    (f : ℕ) (rest : Text) → read (suc f) (text "false" ++ rest) ≡ some (boolean false, rest)
unfolding read start is_digit word expect text
read-false f rest = refl

read_items_nil : (f : ℕ) (rest : Text) → read_items (suc f) (b']' ∷ rest) ≡ some (nil, rest)
unfolding read_items
read_items_nil f rest = refl

read_more_nil : (f : ℕ) (rest : Text) → read_more (suc f) (b']' ∷ rest) ≡ some (nil, rest)
unfolding read_more
read_more_nil f rest = refl

read_fields_end : (f : ℕ) (rest : Text) → read_fields (suc f) (b'}' ∷ rest) ≡ some (end, rest)
unfolding read_fields
read_fields_end f rest = refl

read_more_fields_end :
    (f : ℕ) (rest : Text) → read_more_fields (suc f) (b'}' ∷ rest) ≡ some (end, rest)
unfolding read_more_fields
read_more_fields_end f rest = refl

mutual
  unfolding print size is_writable

  read_print :
      (j : Json) (f : ℕ) (rest : Text)
      → size j ≤ f
      → is_writable j ≡ true
      → ends rest ≡ true
      → read f (print j rest) ≡ some (j, rest)
  read_print j zero rest le w e = absurd (no_fuel j le)
  read_print null (suc f) rest le w e = read-null f rest
  read_print (boolean true) (suc f) rest le w e = read-true f rest
  read_print (boolean false) (suc f) rest le w e = read-false f rest
  read_print (number n) (suc f) rest le w e = read-number f n rest e
  read_print (string s) (suc f) rest le w e = read-string f s rest w
  read_print (array items) (suc f) rest le w e =
      read-array f _ rest items (read_print_items items f rest (omega arith) w)
  read_print (object fields) (suc f) rest le w e =
      read-object f _ rest fields (read_print_fields fields f rest (omega arith) w)

  read_print_items :
      (items : Items) (f : ℕ) (rest : Text)
      → size_items items ≤ f
      → is_writable_items items ≡ true
      → read_items f (print_items items rest) ≡ some (items, rest)
  read_print_items nil zero rest le w = absurd (omega arith)
  read_print_items nil (suc f) rest le w = read_items_nil f rest
  read_print_items (cons v vs) zero rest le w = absurd (omega arith)
  read_print_items (cons v vs) (suc f) rest le w =
      let (wv, ws) = and-true (is_writable v) _ w in
      read_items_cons f _ _ rest v vs (opens-print v _)
        (read_print v f (print_more vs rest) (omega arith) wv (ends-more vs rest))
        (read_print_more vs f rest (omega arith) ws)

  read_print_more :
      (items : Items) (f : ℕ) (rest : Text)
      → size_items items ≤ f
      → is_writable_items items ≡ true
      → read_more f (print_more items rest) ≡ some (items, rest)
  read_print_more nil zero rest le w = absurd (omega arith)
  read_print_more nil (suc f) rest le w = read_more_nil f rest
  read_print_more (cons v vs) zero rest le w = absurd (omega arith)
  read_print_more (cons v vs) (suc f) rest le w =
      let (wv, ws) = and-true (is_writable v) _ w in
      read_more_cons f _ _ rest v vs
        (read_print v f (print_more vs rest) (omega arith) wv (ends-more vs rest))
        (read_print_more vs f rest (omega arith) ws)

  read_print_fields :
      (fields : Fields) (f : ℕ) (rest : Text)
      → size_fields fields ≤ f
      → is_writable_fields fields ≡ true
      → read_fields f (print_fields fields rest) ≡ some (fields, rest)
  read_print_fields fs zero rest le w = absurd (no_fuel_fields fs le)
  read_print_fields end (suc f) rest le w = read_fields_end f rest
  read_print_fields (field k v fs) (suc f) rest le w =
      let (wk, w') = and-true (is_printable k) _ w in
      let (wv, ws) = and-true (is_writable v) _ w' in
      read_fields_field f k _ _ rest v fs wk
        (read_print v f (print_more_fields fs rest) (omega arith) wv (ends-more_fields fs rest))
        (read_print_more_fields fs f rest (omega arith) ws)

  read_print_more_fields :
      (fields : Fields) (f : ℕ) (rest : Text)
      → size_fields fields ≤ f
      → is_writable_fields fields ≡ true
      → read_more_fields f (print_more_fields fields rest) ≡ some (fields, rest)
  read_print_more_fields fs zero rest le w = absurd (no_fuel_fields fs le)
  read_print_more_fields end (suc f) rest le w = read_more_fields_end f rest
  read_print_more_fields (field k v fs) (suc f) rest le w =
      let (wk, w') = and-true (is_printable k) _ w in
      let (wv, ws) = and-true (is_writable v) _ w' in
      read_more_fields_field f k _ _ rest v fs wk
        (read_print v f (print_more_fields fs rest) (omega arith) wv (ends-more_fields fs rest))
        (read_print_more_fields fs f rest (omega arith) ws)

-- A document all of whose strings are printable is read back, with what follows it, by as much fuel
-- as it has parts.
pub read-print :
    (j : Json) (f : ℕ) (rest : Text)
    → size j ≤ f
    → is_writable j ≡ true
    → ends rest ≡ true
    → read f (print j rest) ≡ some (j, rest)
read-print j f rest le w e = read_print j f rest le w e
