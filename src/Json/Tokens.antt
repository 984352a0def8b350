-- ===== src/Json/Tokens.antt =====
-- The reader on strings.
use sentinel_kv.Prelude.{
  ℕ, ◌≡◌, refl, ◌∙◌, Bool, true, false, not, ◌&&◌, ◌||◌, some, [], ◌∷◌, Text, nat_beq, ltb, arith,
}
use sentinel_kv.Json.{escape_char, escape, is_printable}
use sentinel_kv.Json.Reader.{mark_of, push, read_chars}

pub and-true : (a b : Bool) → (a && b) ≡ true → (a ≡ true) × (b ≡ true)
and-true a b h = ground arith

-- One escaped character is read as that character.
read_chars-escape_char :
    (c : ℕ) (s : Text)
    → (nat_beq c b'\n' || not (ltb c 32)) ≡ true
    → read_chars false (escape_char c s) ≡ push c (read_chars false s)
unfolding read_chars escape_char mark_of
read_chars-escape_char c s h = ground arith

-- A printable string between quotes comes back, with what follows it.
pub read_chars-escape :
    (s rest : Text)
    → is_printable s ≡ true
    → read_chars false (escape s (b'"' ∷ rest)) ≡ some (s, rest)
unfolding escape is_printable
read_chars-escape [] rest h = unfold read_chars mark_of in refl
read_chars-escape (c ∷ s) rest h =
    let (hc, hs) = and-true (nat_beq c b'\n' || not (ltb c 32)) _ h in
    read_chars-escape_char c (escape s (b'"' ∷ rest)) hc
    ∙ rw (read_chars-escape s rest hs) (unfold push in refl)
