-- ===== src/Zig/Range.antt =====
-- The counter that the parser of skv-analyzer/src/zig/attestation_bridge.zig finds is an i64.
use sentinel_kv.Prelude.{
  ℕ, zero, suc, ◌-◌, ◌≡◌, refl, Bool, true, false, ◌||◌, Option, none, some, [], ◌∷◌, ◌++◌, Text,
  text, length, ltb, leb, nat_beq, if◌then◌else◌, ◌>>=◌, subst, arith,
}
use sentinel_kv.Prelude.Int.{ℤ}
use sentinel_kv.Files.{strip_prefix}
use sentinel_kv.Bridge.Numbers.{negate}
use sentinel_kv.Bridge.Parse.{Token, no_token}
use sentinel_kv.Bridge.Replay.{IsI64OrNone, unless_found-IsI64}
use sentinel_kv.Zig.Parse.{
  in_i64, int_with_sign, int_digits, parse_int, parse_i64, or_next, keep_nonce, read_line,
  read_lines, read_token, trim_line, starts_with_underscore, ends_with_underscore,
}

in_i64-IsI64 : (minus : Bool) (n : ℕ) → IsI64OrNone (in_i64 minus n)
unfolding in_i64 negate
in_i64-IsI64 true zero = ground arith
in_i64-IsI64 true (suc n) = ground arith
in_i64-IsI64 false n = ground arith

either-IsI64 :
    (b : Bool) (x y : Option ℤ) → IsI64OrNone x → IsI64OrNone y → IsI64OrNone (if b then x else y)
either-IsI64 true x y h k = h
either-IsI64 false x y h k = k

digits-IsI64 : (minus : Bool) (o : Option ℕ) → IsI64OrNone (o >>= in_i64 minus)
digits-IsI64 minus none = tt
digits-IsI64 minus (some n) = in_i64-IsI64 minus n

int_with_sign-IsI64 : (minus : Bool) (s : Text) → IsI64OrNone (int_with_sign minus s)
unfolding int_with_sign
int_with_sign-IsI64 minus [] = tt
int_with_sign-IsI64 minus (c ∷ s) =
    either-IsI64 (starts_with_underscore (c ∷ s) || ends_with_underscore (c ∷ s)) none
      (int_digits 0 (c ∷ s) >>= in_i64 minus) tt (digits-IsI64 minus (int_digits 0 (c ∷ s)))

parse_int-IsI64 : (s : Text) → IsI64OrNone (parse_int s)
unfolding parse_int
parse_int-IsI64 [] = tt
parse_int-IsI64 (c ∷ s) = either-IsI64 (nat_beq c b'+') _ _ (int_with_sign-IsI64 false s) (
    either-IsI64 (nat_beq c b'-') _ _ (int_with_sign-IsI64 true s)
      (int_with_sign-IsI64 false (c ∷ s)))

parse_i64-IsI64 : (line prefix : Text) → IsI64OrNone (parse_i64 line prefix)
unfolding parse_i64
parse_i64-IsI64 line prefix = go (strip_prefix prefix line)
  where
    go : (o : Option Text) → IsI64OrNone (o >>= λ v. parse_int v)
    go none = tt
    go (some v) = parse_int-IsI64 v

-- the counter of the token that the loop goes on with, if it does
pub data Counted : Option Token → Type 0 where
  given_up : Counted none
  keeps : {t : Token} → IsI64OrNone t.counter → Counted (some t)

pub counted : {t : Token} → Counted (some t) → IsI64OrNone t.counter
counted (keeps h) = h

or_next-Counted :
    {A : Type 0} (o : Option A) (found : A → Option Token) (next : Option Token)
    → ((a : A) → o ≡ some a → Counted (found a))
    → Counted next
    → Counted (or_next o found next)
unfolding or_next
or_next-Counted none found next h k = k
or_next-Counted (some a) found next h k = h a refl

keep_nonce-Counted : (t : Token) (v : Text) → IsI64OrNone t.counter → Counted (keep_nonce t v)
unfolding keep_nonce
keep_nonce-Counted t v h = go (ltb 256 (length v))
  where
    go : (b : Bool) → Counted (if b then none else some (record t { nonce = some v }))
    go true = given_up
    go false = keeps h

read_line-Counted : (t : Token) (line : Text) → IsI64OrNone t.counter → Counted (read_line t line)
unfolding read_line
read_line-Counted t line h =
    or_next-Counted _ _ _ (λ _ _. keeps h)
      (or_next-Counted _ _ _ (λ _ _. keeps h)
        (or_next-Counted _ _ _ (λ _ _. keeps h)
          (or_next-Counted _ _ _ (λ v _. keep_nonce-Counted t v h)
            (or_next-Counted _ _ _
              (λ c e. keeps (
                subst IsI64OrNone e
                  (unless_found-IsI64 t.counter _ (parse_i64-IsI64 line (text "counter:")))))
              (or_next-Counted _ _ _ (λ _ _. keeps h) (keeps h))))))

read_lines-Counted :
    (t : Token) (room : ℕ) (line s : Text)
    → IsI64OrNone t.counter
    → Counted (read_lines t room line s)
unfolding read_lines
read_lines-Counted t room line [] h = at_end (nat_beq (length line) 0)
  where
    at_end : (b : Bool) → Counted (if b then some t else read_line t (trim_line line))
    at_end true = keeps h
    at_end false = read_line-Counted t (trim_line line) h
read_lines-Counted t room line (c ∷ s) h =
    go (nat_beq c b'\n') (leb room 1) (λ u k. read_lines-Counted u 512 [] s k)
      (read_lines-Counted t (room - 1) (line ++ c ∷ []) s h)
  where
    on :
        (o : Option Token)
        → ((u : Token) → IsI64OrNone u.counter → Counted (read_lines u 512 [] s))
        → Counted o
        → Counted (o >>= λ u. read_lines u 512 [] s)
    on none next k = given_up
    on (some u) next k = next u (counted k)

    go :
        (feed full : Bool)
        → ((u : Token) → IsI64OrNone u.counter → Counted (read_lines u 512 [] s))
        → Counted (read_lines t (room - 1) (line ++ c ∷ []) s)
        → Counted (elim feed [
          | true ↦ read_line t (trim_line line) >>= λ u. read_lines u 512 [] s
          | false ↦ elim full [ true ↦ none | false ↦ read_lines t (room - 1) (line ++ c ∷ []) s ]
        ])
    go true full next more = on _ next (read_line-Counted t (trim_line line) h)
    go false true next more = given_up
    go false false next more = more

pub read_token-Counted : (content : Text) → Counted (read_token content)
unfolding read_token no_token
read_token-Counted content = read_lines-Counted no_token 512 [] content tt
