-- ===== src/Zig/Parity.antt =====
-- The parsers of skv-analyzer/src/c/attestation_bridge.c and of
-- skv-analyzer/src/zig/attestation_bridge.zig on the lines of one token.
use sentinel_kv.Prelude.{
  ℕ, ◌-◌, ◌<◌, ◌≡◌, refl, sym, ap, ◌∙◌, Bool, false, Option, none, some, List, [], ◌∷◌, ◌++◌, All,
  Text, text, length, ltb, leb, nat_beq, ◌>>=◌, arith,
}
use mathlib.Core.List.{append-nil, append_assoc}
use sentinel_kv.Prelude.Int.{ℤ}
use sentinel_kv.Bridge.Parse.{
  Token, no_token, unless_found, parse_ring, parse_flag, parse_i64_field, parse_string_field,
  chunks, line_of,
}
use sentinel_kv.Bridge.Parse as C
use sentinel_kv.Zig.Parse.{parse_i64, parse_bool, parse_text, keep_nonce, trim_line}
use sentinel_kv.Zig.Parse as Z
use sentinel_kv.Zig.Printed.{IsPlain, trim_line-plain}

-- Both find the same in a line, whatever field they look for.
pub record ReadsAlike (line : Text) : Type 0 where
  pub ring : parse_ring line ≡ parse_i64 line (text "ring:")
  pub attested : parse_flag (text "attested:") line ≡ parse_bool line (text "attested:")
  pub timestamp : parse_i64_field line (text "timestamp:") ≡ parse_i64 line (text "timestamp:")
  pub nonce : parse_string_field line (text "nonce:") 256 ≡ parse_text line (text "nonce:")
  pub nonce_fits :
      (v : Text) → parse_text line (text "nonce:") ≡ some v → ltb 256 (length v) ≡ false
  pub counter : parse_i64_field line (text "counter:") ≡ parse_i64 line (text "counter:")
  pub root_attested :
      parse_flag (text "root_attested:") line ≡ parse_bool line (text "root_attested:")

or_next-agrees :
    {A : Type 0} (o : Option A) (f : A → Token) (g : A → Option Token) (t : Token)
    (u : Option Token)
    → ((a : A) → o ≡ some a → g a ≡ some (f a))
    → u ≡ some t
    → Z.or_next o g u ≡ some (C.or_next o f t)
unfolding Z.or_next C.or_next
or_next-agrees none f g t u h k = k
or_next-agrees (some a) f g t u h k = h a refl

unless_found-some : {A : Type 0} (o p : Option A) (a : A) → unless_found o p ≡ some a → p ≡ some a
unfolding unless_found
unless_found-some none p a h = h
unless_found-some (some x) p a h = cc

keep_nonce-fits :
    (t : Token) (v : Text)
    → ltb 256 (length v) ≡ false
    → keep_nonce t v ≡ some (record t { nonce = some v })
unfolding keep_nonce
keep_nonce-fits t v h = rw h refl

module _ (t : Token) (ring : Option ℤ) (attested : Option Bool) (timestamp : Option ℤ)
    (nonce : Option Text) (counter : Option ℤ) (root_attested : Option Bool) where
  -- the body of each loop, from what is found in the line
  c_line : Token
  c_line =
      C.or_next (unless_found t.ring ring) (λ v. record t { ring = some v })
        (C.or_next (unless_found t.attested attested) (λ v. record t { attested = some v })
          (C.or_next (unless_found t.timestamp timestamp) (λ v. record t { timestamp = some v })
            (C.or_next (unless_found t.nonce nonce) (λ v. record t { nonce = some v })
              (C.or_next (unless_found t.counter counter) (λ v. record t { counter = some v })
                (C.or_next (unless_found t.root_attested root_attested)
                  (λ v. record t { root_attested = some v }) t)))))

  z_line : Option Token
  z_line =
      Z.or_next (unless_found t.ring ring) (λ v. some (record t { ring = some v }))
        (Z.or_next (unless_found t.attested attested) (λ v. some (record t { attested = some v }))
          (Z.or_next (unless_found t.timestamp timestamp)
            (λ v. some (record t { timestamp = some v }))
            (Z.or_next (unless_found t.nonce nonce) (keep_nonce t) (
              Z.or_next (unless_found t.counter counter) (λ v. some (record t { counter = some v }))
                (Z.or_next (unless_found t.root_attested root_attested)
                  (λ v. some (record t { root_attested = some v })) (some t))))))

  z_line-c_line : ((v : Text) → nonce ≡ some v → ltb 256 (length v) ≡ false) → z_line ≡ some c_line
  unfolding z_line c_line
  z_line-c_line fits =
      or_next-agrees _ _ _ _ _ (λ _ _. refl)
        (or_next-agrees _ _ _ _ _ (λ _ _. refl)
          (or_next-agrees _ _ _ _ _ (λ _ _. refl)
            (or_next-agrees _ _ _ _ _
              (λ v e. keep_nonce-fits t v (fits v (unless_found-some t.nonce nonce v e)))
              (or_next-agrees _ _ _ _ _ (λ _ _. refl)
                (or_next-agrees _ _ _ _ _ (λ _ _. refl) refl)))))

-- one line
read_line-agrees :
    (t : Token) (line : Text) → ReadsAlike line → Z.read_line t line ≡ some (C.read_line t line)
unfolding Z.read_line C.read_line z_line c_line
read_line-agrees t line a = z_line-c_line t _ _ _ _ _ _ a.nonce_fits ∙ λ i. some (
    c_line t (sym a.ring i) (sym a.attested i) (sym a.timestamp i) (sym a.nonce i) (sym a.counter i)
      (sym a.root_attested i))

-- the lines of a file
unfoldable pub file_of : List Text → Text
file_of [] = []
file_of (line ∷ l) = line ++ b'\n' ∷ file_of l

-- A line that both can hold in their buffers.
pub record IsLine (line : Text) : Type 0 where
  pub plain : IsPlain line
  pub short : length line < 255
  pub agrees : ReadsAlike line

chunks-line :
    (room : ℕ) (chunk s rest : Text)
    → IsPlain s
    → length s < room
    → chunks room chunk (s ++ b'\n' ∷ rest) ≡ (chunk ++ s ++ b'\n' ∷ []) ∷ chunks 255 [] rest
unfolding chunks
chunks-line room chunk [] rest h fits = rw (append-nil chunk) refl
chunks-line room chunk (c ∷ s) rest h fits =
    let rest' = chunks-line (room - 1) (chunk ++ c ∷ []) s rest h.1 (omega arith) in
    let same = append_assoc chunk (c ∷ []) s in rw (rest', same) (ground arith)

line_of-plain : (s : Text) → IsPlain s → line_of (s ++ b'\n' ∷ []) ≡ s
unfolding line_of
line_of-plain [] h = refl
line_of-plain (c ∷ s) h = rw (line_of-plain s h.1) (ground arith)

one_more :
    (t : Token) (room : ℕ) (line : Text) (c : ℕ) (rest : Text)
    → nat_beq c b'\n' ≡ false
    → leb room 1 ≡ false
    → Z.read_lines t room line (c ∷ rest) ≡ Z.read_lines t (room - 1) (line ++ c ∷ []) rest
unfolding Z.read_lines
one_more t room line c rest h k = rw (h, k, Z.read_lines) refl

lines-one :
    (t : Token) (room : ℕ) (line s rest : Text)
    → IsPlain s
    → length s < room
    → Z.read_lines t room line (s ++ b'\n' ∷ rest)
      ≡ (Z.read_line t (trim_line (line ++ s)) >>= λ u. Z.read_lines u 512 [] rest)
unfolding Z.read_lines
lines-one t room line [] rest h fits = rw (append-nil line) refl
lines-one t room line (c ∷ s) rest h fits =
    one_more t room line c (s ++ b'\n' ∷ rest) (ground arith) (ground arith)
    ∙ lines-one t (room - 1) (line ++ c ∷ []) s rest h.1 (omega arith)
    ∙ ap (λ x. Z.read_line t (trim_line x) >>= λ u. Z.read_lines u 512 [] rest)
        (append_assoc line (c ∷ []) s)

-- The two parsers on the same lines.
read_lines-agrees :
    (l : List Text) (t : Token)
    → All IsLine l
    → Z.read_lines t 512 [] (file_of l) ≡ some (C.read_lines t (chunks 255 [] (file_of l)))
unfolding file_of C.read_lines
read_lines-agrees [] t h = unfold Z.read_lines in unfold chunks in refl
read_lines-agrees (line ∷ l) t h =
    let is_line = h.0 in
    lines-one t 512 [] line (file_of l) is_line.plain (omega (arith, is_line.short))
    ∙ ap (λ x. Z.read_line t x >>= λ u. Z.read_lines u 512 [] (file_of l))
        (trim_line-plain line is_line.plain)
    ∙ ap (λ o. o >>= λ u. Z.read_lines u 512 [] (file_of l))
        (read_line-agrees t line is_line.agrees)
    ∙ read_lines-agrees l (C.read_line t line) h.1
    ∙ sym (
        ap (λ x. some (C.read_lines t x))
          (chunks-line 255 [] line (file_of l) is_line.plain is_line.short)
        ∙ ap (λ x. some (C.read_lines (C.read_line t x) (chunks 255 [] (file_of l))))
            (line_of-plain line is_line.plain))

pub read_token-agrees :
    (l : List Text) → All IsLine l → Z.read_token (file_of l) ≡ some (C.read_token (file_of l))
unfolding Z.read_token C.read_token
read_token-agrees l h = read_lines-agrees l no_token h
