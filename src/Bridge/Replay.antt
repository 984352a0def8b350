-- ===== src/Bridge/Replay.antt =====
-- Sequences of calls of the attestation bridge (skv-analyzer/src/c/attestation_bridge.c) on one replay
-- state.
use Prim.Native.Nat.{min}
use sentinel_kv.Prelude.{
  some-injective, ℕ, zero, suc, ◌^◌, ◌≡◌, refl, sym, ap, ◌∙◌, subst, Bool, true, false, Option,
  none, some, List, [], ◌∷◌, Text, text, ◌>>=◌, starts_with_digit, read_digits, if◌then◌else◌,
  arith,
}
use sentinel_kv.Prelude.Int.{ℤ, ltb_ℤ}
use sentinel_kv.Files.{strip_prefix}
use sentinel_kv.Bridge.Numbers.{negate, clamp, strtoll, sign, skip_space}
use sentinel_kv.Bridge.Parse.{
  Token, no_token, unless_found, or_next, parse_i64_field, read_line, read_lines, line_of, chunks,
  read_token,
}
use sentinel_kv.Bridge.{System, last_counter, counter_line, validate_attestation_token}
use sentinel_kv.Bridge.Accepted.{validate_attestation_token-IsAccepted}
use sentinel_kv.Bridge.Printed.{IsI64, last_counter-counter_line}

negate-IsI64 : (n : ℕ) → IsI64 (negate (min n (2 ^ 63)))
unfolding negate
negate-IsI64 zero = omega arith
negate-IsI64 (suc n) = ground arith

clamp-IsI64 : (minus : Bool) (n : ℕ) → IsI64 (clamp minus n)
unfolding clamp
clamp-IsI64 true n = negate-IsI64 n
clamp-IsI64 false n = omega arith

-- the counter that was found, if any, is a long long
abbrev pub IsI64OrNone : Option ℤ → Type 0
IsI64OrNone none = Unit
IsI64OrNone (some c) = IsI64 c

strtoll-IsI64 : (s : Text) → IsI64OrNone (strtoll s)
unfolding strtoll
strtoll-IsI64 s =
    go (starts_with_digit (sign (skip_space s)).1) (sign (skip_space s)).0
      (read_digits 0 (sign (skip_space s)).1).0
  where
    go : (b minus : Bool) (n : ℕ) → IsI64OrNone (if b then some (clamp minus n) else none)
    go true minus n = clamp-IsI64 minus n
    go false minus n = tt

parse_i64_field-IsI64 : (line prefix : Text) → IsI64OrNone (parse_i64_field line prefix)
unfolding parse_i64_field
parse_i64_field-IsI64 line prefix = go (strip_prefix prefix line)
  where
    go : (o : Option Text) → IsI64OrNone (o >>= λ v. strtoll v)
    go none = tt
    go (some v) = strtoll-IsI64 v

pub unless_found-IsI64 :
    (found parsed : Option ℤ) → IsI64OrNone parsed → IsI64OrNone (unless_found found parsed)
unfolding unless_found
unless_found-IsI64 none parsed h = h
unless_found-IsI64 (some c) parsed h = tt

or_next-IsI64 :
    {A : Type 0} (o : Option A) (found : A → Token) (next : Token)
    → ((a : A) → o ≡ some a → IsI64OrNone (found a).counter)
    → IsI64OrNone next.counter
    → IsI64OrNone (or_next o found next).counter
unfolding or_next
or_next-IsI64 none found next h k = k
or_next-IsI64 (some a) found next h k = h a refl

read_line-IsI64 :
    (t : Token) (line : Text) → IsI64OrNone t.counter → IsI64OrNone (read_line t line).counter
unfolding read_line
read_line-IsI64 t line h =
    or_next-IsI64 _ _ _ (λ _ _. h)
      (or_next-IsI64 _ _ _ (λ _ _. h)
        (or_next-IsI64 _ _ _ (λ _ _. h)
          (or_next-IsI64 _ _ _ (λ _ _. h)
            (or_next-IsI64 _ _ _
              (λ c e.
                subst IsI64OrNone e
                  (unless_found-IsI64 t.counter _ (parse_i64_field-IsI64 line (text "counter:"))))
              (or_next-IsI64 _ _ _ (λ _ _. h) h)))))

read_lines-IsI64 :
    (t : Token) (l : List Text) → IsI64OrNone t.counter → IsI64OrNone (read_lines t l).counter
unfolding read_lines
read_lines-IsI64 t [] h = h
read_lines-IsI64 t (chunk ∷ l) h =
    read_lines-IsI64 (read_line t (line_of chunk)) l (read_line-IsI64 t (line_of chunk) h)

pub read_token-IsI64 : (content : Text) → IsI64OrNone (read_token content).counter
unfolding read_token no_token
read_token-IsI64 content = read_lines-IsI64 no_token (chunks 255 [] content) tt

-- One call, with what the system gives it.
pub record Call : Type 0 where
  pub sys : System
  pub token_path : Text
  pub required_ring : ℤ
  pub max_age_sec : ℤ
  pub expected_nonce : Option Text
  pub replay_path : Text

unfoldable pub answer : Call → Text → ℕ × Text
answer k replay =
    validate_attestation_token k.sys k.token_path k.required_ring k.max_age_sec k.expected_nonce
      k.replay_path replay

-- Calls one behind the other, from one content of the replay state to another, with the counters of
-- the tokens that were accepted. Each can read the state, and one that refuses leaves it alone.
pub data Calls : Text → List ℤ → Text → Type 0 where
  done : {replay : Text} → Calls replay [] replay
  refused :
      {replay last : Text} {counters : List ℤ} (k : Call)
      → answer k replay ≡ (0, replay)
      → Calls replay counters last
      → Calls replay counters last
  accepted :
      {replay after last content : Text} {c : ℤ} {counters : List ℤ} (k : Call)
      → k.sys.pread ≡ true
      → k.sys.fopen k.token_path ≡ some content
      → (read_token content).counter ≡ some c
      → answer k replay ≡ (1, after)
      → Calls after counters last
      → Calls replay (c ∷ counters) last

-- each number is above the one before it, the first above `low`
abbrev pub IsIncreasing : ℤ → List ℤ → Type 0
IsIncreasing low [] = Unit
IsIncreasing low (c ∷ counters) = (ltb_ℤ low c ≡ true) × IsIncreasing c counters

answer-advances :
    (k : Call) (replay after content : Text) (c : ℤ)
    → k.sys.pread ≡ true
    → k.sys.fopen k.token_path ≡ some content
    → (read_token content).counter ≡ some c
    → answer k replay ≡ (1, after)
    → (ltb_ℤ (last_counter true replay) c ≡ true) × (last_counter true after ≡ c)
unfolding answer
answer-advances k replay after content c can_read opened counted h =
    let a =
      validate_attestation_token-IsAccepted k.sys k.token_path k.required_ring k.max_age_sec
        k.expected_nonce k.replay_path replay after h in
    let same_content : a.content ≡ content = some-injective (sym a.opened ∙ opened) in
    let same : a.counter ≡ c =
      some-injective
        (sym (a.good.says.counted) ∙ ap (λ s. (read_token s).counter) same_content ∙ counted) in
    let in_range : IsI64 c = subst IsI64OrNone counted (read_token-IsI64 content) in
    (
      subst (λ b. ltb_ℤ (last_counter b replay) c ≡ true) can_read
          (subst (λ x. ltb_ℤ (last_counter k.sys.pread replay) x ≡ true) same a.advanced),
      ap (last_counter true) (a.recorded ∙ ap counter_line same)
          ∙ last_counter-counter_line c in_range,
    )

-- In a sequence of calls on one replay state, each of which can read the state, and leaves it alone
-- where it refuses, the counters of the tokens that are accepted increase strictly, from the
-- counter in the state before.
pub Calls-IsIncreasing :
    {replay last : Text} {counters : List ℤ}
    → Calls replay counters last
    → IsIncreasing (last_counter true replay) counters
Calls-IsIncreasing done = tt
Calls-IsIncreasing (refused k h rest) = Calls-IsIncreasing rest
Calls-IsIncreasing
      (accepted {replay} {after} {last} {content} {c} {counters} k can_read opened counted h rest) =
    let (above, recorded) = answer-advances k replay after content c can_read opened counted h in
    (above, subst (λ low. IsIncreasing low counters) recorded (Calls-IsIncreasing rest))
