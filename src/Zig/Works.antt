-- ===== src/Zig/Works.antt =====
-- What skv-analyzer/src/zig/attestation_bridge.zig answers where the system calls on the replay state
-- succeed, by the token and the counter that is stored.
use sentinel_kv.Prelude.{
  ℕ, ◌≤◌, ◌≡◌, refl, sym, ap, ◌∙◌, Bool, true, false, some, [], ◌∷◌, Text, length, ltb,
  if◌then◌else◌, arith,
}
use sentinel_kv.Prelude.Int.{ℤ, ltb_ℤ}
use sentinel_kv.Bridge.{is_empty, counter_line}
use sentinel_kv.Bridge.Printed.{take-all}
use sentinel_kv.Zig.{
  ◌>>=◌, Replay, Checked, refuses, panics, passes, ensure, assert, is_secure_regular_file,
  is_absolute, token_of, stored_counter, new_counter, status_of, Answer, accepted, refused,
  panicked, record_counter, answer,
}
use sentinel_kv.Zig.Presents.{Call, Presents, offered}

-- The paths are absolute, and the system calls on the replay state succeed.
pub record Works (k : Call) : Type 0 where
  pub token_path : is_absolute k.token_path ≡ true
  pub replay_path : is_absolute k.replay_path ≡ true
  pub opens : k.os.open_state ≡ true
  pub creates : k.os.create_file ≡ true
  pub secure : is_secure_regular_file (some k.os.new_file) ≡ true
  pub writes : (c : ℤ) → Presents k c → length (counter_line c) ≤ k.os.written

>>=_assoc :
    {A B C : Type 0} (x : Checked A) (f : A → Checked B) (g : B → Checked C)
    → (x >>= f >>= g) ≡ (x >>= λ a. f a >>= g)
>>=_assoc refuses f g = refl
>>=_assoc panics f g = refl
>>=_assoc (passes a) f g = refl

absolute-not_empty : (path : Text) → is_absolute path ≡ true → is_empty path ≡ false
unfolding is_absolute is_empty
absolute-not_empty [] h = cc
absolute-not_empty (c ∷ path) h = refl

-- what is left to check behind the token
unfoldable pub if_fresh : ℤ → ℤ → Checked ℤ
if_fresh low c = ensure (ltb_ℤ low c) >>= λ _. passes c

new_counter-Works :
    (k : Call) (replay : Replay) (low : ℤ)
    → Works k
    → stored_counter k.os k.replay_path replay ≡ passes low
    → new_counter k.os k.token_path k.required_ring k.max_age_sec k.expected_nonce k.replay_path
        replay
      ≡ (offered k >>= if_fresh low)
unfolding new_counter offered if_fresh ensure assert
new_counter-Works k replay low w read =
    rw (absolute-not_empty k.replay_path (w.replay_path), read, w.replay_path, w.creates)
      (sym (>>=_assoc (token_of k.os k.token_path) _ _))

pub record_counter-Works :
    (k : Call) (replay : Replay) (c : ℤ)
    → Works k
    → Presents k c
    → record_counter k.os replay (passes c)
      ≡ (accepted, record { status = status_of k.os replay.status; content = counter_line c })
unfolding record_counter
record_counter-Works k replay c w p =
    rw
      (
        take-all k.os.written (counter_line c) (w.writes c p),
        not_cut (length (counter_line c)) k.os.written (w.writes c p),
      )
      refl
  where
    not_cut : (n room : ℕ) → n ≤ room → ltb room n ≡ false
    not_cut n room h = ground arith

-- the answer as the interface gives it
unfoldable pub is_accepted : Answer → Bool
is_accepted accepted = true
is_accepted refused = false
is_accepted panicked = false

unfoldable pub answer_to : Call → Replay → Answer × Replay
unfolding answer
answer_to k replay =
    answer k.os k.token_path k.required_ring k.max_age_sec k.expected_nonce k.replay_path replay

unfoldable pub respond : Call → Replay → Bool × Replay
unfolding is_accepted answer_to
respond k replay = (is_accepted (answer_to k replay).0, (answer_to k replay).1)

if-false : {A : Type 0} (b : Bool) (x y : A) → b ≡ false → (if b then x else y) ≡ y
if-false true x y h = cc
if-false false x y h = refl

pub answer_to-Works :
    (k : Call) (replay : Replay) (low : ℤ)
    → Works k
    → stored_counter k.os k.replay_path replay ≡ passes low
    → answer_to k replay ≡ record_counter k.os replay (offered k >>= if_fresh low)
unfolding answer_to answer
answer_to-Works k replay low w read =
    if-false (is_empty k.token_path) _ _ (absolute-not_empty k.token_path w.token_path)
    ∙ if-false (is_empty k.replay_path) _ _ (absolute-not_empty k.replay_path w.replay_path)
    ∙ ap (record_counter k.os replay) (new_counter-Works k replay low w read)
