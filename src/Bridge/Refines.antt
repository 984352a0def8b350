-- ===== src/Bridge/Refines.antt =====
-- skv-analyzer/src/c/attestation_bridge.c as an implementation of the ledger: what it accepts where
-- the system calls on the replay state succeed.
use sentinel_kv.Prelude.{
  some-injective, ℕ, ◌≤◌, ◌≡◌, refl, sym, ap, ◌∙◌, subst, Bool, true, false, Option, none, some,
  List, All, Text, nat_beq, leb, length, if◌then◌else◌, arith,
}
use sentinel_kv.Prelude.Int.{ℤ, ltb_ℤ}
use sentinel_kv.Host.{Metadata}
use sentinel_kv.Ledger.{Serves, grants, denies, Ledger, Attestor, answers, stored, answers-Ledger}
use sentinel_kv.Bridge.{
  require, is_secure, is_empty, last_counter, check_replay, counter_line, write_counter, advance,
  validate_attestation_token,
}
use sentinel_kv.Bridge.Presents.{
  Presents, offered, offered-Presents, Presents-offered, Presents-IsI64,
}
use sentinel_kv.Bridge.Printed.{length-counter_line, last_counter-counter_line}
use sentinel_kv.Bridge.Replay.{Call, answer}

-- The system calls on the replay state succeed.
pub record Works (k : Call) : Type 0 where
  pub replay_file : Metadata
  pub named : is_empty k.replay_path ≡ false
  pub opens : k.sys.open_state k.replay_path ≡ true
  pub locks : k.sys.lock ≡ true
  pub found : k.sys.fstat ≡ some replay_file
  pub secure : is_secure k.sys.geteuid replay_file ≡ true
  pub reads : k.sys.pread ≡ true
  pub truncates : k.sys.ftruncate ≡ true
  pub seeks : k.sys.lseek ≡ true
  pub writes : (c : ℤ) → Presents k c → k.sys.written ≡ length (counter_line c)
  pub syncs : k.sys.fsync ≡ true
  pub changes_mode : k.sys.chmod ≡ true

check_replay-fresh :
    (k : Call) (c : ℤ) (replay : Text)
    → Works k
    → check_replay k.sys k.replay_path c replay ≡ require (ltb_ℤ (last_counter true replay) c)
unfolding check_replay require
check_replay-fresh k c replay w = rw (w.named, w.opens, w.locks, w.found, w.secure, w.reads) refl

short_line : (n : ℕ) → n ≤ 127 → leb 128 n ≡ false
short_line n h = ground arith

nat_beq_refl : (n : ℕ) → nat_beq n n ≡ true
nat_beq_refl n = ground arith

write_counter-Works :
    (k : Call) (c : ℤ) (replay : Text)
    → Works k
    → Presents k c
    → write_counter k.sys c replay ≡ (1, counter_line c)
unfolding write_counter
write_counter-Works k c replay w p =
    rw
      (
        w.truncates,
        w.seeks,
        w.writes c p,
        w.syncs,
        w.changes_mode,
        short_line (length (counter_line c)) (length-counter_line c (Presents-IsI64 k c p)),
        nat_beq_refl (length (counter_line c)),
      )
      refl

-- the answer as the interface gives it
unfoldable pub respond : Call → Text → Bool × Text
unfolding answer
respond k replay = (nat_beq (answer k replay).0 1, (answer k replay).1)

abbrev Served : Call → Text → ℕ × Text → Type 0
Served k replay out =
    Serves (Presents k) (last_counter true replay) (nat_beq out.0 1) (last_counter true out.1)

advance-Works :
    (k : Call) (replay : Text) (c : ℤ)
    → Works k
    → Presents k c
    → advance k.sys k.replay_path replay (some c)
      ≡ (if ltb_ℤ (last_counter true replay) c then (1, counter_line c) else (0, replay))
unfolding advance
advance-Works k replay c w p =
    ap after_check (check_replay-fresh k c replay w) ∙ go (ltb_ℤ (last_counter true replay) c)
  where
    after_check : Option (Unit {0}) → ℕ × Text
    after_check r = elim r [ none ↦ (0, replay) | some _ ↦ write_counter k.sys c replay ]

    go : (b : Bool) → after_check (require b) ≡ (if b then (1, counter_line c) else (0, replay))
    go true = unfold require in write_counter-Works k c replay w p
    go false = unfold require in refl

one_counter : (k : Call) (c d : ℤ) → offered k ≡ some c → Presents k d → c ≡ d
one_counter k c d e p = some-injective (sym e ∙ Presents-offered k d p)

fresh_or_stale :
    (k : Call) (replay : Text) (c : ℤ) (b : Bool)
    → offered k ≡ some c
    → ltb_ℤ (last_counter true replay) c ≡ b
    → Served k replay (if b then (1, counter_line c) else (0, replay))
fresh_or_stale k replay c true e fresh =
    let p = offered-Presents k c e in
    subst (λ d. Serves (Presents k) (last_counter true replay) true d)
      (sym (last_counter-counter_line c (Presents-IsI64 k c p))) (grants p fresh)
fresh_or_stale k replay c false e stale = denies λ d q. rw (← one_counter k c d e q) stale

advance-Served :
    (k : Call) (replay : Text) (o : Option ℤ)
    → Works k
    → offered k ≡ o
    → Served k replay (advance k.sys k.replay_path replay o)
advance-Served k replay none w e =
    unfold advance in denies λ c p. absurd (none-ne-some (sym e ∙ Presents-offered k c p))
  where
    none-ne-some : {c : ℤ} → ¬ (none ≡ some c)
    none-ne-some q = cc
advance-Served k replay (some c) w e =
    subst (Served k replay) (sym (advance-Works k replay c w (offered-Presents k c e)))
      (fresh_or_stale k replay c _ e refl)

pub respond-Serves :
    (k : Call) (replay : Text)
    → Works k
    → Serves
        (Presents k)
        (last_counter true replay)
        (respond k replay).0
        (last_counter true (respond k replay).1)
unfolding respond answer validate_attestation_token offered
respond-Serves k replay w = advance-Served k replay _ w refl

abbrev pub c_attestor : Attestor
c_attestor = record {
  Call = Call;
  Store = Text;
  respond = respond;
  Presents = Presents;
  last = last_counter true;
  Works = Works;
  IsReady = λ replay. Unit;
  serves = λ k replay w _. respond-Serves k replay w;
  stays_ready = λ k replay w _. tt;
}

-- Over any sequence of calls for which the system calls on the replay state succeed, the C bridge
-- keeps the ledger: it accepts a call if and only if the token is a secure file that says what is
-- asked for and its counter is above the last one accepted, or at first above the one in the replay
-- state; and that state then holds the counter.
pub c_answers-Ledger :
    (calls : List Call) (replay : Text)
    → All Works calls
    → Ledger Presents
        (last_counter true replay)
        (answers c_attestor calls replay)
        (last_counter true (stored c_attestor calls replay))
c_answers-Ledger calls replay works = answers-Ledger c_attestor calls replay works tt
