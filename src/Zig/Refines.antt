-- ===== src/Zig/Refines.antt =====
-- skv-analyzer/src/zig/attestation_bridge.zig as an implementation of the ledger, and what becomes
-- of the ledger where others may write the replay state.
use sentinel_kv.Prelude.{
  ◌≡◌, refl, sym, ◌∙◌, subst, Bool, true, false, Option, none, some, List, [], All, if◌then◌else◌,
}
use sentinel_kv.Prelude.Int.{ℤ, negsuc, ltb_ℤ}
use sentinel_kv.Host.{Metadata}
use sentinel_kv.Ledger.{Serves, grants, denies, Ledger, Attestor, answers, stored, answers-Ledger}
use sentinel_kv.Bridge.{counter_line}
use sentinel_kv.Bridge.Printed.{IsI64}
use sentinel_kv.Zig.Parse.{next_line}
use sentinel_kv.Zig.{
  ◌>>=◌, Replay, Checked, refuses, panics, passes, ensure, assert, is_secure_regular_file,
  counter_of_line, stored_counter, status_of, Answer, accepted, record_counter,
}
use sentinel_kv.Bridge.Replay.{IsI64OrNone}
use sentinel_kv.Zig.Range.{Counted, counted, read_token-Counted}
use sentinel_kv.Zig.Presents.{
  Call, Presents, offered, offered-Presents, Presents-offered, passes-injective,
}
use sentinel_kv.Zig.Works.{
  Works, if_fresh, record_counter-Works, is_accepted, respond, answer_to-Works,
}
use sentinel_kv.Zig.Printed.{counter_of_line-counter_line}

-- the ledger in the replay state
unfoldable pub last : Replay → ℤ
last replay =
    if is_secure_regular_file replay.status
    then elim (counter_of_line (next_line 128 [] replay.content)) [
      | refuses ↦ negsuc 0
      | panics ↦ negsuc 0
      | passes c ↦ c
    ]
    else negsuc 0

-- The replay state is not there yet, or a file that only its owner may write, whose first line is
-- not longer than the buffer for it.
pub data IsReady (replay : Replay) : Type 0 where
  absent : replay.status ≡ none → IsReady replay
  present :
      (c : ℤ)
      → is_secure_regular_file replay.status ≡ true
      → counter_of_line (next_line 128 [] replay.content) ≡ passes c
      → IsReady replay

stored_counter-last :
    (k : Call) (replay : Replay)
    → Works k
    → IsReady replay
    → stored_counter k.os k.replay_path replay ≡ passes (last replay)
unfolding stored_counter last ensure assert is_secure_regular_file
stored_counter-last k replay w (absent e) = rw e refl
stored_counter-last k replay w (present c secure read) =
    rw (secure, w.replay_path, w.opens, read) refl

pub Presents-IsI64 : (k : Call) (c : ℤ) → Presents k c → IsI64 c
Presents-IsI64 k c p =
    subst IsI64OrNone p.good.says.counted
      (counted (subst Counted p.read (read_token-Counted p.content)))

-- what is left behind a token that was accepted
abbrev after : Call → Replay → ℤ → Replay
after k replay c = record { status = status_of k.os replay.status; content = counter_line c }

status_of-secure :
    (k : Call) (replay : Replay)
    → Works k
    → IsReady replay
    → is_secure_regular_file (status_of k.os replay.status) ≡ true
unfolding status_of
status_of-secure k replay w (absent e) = rw e w.secure
status_of-secure k replay w (present c secure read) = go replay.status secure
  where
    go :
        (o : Option Metadata)
        → is_secure_regular_file o ≡ true
        → is_secure_regular_file (status_of k.os o) ≡ true
    go none h = unfold is_secure_regular_file in cc
    go (some st) h = h

after-IsReady :
    (k : Call) (replay : Replay) (c : ℤ)
    → Works k
    → IsReady replay
    → Presents k c
    → IsReady (after k replay c)
after-IsReady k replay c w ready p =
    present c (status_of-secure k replay w ready)
      (counter_of_line-counter_line c (Presents-IsI64 k c p))

last-after :
    (k : Call) (replay : Replay) (c : ℤ)
    → Works k
    → IsReady replay
    → Presents k c
    → last (after k replay c) ≡ c
unfolding last
last-after k replay c w ready p =
    rw (status_of-secure k replay w ready, counter_of_line-counter_line c (Presents-IsI64 k c p))
      refl

-- What is answered, by what the token gives.
abbrev Served : Call → Replay → Answer × Replay → Type 0
Served k replay out =
    Serves (Presents k) (last replay) (is_accepted out.0) (last out.1) × IsReady out.1

not_good :
    (k : Call) (x : Checked ℤ)
    → Works k
    → offered k ≡ x
    → ¬ ((c : ℤ) × (x ≡ passes c))
    → (c : ℤ) → ¬ Presents k c
not_good k x w e none_passes c p = none_passes (c, sym e ∙ Presents-offered k c w.token_path p)

refuses-ne-passes : ¬ ((c : ℤ) × (refuses ≡ passes c))
refuses-ne-passes (c, h) = cc

panics-ne-passes : ¬ ((c : ℤ) × (panics ≡ passes c))
panics-ne-passes (c, h) = cc

fresh_or_stale :
    (k : Call) (replay : Replay) (c : ℤ) (b : Bool)
    → Works k
    → IsReady replay
    → offered k ≡ passes c
    → ltb_ℤ (last replay) c ≡ b
    → Served k replay (record_counter k.os replay (ensure b >>= λ _. passes c))
fresh_or_stale k replay c true w ready e fresh =
    unfold ensure in
    let p = offered-Presents k c e in
    subst (Served k replay) (sym (record_counter-Works k replay c w p)) (
      subst (λ d. Serves (Presents k) (last replay) (is_accepted accepted) d)
          (sym (last-after k replay c w ready p)) (unfold is_accepted in grants p fresh),
      after-IsReady k replay c w ready p,
    )
fresh_or_stale k replay c false w ready e stale =
    unfold ensure in
    unfold record_counter in
    unfold is_accepted in
    (denies λ d q. subst (λ x. ltb_ℤ (last replay) x ≡ false) (one_counter d q) stale, ready)
  where
    one_counter : (d : ℤ) → Presents k d → c ≡ d
    one_counter d q = passes-injective (sym e ∙ Presents-offered k d w.token_path q)

record_counter-Served :
    (k : Call) (replay : Replay) (x : Checked ℤ)
    → Works k
    → IsReady replay
    → offered k ≡ x
    → Served k replay (record_counter k.os replay (x >>= if_fresh (last replay)))
unfolding if_fresh
record_counter-Served k replay refuses w ready e =
    unfold record_counter in
    unfold is_accepted in
    (denies λ c p. absurd (not_good k refuses w e refuses-ne-passes c p), ready)
record_counter-Served k replay panics w ready e =
    unfold record_counter in
    unfold is_accepted in (denies λ c p. absurd (not_good k panics w e panics-ne-passes c p), ready)
record_counter-Served k replay (passes c) w ready e = fresh_or_stale k replay c _ w ready e refl

pub respond-Serves :
    (k : Call) (replay : Replay)
    → Works k
    → IsReady replay
    → Serves (Presents k) (last replay) (respond k replay).0 (last (respond k replay).1)
      × IsReady (respond k replay).1
unfolding respond
respond-Serves k replay w ready =
    subst (Served k replay)
      (sym (answer_to-Works k replay _ w (stored_counter-last k replay w ready)))
      (record_counter-Served k replay _ w ready refl)

abbrev pub zig_attestor : Attestor
zig_attestor = record {
  Call = Call;
  Store = Replay;
  respond = respond;
  Presents = Presents;
  last = last;
  Works = Works;
  IsReady = IsReady;
  serves = λ k replay w ready. (respond-Serves k replay w ready).0;
  stays_ready = λ k replay w ready. (respond-Serves k replay w ready).1;
}

-- Over any sequence of calls with absolute paths, for which the system calls on the replay state
-- succeed, the Zig bridge keeps the ledger too, if at first the replay state is absent, or a file
-- that only its owner may write and whose first line fits the buffer.
pub zig_answers-Ledger :
    (calls : List Call) (replay : Replay)
    → All Works calls
    → IsReady replay
    → Ledger Presents
        (last replay)
        (answers zig_attestor calls replay)
        (last (stored zig_attestor calls replay))
zig_answers-Ledger calls replay works ready = answers-Ledger zig_attestor calls replay works ready
