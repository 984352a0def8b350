-- ===== src/Ledger.antt =====
-- What the attestation bridge (skv_validate_attestation_token) promises, apart from its two
-- implementations (skv-analyzer/src/c and skv-analyzer/src/zig): a ledger that holds one number, the
-- counter of the token that was accepted last, and the interface that an implementation fills.
use sentinel_kv.Prelude.{◌≡◌, Bool, true, false, List, [], ◌∷◌, All}
use sentinel_kv.Prelude.Int.{ℤ, ltb_ℤ}

-- One request. `Presents c`: the token is good, and its counter is `c`. A good token is granted if
-- and only if its counter is above the number in the ledger, which it then becomes.
pub data Serves (Presents : ℤ → Type 0) : ℤ → Bool → ℤ → Type 0 where
  grants : {last c : ℤ} → Presents c → ltb_ℤ last c ≡ true → Serves Presents last true c
  denies :
      {last : ℤ} → ((c : ℤ) → Presents c → ltb_ℤ last c ≡ false) → Serves Presents last false last

-- The requests one behind the other, each with its answer.
pub data Ledger {Call : Type 0} (Presents : Call → ℤ → Type 0)
    : ℤ → List (Call × Bool) → ℤ → Type 0 where
  closed : {last : ℤ} → Ledger Presents last [] last
  served :
      {low middle last : ℤ} {k : Call} {b : Bool} {l : List (Call × Bool)}
      → Serves (Presents k) low b middle
      → Ledger Presents middle l last
      → Ledger Presents low ((k, b) ∷ l) last

-- An implementation: it answers a call from what it stores. The ledger is read off the store, which
-- `IsReady` while it is as the implementation leaves it. `Works` says that the system does its part.
pub record Attestor : Type 1 where
  pub Call : Type 0
  pub Store : Type 0
  pub respond : Call → Store → Bool × Store
  pub Presents : Call → ℤ → Type 0
  pub last : Store → ℤ
  pub Works : Call → Type 0
  pub IsReady : Store → Type 0
  pub serves :
      (k : Call) (s : Store)
      → Works k
      → IsReady s
      → Serves (Presents k) (last s) (respond k s).0 (last (respond k s).1)
  pub stays_ready : (k : Call) (s : Store) → Works k → IsReady s → IsReady (respond k s).1

module _ (a : Attestor) where
  -- the calls, each with its answer
  unfoldable pub answers : List a.Call → a.Store → List (a.Call × Bool)
  answers [] s = []
  answers (k ∷ l) s = (k, (a.respond k s).0) ∷ answers l (a.respond k s).1

  -- what is stored behind them
  unfoldable pub stored : List a.Call → a.Store → a.Store
  stored [] s = s
  stored (k ∷ l) s = stored l (a.respond k s).1

  -- Every implementation keeps the ledger, over any sequence of calls.
  pub answers-Ledger :
      (l : List a.Call) (s : a.Store)
      → All a.Works l
      → a.IsReady s
      → Ledger a.Presents (a.last s) (answers l s) (a.last (stored l s))
  unfolding answers stored
  answers-Ledger [] s works ready = closed
  answers-Ledger (k ∷ l) s works ready =
      served (a.serves k s works.0 ready)
        (answers-Ledger l (a.respond k s).1 works.1 (a.stays_ready k s works.0 ready))
