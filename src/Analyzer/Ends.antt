-- ===== src/Analyzer/Ends.antt =====
-- How an arm of `analyze` ends: `P` of the state with which the loop goes on, `Q` of the state with
-- which it is left. One rule for each way in which the arms are put together.
use sentinel_kv.Prelude.{
  ℕ, ◌≡◌, refl, Bool, true, false, Option, none, some, Text, nat_eq, contains, if◌then◌else◌,
}
use sentinel_kv.Policy.{fail, is_fail}
use sentinel_kv.Analyzer.State.{
  State, Flow, next, stop, mark, fail_with, or_mark, or_continue, or_freed, and_then,
  break_if_failed,
}

pub data Ends (P Q : State → Type 0) : Flow → Type 0 where
  goes_on : {s : State} → P s → Ends P Q (next s)
  leaves : {s : State} → Q s → Ends P Q (stop s)

abbrev pub Ended : (State → Type 0) → (State → Type 0) → Flow → Type 0
Ended P Q (next s) = P s
Ended P Q (stop s) = Q s

module _ {P Q : State → Type 0} where
  pub ended : {fl : Flow} → Ends P Q fl → Ended P Q fl
  ended (goes_on h) = h
  ended (leaves h) = h

  pub Ends-if :
      (b : Bool) (x y : Flow)
      → (b ≡ true → Ends P Q x)
      → (b ≡ false → Ends P Q y)
      → Ends P Q (if b then x else y)
  Ends-if true x y hx hy = hx refl
  Ends-if false x y hx hy = hy refl

  pub Ends-fail_with :
      (m : Text) (s : State) → Q (record s { final_result = fail m }) → Ends P Q (fail_with m s)
  unfolding fail_with
  Ends-fail_with m s h = leaves h

  pub Ends-or_freed :
      (id : ℕ) (m : Text) (s : State) (fl : Flow)
      → Q (record s { final_result = fail m })
      → (contains id s.freed_allocs ≡ false → Ends P Q fl)
      → Ends P Q (or_freed id m s fl)
  unfolding or_freed
  Ends-or_freed id m s fl hq h = Ends-if _ _ _ (λ _. Ends-fail_with m s hq) h

module _ {P Q : State → Type 0} {A : Type 0} where
  pub Ends-or_mark :
      (o : Option A) (m : Text) (s : State) (k : A → Flow)
      → P (mark m s)
      → ((a : A) → o ≡ some a → Ends P Q (k a))
      → Ends P Q (or_mark o m s k)
  unfolding or_mark
  Ends-or_mark none m s k h hk = goes_on h
  Ends-or_mark (some a) m s k h hk = hk a refl

  pub Ends-or_continue :
      (o : Option A) (s : State) (k : A → Flow)
      → P s
      → ((a : A) → o ≡ some a → Ends P Q (k a))
      → Ends P Q (or_continue o s k)
  unfolding or_continue
  Ends-or_continue none s k h hk = goes_on h
  Ends-or_continue (some a) s k h hk = hk a refl

module _ {P Q R : State → Type 0} where
  pub Ends-and_then :
      (fl : Flow) (k : State → Flow)
      → Ends R Q fl
      → ((s : State) → R s → Ends P Q (k s))
      → Ends P Q (and_then fl k)
  unfolding and_then
  Ends-and_then fl k (goes_on h) hk = hk _ h
  Ends-and_then fl k (leaves h) hk = leaves h

-- both branches of a conditional update
pub if_keeps : (P : State → Type 0) (b : Bool) (x y : State) → P x → P y → P (if b then x else y)
if_keeps P true x y hx hy = hx
if_keeps P false x y hx hy = hy

module _ {P : State → Type 0} where
  pub Ends-break_if_failed : (fl : Flow) → Ends P P fl → Ends P P (break_if_failed fl)
  unfolding break_if_failed
  Ends-break_if_failed fl (goes_on {s} h) =
      Ends-if (is_fail s.final_result) _ _ (λ _. leaves h) (λ _. goes_on h)
  Ends-break_if_failed fl (leaves {s} h) =
      Ends-if (is_fail s.final_result) _ _ (λ _. leaves h) (λ _. goes_on h)

module _ {P Q R S : State → Type 0} where
  pub Ends-both : {fl : Flow} → Ends P Q fl → Ends R S fl → Ends (λ s. P s × R s) Q fl
  Ends-both (goes_on h) k = goes_on (h, ended k)
  Ends-both (leaves h) k = leaves h

module _ {P Q R : State → Type 0} where
  pub Ends-map : {fl : Flow} → Ends P Q fl → ((s : State) → P s → R s) → Ends R Q fl
  Ends-map (goes_on h) f = goes_on (f _ h)
  Ends-map (leaves h) f = leaves h
