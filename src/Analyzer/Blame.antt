-- ===== src/Analyzer/Blame.antt =====
-- Where `analyze` (skv-analyzer/src/main.rs) leaves a loop by `break`, and the fault that it then found.
use sentinel_kv.Prelude.{
  get, ℕ, ◌≡◌, refl, true, false, Option, none, some, List, [], ◌∷◌, ◌++◌, Text, contains, nat_eq,
  inl, inr, arith,
}
use sentinel_kv.Prelude.Int.{ℤ}
use sentinel_kv.Ir.{Operand, name_eq, Call}
use sentinel_kv.Policy.{is_fail, mark_unknown}
use sentinel_kv.Gate.{IsSound, AccessCheckResult, oob, safe, solver_unknown, hitl_blocked}
use sentinel_kv.Gate.Bounds.{check_access-oob}
use sentinel_kv.Analyzer.State.{
  State, Ctx, Site, Flow, mark, or_mark, or_continue, or_freed, break_if_failed, fail_with,
}
use sentinel_kv.Analyzer.Memory.{
  settle, bounds_check, memset_call, memcpy_operand, memcpy_call, tracked_access, irq_race_check,
  race_after,
}
use sentinel_kv.Analyzer.Access.{
  Access, given, at, kmalloc_access, memset_accesses, memcpy_accesses,
}
use sentinel_kv.Analyzer.Ends.{
  Ends, goes_on, leaves, Ends-if, Ends-or_mark, Ends-or_continue, Ends-and_then, Ends-both,
}
use sentinel_kv.Analyzer.Soundness.{SameHeap, memcpy_operand-SameHeap, kmalloc_access-same}
use sentinel_kv.Analyzer.Fault.{Violates, AnyOf}

abbrev pub NotFailed : State → Type 0
NotFailed s = is_fail s.final_result ≡ false

-- The arm goes on with no failure, or it is left and `G` tells why.
abbrev pub Blames : Type 0 → Flow → Type 0
Blames G = Ends NotFailed (λ _. G)

pub mark-NotFailed : (m : Text) (s : State) → NotFailed s → NotFailed (mark m s)
unfolding mark mark_unknown
mark-NotFailed m s h = ground arith

module _ (s : State) (live : NotFailed s) where
  module _ {A G : Type 0} where
    pub or_mark-Blames :
        (o : Option A) (m : Text) (k : A → Flow)
        → ((a : A) → o ≡ some a → Blames G (k a))
        → Blames G (or_mark o m s k)
    or_mark-Blames o m k h = Ends-or_mark o m s k (mark-NotFailed m s live) h

    pub or_continue-Blames :
        (o : Option A) (k : A → Flow)
        → ((a : A) → o ≡ some a → Blames G (k a))
        → Blames G (or_continue o s k)
    or_continue-Blames o k h = Ends-or_continue o s k live h

  pub or_freed-Blames :
      {G : Type 0} (id : ℕ) (m : Text) (fl : Flow)
      → (contains id s.freed_allocs ≡ true → G)
      → Blames G fl
      → Blames G (or_freed id m s fl)
  unfolding or_freed fail_with
  or_freed-Blames id m fl h k = Ends-if _ _ _ (λ e. leaves (h e)) (λ _. k)

  -- the accesses behind a value that the arm looks up
  module _ {A : Type 0} (P : Access → Type 0) where
    given_mark-Blames :
        (o : Option A) (m : Text) (f : A → List Access) (k : A → Flow)
        → ((a : A) → Blames (AnyOf P (f a)) (k a))
        → Blames (AnyOf P (given o f)) (or_mark o m s k)
    unfolding or_mark given
    given_mark-Blames none m f k h = goes_on (mark-NotFailed m s live)
    given_mark-Blames (some a) m f k h = h a

    pub given_continue-Blames :
        (o : Option A) (f : A → List Access) (k : A → Flow)
        → ((a : A) → Blames (AnyOf P (f a)) (k a))
        → Blames (AnyOf P (given o f)) (or_continue o s k)
    unfolding or_continue given
    given_continue-Blames none f k h = goes_on live
    given_continue-Blames (some a) f k h = h a

settle-Blames :
    (t : State) (G : Type 0) (r : AccessCheckResult) (a b c : Text)
    → NotFailed t
    → (r ≡ oob → G)
    → Blames G (settle r a b c t)
unfolding settle fail_with
settle-Blames t G oob a b c live h = leaves (h refl)
settle-Blames t G safe a b c live h = goes_on live
settle-Blames t G solver_unknown a b c live h = goes_on (mark-NotFailed b t live)
settle-Blames t G hitl_blocked a b c live h = goes_on (mark-NotFailed _ t live)

module _ (ctx : Ctx) (sound : IsSound ctx.solver) (s : State) (live : NotFailed s) where
  -- an access of the allocation `id`, which the books of `s` find out of bounds
  bounds_check-Blames :
      (id : ℕ) (off : ℤ) (size : ℕ) (a b c d : Text)
      → Blames
          (AnyOf (Violates s) (at (some size) (id, off)))
          (bounds_check ctx id off size a b c d s)
  unfolding bounds_check at
  bounds_check-Blames id off size a b c d = or_mark-Blames s live _ _ _ λ total e.
      settle-Blames _ _ _ _ _ _ live λ r.
        inl (
          inr (total, size, e, refl, check_access-oob ctx.solver sound total off size a b s.gate r))

  checked-Blames :
      (id : ℕ) (off : ℤ) (size : ℕ) (m a b c d : Text)
      → Blames
          (AnyOf (Violates s) (at (some size) (id, off)))
          (or_freed id m s (bounds_check ctx id off size a b c d s))
  unfolding at
  checked-Blames id off size m a b c d =
      or_freed-Blames s live id m _ (λ e. inl (inl e)) (bounds_check-Blames id off size a b c d)

AnyOf-left : (P : Access → Type 0) (k l : List Access) → AnyOf P k → AnyOf P (k ++ l)
AnyOf-left P [] l h = absurd h
AnyOf-left P (a ∷ k) l (inl h) = inl h
AnyOf-left P (a ∷ k) l (inr h) = inr (AnyOf-left P k l h)

AnyOf-right : (P : Access → Type 0) (k l : List Access) → AnyOf P l → AnyOf P (k ++ l)
AnyOf-right P [] l h = h
AnyOf-right P (a ∷ k) l h = inr (AnyOf-right P k l h)

pub AnyOf-map :
    (P Q : Access → Type 0) (l : List Access) → ((a : Access) → P a → Q a) → AnyOf P l → AnyOf Q l
AnyOf-map P Q [] f h = h
AnyOf-map P Q (a ∷ l) f (inl h) = inl (f a h)
AnyOf-map P Q (a ∷ l) f (inr h) = inr (AnyOf-map P Q l f h)

-- a fault by the books of `t` is one by the same books of `s`
pub Violates-same :
    (s t : State) (a : Access)
    → t.alloc_sizes ≡ s.alloc_sizes
    → t.freed_allocs ≡ s.freed_allocs
    → Violates t a
    → Violates s a
Violates-same s t a sizes freed (inl h) = inl (rw (← freed) h)
Violates-same s t a sizes freed (inr (total, size, e, known, out)) =
    inr (total, size, rw (← sizes) e, known, out)

module _ {G H : Type 0} where
  pub Blames-map : {fl : Flow} → Blames G fl → (G → H) → Blames H fl
  Blames-map (goes_on h) f = goes_on h
  Blames-map (leaves h) f = leaves (f h)

break_if_failed-Blames : {G : Type 0} (fl : Flow) → Blames G fl → Blames G (break_if_failed fl)
unfolding break_if_failed
break_if_failed-Blames fl (goes_on h) = rw h (goes_on h)
break_if_failed-Blames fl (leaves {s = t} h) =
    Ends-if (is_fail t.final_result) _ _ (λ _. leaves h) (λ e. goes_on e)

module _ (ctx : Ctx) (site : Site) (sound : IsSound ctx.solver) (s : State)
    (live : NotFailed s) where
  pub memset_call-Blames :
      (c : Call) → Blames (AnyOf (Violates s) (memset_accesses s c)) (memset_call ctx site c s)
  unfolding memset_call memset_accesses
  memset_call-Blames c = given_continue-Blames s live _ _ _ _ λ dest_op.
      given_mark-Blames s live _ _ _ _ _ λ len_op. given_continue-Blames s live _ _ _ _ λ n.
        given_mark-Blames s live _ _ _ _ _ λ len.
          given_continue-Blames s live _ _ _ _
            λ (id, off). checked-Blames ctx sound s live id off len _ _ _ _ _

  memcpy_operand-Blames :
      (len : ℕ) (op : Operand) (kind : Text)
      → Blames
          (AnyOf (Violates s) (kmalloc_access s len op))
          (memcpy_operand ctx site len op kind s)
  unfolding memcpy_operand kmalloc_access
  memcpy_operand-Blames len op kind = given_continue-Blames s live _ _ _ _ λ n.
      given_continue-Blames s live _ _ _ _
        λ (id, off). checked-Blames ctx sound s live id off len _ _ _ _ _

  pub tracked_access-Blames :
      (what no_size : Text) (size : Option ℕ) (id : ℕ) (off : ℤ)
      → Blames
          (AnyOf (Violates s) (at size (id, off)))
          (tracked_access ctx site what no_size size id off s)
  unfolding tracked_access or_mark at race_after
  tracked_access-Blames what no_size none id off =
      or_freed-Blames s live id _ _ (λ e. inl (inl e)) (goes_on (mark-NotFailed _ s live))
  tracked_access-Blames what no_size (some size) id off =
      or_freed-Blames s live id _ _ (λ e. inl (inl e))
        (Ends-and_then _ _ (bounds_check-Blames ctx sound s live id off size _ _ _ _)
          λ t h. goes_on (raced t (get id s.alloc_sizes) h))
    where
      race : (t : State) → NotFailed t → NotFailed (irq_race_check ctx site what id t)
      race t h = unfold irq_race_check mark mark_unknown in ground arith

      raced : (t : State) (o : Option ℤ) → NotFailed t → NotFailed (race_after ctx site what id o t)
      raced t none h = h
      raced t (some n) h = race t h

module _ (ctx : Ctx) (site : Site) (sound : IsSound ctx.solver) (s : State)
    (live : NotFailed s) where
  second_operand-Blames :
      (t : State) (len : ℕ) (op : Operand) (kind : Text)
      → SameHeap s t
      → NotFailed t
      → Blames
          (AnyOf (Violates s) (kmalloc_access s len op))
          (memcpy_operand ctx site len op kind t)
  second_operand-Blames t len op kind h up =
      Blames-map (memcpy_operand-Blames ctx site sound t up len op kind) λ b.
        rw (← kmalloc_access-same ctx site sound s t len op h)
          (AnyOf-map _ _ _ (λ a. Violates-same s t a h.sizes h.freed) b)

  pub memcpy_call-Blames :
      (c : Call) → Blames (AnyOf (Violates s) (memcpy_accesses s c)) (memcpy_call ctx site c s)
  unfolding memcpy_call memcpy_accesses
  memcpy_call-Blames c = given_continue-Blames s live _ _ _ _ λ dest_op.
      given_mark-Blames s live _ _ _ _ _ λ src_op. given_mark-Blames s live _ _ _ _ _ λ len_op.
        given_mark-Blames s live _ _ _ _ _ λ len. break_if_failed-Blames _ (
          Ends-and_then _ _
            (Ends-both
              (Blames-map (memcpy_operand-Blames ctx site sound s live len dest_op _)
                (AnyOf-left _ _ _))
              (memcpy_operand-SameHeap ctx site s len dest_op _))
            λ t both.
              Blames-map (second_operand-Blames t len src_op _ both.1 both.0) (AnyOf-right _ _ _))
