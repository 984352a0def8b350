-- ===== src/Analyzer/Soundness.antt =====
-- The bounds checks of `analyze` (skv-analyzer/src/main.rs) and the accesses that they are for.
use sentinel_kv.Prelude.{
  ℕ, ◌≡◌, refl, true, false, Option, none, some, List, [], ◌∷◌, ◌++◌, All, Text, contains, nat_eq,
  arith,
}
use sentinel_kv.Prelude.Int.{ℤ}
use sentinel_kv.Ir.{Operand, name_eq, Call}
use sentinel_kv.Policy.{pass, is_fail, mark_unknown}
use sentinel_kv.Gate.{IsSound, AccessCheckResult, oob, safe, solver_unknown, hitl_blocked}
use sentinel_kv.Gate.Bounds.{check_access-safe}
use sentinel_kv.Analyzer.State.{State, Ctx, Site, Flow, mark, or_mark, or_continue, break_if_failed}
use sentinel_kv.Analyzer.Memory.{
  settle, bounds_check, memset_call, memcpy_operand, memcpy_call, tracked_access, irq_race_check,
  race_after,
}
use sentinel_kv.Analyzer.Access.{
  Access, InBounds, AreInBounds, given, at, kmalloc_access, memset_accesses, memcpy_accesses,
}
use sentinel_kv.Analyzer.Ends.{
  Ends, goes_on, leaves, Ends-if, Ends-or_freed, Ends-or_mark, Ends-or_continue, Ends-map,
  Ends-both, Ends-fail_with, Ends-and_then,
}

-- A state behind `s` in which the verdict is `Pass` shows `G`, and that it was `Pass` at `s`.
abbrev pub PassMeans : State → Type 0 → State → Type 0
PassMeans s G s' = s'.final_result ≡ pass → (s.final_result ≡ pass) × G

abbrev pub Failed : State → Type 0
Failed s = is_fail s.final_result ≡ true

-- `G` holds whenever the arm goes on with the verdict `Pass`
abbrev pub Sound : State → Type 0 → Flow → Type 0
Sound s G = Ends (PassMeans s G) Failed

pub mark-ne-pass : (m : Text) (s : State) → ¬ ((mark m s).final_result ≡ pass)
unfolding mark mark_unknown
mark-ne-pass m s e = ground arith

pub nothing : {t : State} → AreInBounds t []
nothing = record { each = tt }

module _ {A : Type 0} (t s : State) where
  pub Sound-or_mark :
      (o : Option A) (m : Text) (f : A → List Access) (k : A → Flow)
      → ((a : A) → o ≡ some a → Sound s (AreInBounds t (f a)) (k a))
      → Sound s (AreInBounds t (given o f)) (or_mark o m s k)
  unfolding or_mark given
  Sound-or_mark none m f k hk = goes_on λ e. absurd (mark-ne-pass m s e)
  Sound-or_mark (some a) m f k hk = hk a refl

  pub Sound-or_continue :
      (o : Option A) (f : A → List Access) (k : A → Flow)
      → ((a : A) → o ≡ some a → Sound s (AreInBounds t (f a)) (k a))
      → Sound s (AreInBounds t (given o f)) (or_continue o s k)
  unfolding or_continue given
  Sound-or_continue none f k hk = goes_on λ e. (e, nothing)
  Sound-or_continue (some a) f k hk = hk a refl

settle-Sound :
    (s t : State) (G : Type 0) (r : AccessCheckResult) (a b c : Text)
    → t.final_result ≡ s.final_result
    → (r ≡ safe → G)
    → Sound s G (settle r a b c t)
unfolding settle
settle-Sound s t G oob a b c same h = Ends-fail_with _ _ refl
settle-Sound s t G safe a b c same h = goes_on λ e. (cc, h refl)
settle-Sound s t G solver_unknown a b c same h = goes_on λ e. absurd (mark-ne-pass b t e)
settle-Sound s t G hitl_blocked a b c same h = goes_on λ e. absurd (mark-ne-pass _ t e)

module _ (ctx : Ctx) (sound : IsSound ctx.solver) (s : State) where
  pub bounds_check-Sound :
      (id : ℕ) (off : ℤ) (size : ℕ) (a b c d : Text)
      → contains id s.freed_allocs ≡ false
      → Sound s (AreInBounds s (at (some size) (id, off))) (bounds_check ctx id off size a b c d s)
  unfolding bounds_check at
  bounds_check-Sound id off size a b c d live =
      Ends-or_mark _ _ s _ (λ e. absurd (mark-ne-pass _ s e))
        λ total e. settle-Sound s _ _ _ _ _ _ refl λ r.
          let fits = check_access-safe ctx.solver sound total off size a b s.gate r in
          record { each = ((live, rw e fits), tt) }

irq_race_check-pass :
    (ctx : Ctx) (site : Site) (what : Text) (id : ℕ) (s : State)
    → (irq_race_check ctx site what id s).final_result ≡ pass
    → s.final_result ≡ pass
unfolding irq_race_check mark mark_unknown
irq_race_check-pass ctx site what id s e = ground arith

race_after-pass :
    (ctx : Ctx) (site : Site) (what : Text) (id : ℕ) (o : Option ℤ) (s : State)
    → (race_after ctx site what id o s).final_result ≡ pass
    → s.final_result ≡ pass
unfolding race_after
race_after-pass ctx site what id none s e = e
race_after-pass ctx site what id (some n) s e = irq_race_check-pass ctx site what id s e

break_if_failed-Sound :
    (s : State) (G : Type 0) (fl : Flow) → Sound s G fl → Sound s G (break_if_failed fl)
unfolding break_if_failed
break_if_failed-Sound s G fl (goes_on {s = t} h) =
    Ends-if (is_fail t.final_result) _ _ (λ f. leaves f) (λ _. goes_on h)
break_if_failed-Sound s G fl (leaves {s = t} h) =
    Ends-if (is_fail t.final_result) _ _ (λ f. leaves f) (λ f. cc)

-- the fields that a bounds check reads
pub record SameHeap (s t : State) : Type 0 where
  pub ptrs : t.ptr_env ≡ s.ptr_env
  pub sizes : t.alloc_sizes ≡ s.alloc_sizes
  pub freed : t.freed_allocs ≡ s.freed_allocs

module _ (ctx : Ctx) (site : Site) (sound : IsSound ctx.solver) (s : State) where
  pub memset_call-Sound :
      (c : Call) → Sound s (AreInBounds s (memset_accesses s c)) (memset_call ctx site c s)
  unfolding memset_call memset_accesses
  memset_call-Sound c = Sound-or_continue s s _ _ _ λ dest_op _.
      Sound-or_mark s s _ _ _ _ λ len_op _. Sound-or_continue s s _ _ _ λ n _.
        Sound-or_mark s s _ _ _ _ λ len _. Sound-or_continue s s _ _ _ λ (id, off) _.
          Ends-or_freed id _ s _ refl λ live. bounds_check-Sound ctx sound s id off len _ _ _ _ live

  memcpy_operand-Sound :
      (len : ℕ) (op : Operand) (kind : Text)
      → Sound s (AreInBounds s (kmalloc_access s len op)) (memcpy_operand ctx site len op kind s)
  unfolding memcpy_operand kmalloc_access
  memcpy_operand-Sound len op kind = Sound-or_continue s s _ _ _ λ n _.
      Sound-or_continue s s _ _ _ λ (id, off) _.
        Ends-or_freed id _ s _ refl λ live. bounds_check-Sound ctx sound s id off len _ _ _ _ live

  pub tracked_access-Sound :
      (what no_size : Text) (size : Option ℕ) (id : ℕ) (off : ℤ)
      → Sound s
          (AreInBounds s (at size (id, off)))
          (tracked_access ctx site what no_size size id off s)
  unfolding tracked_access or_mark
  tracked_access-Sound what no_size none id off =
      Ends-or_freed id _ s _ refl λ live. goes_on (λ e. absurd (mark-ne-pass _ s e))
  tracked_access-Sound what no_size (some size) id off = Ends-or_freed id _ s _ refl λ live.
      Ends-and_then _ _ (bounds_check-Sound ctx sound s id off size _ _ _ _ live)
        λ s' h. goes_on λ e. h (race_after-pass ctx site what id _ s' e)

-- the first operand of `memcpy` leaves alone what the second one is checked against
module _ (ctx : Ctx) (site : Site) (s : State) where
  settle-SameHeap :
      (t : State) (r : AccessCheckResult) (a b c : Text)
      → SameHeap s t
      → Ends (SameHeap s) Failed (settle r a b c t)
  unfolding settle mark
  settle-SameHeap t oob a b c h = Ends-fail_with _ _ refl
  settle-SameHeap t safe a b c h = goes_on h
  settle-SameHeap t solver_unknown a b c h =
      goes_on (record { ptrs = h.ptrs; sizes = h.sizes; freed = h.freed })
  settle-SameHeap t hitl_blocked a b c h =
      goes_on (record { ptrs = h.ptrs; sizes = h.sizes; freed = h.freed })

  same : SameHeap s s
  same = record { ptrs = refl; sizes = refl; freed = refl }

  pub memcpy_operand-SameHeap :
      (len : ℕ) (op : Operand) (kind : Text)
      → Ends (SameHeap s) Failed (memcpy_operand ctx site len op kind s)
  unfolding memcpy_operand bounds_check mark
  memcpy_operand-SameHeap len op kind = Ends-or_continue _ s _ same λ n _.
      Ends-or_continue _ s _ same λ (id, off) _. Ends-or_freed id _ s _ refl λ live.
        Ends-or_mark _ _ s _ (record { ptrs = refl; sizes = refl; freed = refl })
          λ total _. settle-SameHeap _ _ _ _ _ (record { ptrs = refl; sizes = refl; freed = refl })

-- what is in bounds by the books of `t` is in bounds by the same books of `s`
pub AreInBounds-same :
    (s t : State) (l : List Access)
    → t.alloc_sizes ≡ s.alloc_sizes
    → t.freed_allocs ≡ s.freed_allocs
    → AreInBounds t l
    → AreInBounds s l
AreInBounds-same s t l sizes freed b = record { each = move l b.each }
  where
    move : (l : List Access) → All (InBounds t) l → All (InBounds s) l
    move [] b = tt
    move (a ∷ l) b = (rw (← sizes, ← freed) b.0, move l b.1)

AreInBounds-append :
    (s : State) (k l : List Access) → AreInBounds s k → AreInBounds s l → AreInBounds s (k ++ l)
AreInBounds-append s [] l hk hl = hl
AreInBounds-append s (a ∷ k) l hk hl = record {
  each = (hk.each.0, (AreInBounds-append s k l (record { each = hk.each.1 }) hl).each);
}

module _ (ctx : Ctx) (site : Site) (sound : IsSound ctx.solver) (s : State) where
  pub kmalloc_access-same :
      (t : State) (len : ℕ) (op : Operand)
      → SameHeap s t
      → kmalloc_access t len op ≡ kmalloc_access s len op
  unfolding kmalloc_access
  kmalloc_access-same t len op h = rw h.ptrs

  second_operand-Sound :
      (t : State) (G : Type 0) (len : ℕ) (op : Operand) (kind : Text)
      → SameHeap s t
      → PassMeans s G t
      → Ends
          (PassMeans s (G × AreInBounds s (kmalloc_access s len op)))
          Failed
          (memcpy_operand ctx site len op kind t)
  second_operand-Sound t G len op kind h first =
      Ends-map (memcpy_operand-Sound ctx site sound t len op kind) λ u b e.
        let (p, inside) = b e in
        let (q, g) = first p in
        (
          q,
          (
            g,
            AreInBounds-same s t _ h.sizes h.freed (rw (← kmalloc_access-same t len op h) inside),
          ),
        )

  pub memcpy_call-Sound :
      (c : Call) → Sound s (AreInBounds s (memcpy_accesses s c)) (memcpy_call ctx site c s)
  unfolding memcpy_call memcpy_accesses
  memcpy_call-Sound c = Sound-or_continue s s _ _ _ λ dest_op _.
      Sound-or_mark s s _ _ _ _ λ src_op _. Sound-or_mark s s _ _ _ _ λ len_op _.
        Sound-or_mark s s _ _ _ _ λ len _. break_if_failed-Sound s _ _ (
          Ends-map
            (Ends-and_then _ _
              (Ends-both (memcpy_operand-Sound ctx site sound s len dest_op _)
                (memcpy_operand-SameHeap ctx site s len dest_op _))
              λ t both. second_operand-Sound t _ len src_op _ both.1 both.0)
            λ u b e. let (p, g) = b e in (p, AreInBounds-append s _ _ g.0 g.1))
