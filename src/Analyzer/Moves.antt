-- ===== src/Analyzer/Moves.antt =====
-- The arms of `analyze` that move a pointer, on the bookkeeping of the state.
use sentinel_kv.Prelude.{ℕ, ◌≡◌, refl, Option, none, some, Text, get, arith, ◌>>=◌, Bool}
use sentinel_kv.Prelude.Int.{ℤ}
use sentinel_kv.Ir.{Operand, Name, name_eq, GetElementPtr, operand_local_name}
use sentinel_kv.Analyzer.State.{State, Ctx, PtrVal, kmalloc, dma_alloc, IntVal}
use sentinel_kv.Analyzer.Pointers.{
  gep_instr, gep_at, gep_from, gep_result, or_else, int_of_ptr, ptr_of_int, or_unknown,
  ptr_to_int_instr, ptr_to_int_at, int_to_ptr_instr, int_to_ptr_at, bit_cast_instr, bit_cast_at,
  int_of, shift_up, shift_down, add_out, sub_out, put_int, add_instr, sub_instr,
}
use sentinel_kv.Analyzer.Ends.{if_keeps}
use sentinel_kv.Analyzer.Provenance.{
  IsWellFormed, PtrBelow, IntBelow, ptr_at, spilled_at, int_at, set_ptr-IsWellFormed,
  set_int-IsWellFormed,
}
use sentinel_kv.Analyzer.WellFormed.{mark-IsWellFormed}

-- what a lookup may give, a pointer or an integer made from one
abbrev PtrsBelow : ℕ → Option PtrVal → Type 0
PtrsBelow n none = Unit
PtrsBelow n (some p) = PtrBelow n p

abbrev IntsBelow : ℕ → Option IntVal → Type 0
IntsBelow n none = Unit
IntsBelow n (some v) = IntBelow n v

PtrsBelow-of :
    (n : ℕ) (o : Option PtrVal) → ((p : PtrVal) → o ≡ some p → PtrBelow n p) → PtrsBelow n o
PtrsBelow-of n none h = tt
PtrsBelow-of n (some p) h = h p refl

IntsBelow-of :
    (n : ℕ) (o : Option IntVal) → ((v : IntVal) → o ≡ some v → IntBelow n v) → IntsBelow n o
IntsBelow-of n none h = tt
IntsBelow-of n (some v) h = h v refl

or_else-below :
    (n : ℕ) (a b : Option PtrVal) → PtrsBelow n a → PtrsBelow n b → PtrsBelow n (or_else a b)
unfolding or_else
or_else-below n none b ha hb = hb
or_else-below n (some p) b ha hb = ha

int_of_ptr-below : (n : ℕ) (o : Option PtrVal) → PtrsBelow n o → IntBelow n (int_of_ptr o)
unfolding int_of_ptr
int_of_ptr-below n o h = ground arith

ptr_of_int-below : (n : ℕ) (o : Option IntVal) → IntsBelow n o → PtrBelow n (ptr_of_int o)
unfolding ptr_of_int
ptr_of_int-below n o h = ground arith

or_unknown-below : (n : ℕ) (o : Option PtrVal) → PtrsBelow n o → PtrBelow n (or_unknown o)
unfolding or_unknown
or_unknown-below n o h = ground arith

add_out-below :
    (n : ℕ) (a b : Option IntVal) (x y : Option ℕ)
    → IntsBelow n a
    → IntsBelow n b
    → IntsBelow n (add_out a b x y)
unfolding add_out shift_up
add_out-below n a b x y ha hb = ground arith

sub_out-below :
    (n : ℕ) (a : Option IntVal) (y : Option ℕ) → IntsBelow n a → IntsBelow n (sub_out a y)
unfolding sub_out shift_down
sub_out-below n a y ha = ground arith

module _ (s : State) (h : IsWellFormed s) where
  ptrs_at : (n : Name) → PtrsBelow s.alloc_counter (get n s.ptr_env)
  ptrs_at n = PtrsBelow-of _ _ (ptr_at s h n)

  ints_at : (n : Name) → IntsBelow s.alloc_counter (get n s.int_env)
  ints_at n = IntsBelow-of _ _ (int_at s h n)

  int_of-below : (op : Operand) → IntsBelow s.alloc_counter (int_of op s)
  unfolding int_of
  int_of-below op = go (operand_local_name op)
    where
      go : (o : Option Name) → IntsBelow s.alloc_counter (o >>= λ n. get n s.int_env)
      go none = tt
      go (some n) = ints_at n

  gep_result-IsWellFormed :
      (d : Name) (p : ℤ → PtrVal) (m : Text) (o : Option ℤ)
      → ((off : ℤ) → PtrBelow s.alloc_counter (p off))
      → IsWellFormed (gep_result d p m o s)
  unfolding gep_result
  gep_result-IsWellFormed d p m (some off) hp = set_ptr-IsWellFormed s h d _ (hp off)
  gep_result-IsWellFormed d p m none hp =
      mark-IsWellFormed _ (set_ptr-IsWellFormed s h d PtrVal.unknown tt) m

  gep_from-IsWellFormed :
      (ctx : Ctx) (gep : GetElementPtr) (o : Option PtrVal)
      → PtrsBelow s.alloc_counter o
      → IsWellFormed (gep_from ctx gep o s)
  unfolding gep_from
  gep_from-IsWellFormed ctx gep (some (kmalloc id off)) hp =
      gep_result-IsWellFormed _ (kmalloc id) _ _ (λ off. hp)
  gep_from-IsWellFormed ctx gep (some (dma_alloc id off)) hp =
      gep_result-IsWellFormed _ (dma_alloc id) _ _ (λ off. hp)
  gep_from-IsWellFormed ctx gep (some PtrVal.unknown) hp =
      set_ptr-IsWellFormed s h _ PtrVal.unknown tt
  gep_from-IsWellFormed ctx gep none hp = set_ptr-IsWellFormed s h _ PtrVal.unknown tt

  gep_at-IsWellFormed :
      (ctx : Ctx) (gep : GetElementPtr) (o : Option Name) → IsWellFormed (gep_at ctx gep o s)
  unfolding gep_at
  gep_at-IsWellFormed ctx gep (some n) =
      gep_from-IsWellFormed ctx gep _
        (or_else-below _ _ _ (ptrs_at n) (PtrsBelow-of _ _ (spilled_at s h n)))
  gep_at-IsWellFormed ctx gep none =
      mark-IsWellFormed _ (set_ptr-IsWellFormed s h _ PtrVal.unknown tt) _

  pub gep_instr-IsWellFormed :
      (ctx : Ctx) (gep : GetElementPtr) → IsWellFormed (gep_instr ctx gep s)
  unfolding gep_instr
  gep_instr-IsWellFormed ctx gep = gep_at-IsWellFormed ctx gep _

  ptr_to_int_at-IsWellFormed : (o : Option Name) (d : Name) → IsWellFormed (ptr_to_int_at o d s)
  unfolding ptr_to_int_at
  ptr_to_int_at-IsWellFormed (some n) d =
      set_int-IsWellFormed s h d _ (int_of_ptr-below _ _ (ptrs_at n))
  ptr_to_int_at-IsWellFormed none d =
      mark-IsWellFormed _ (set_int-IsWellFormed s h d IntVal.unknown tt) _

  int_to_ptr_at-IsWellFormed : (o : Option Name) (d : Name) → IsWellFormed (int_to_ptr_at o d s)
  unfolding int_to_ptr_at
  int_to_ptr_at-IsWellFormed (some n) d =
      set_ptr-IsWellFormed s h d _ (ptr_of_int-below _ _ (ints_at n))
  int_to_ptr_at-IsWellFormed none d =
      mark-IsWellFormed _ (set_ptr-IsWellFormed s h d PtrVal.unknown tt) _

  bit_cast_at-IsWellFormed : (o : Option Name) (d : Name) → IsWellFormed (bit_cast_at o d s)
  unfolding bit_cast_at
  bit_cast_at-IsWellFormed (some n) d =
      set_ptr-IsWellFormed s h d _ (or_unknown-below _ _ (ptrs_at n))
  bit_cast_at-IsWellFormed none d =
      mark-IsWellFormed _ (set_ptr-IsWellFormed s h d PtrVal.unknown tt) _

  put_int-IsWellFormed :
      (o : Option IntVal) (b : Bool) (d : Name) (m : Text)
      → IntsBelow s.alloc_counter o
      → IsWellFormed (put_int o b d m s)
  unfolding put_int
  put_int-IsWellFormed (some v) b d m hv = set_int-IsWellFormed s h d v hv
  put_int-IsWellFormed none b d m hv =
      if_keeps IsWellFormed b _ _
        (mark-IsWellFormed _ (set_int-IsWellFormed s h d IntVal.unknown tt) m) h

module _ (s : State) (h : IsWellFormed s) where
  pub ptr_to_int_instr-IsWellFormed :
      (op : Operand) (d : Name) → IsWellFormed (ptr_to_int_instr op d s)
  unfolding ptr_to_int_instr
  ptr_to_int_instr-IsWellFormed op d = ptr_to_int_at-IsWellFormed s h _ d

  pub int_to_ptr_instr-IsWellFormed :
      (op : Operand) (d : Name) → IsWellFormed (int_to_ptr_instr op d s)
  unfolding int_to_ptr_instr
  int_to_ptr_instr-IsWellFormed op d = int_to_ptr_at-IsWellFormed s h _ d

  pub bit_cast_instr-IsWellFormed : (op : Operand) (d : Name) → IsWellFormed (bit_cast_instr op d s)
  unfolding bit_cast_instr
  bit_cast_instr-IsWellFormed op d = bit_cast_at-IsWellFormed s h _ d

  pub add_instr-IsWellFormed : (a b : Operand) (d : Name) → IsWellFormed (add_instr a b d s)
  unfolding add_instr
  add_instr-IsWellFormed a b d =
      put_int-IsWellFormed s h _ _ d _
        (add_out-below _ _ _ _ _ (int_of-below s h a) (int_of-below s h b))

  pub sub_instr-IsWellFormed : (a b : Operand) (d : Name) → IsWellFormed (sub_instr a b d s)
  unfolding sub_instr
  sub_instr-IsWellFormed a b d =
      let kept = put_int-IsWellFormed s h _ _ d _ (sub_out-below _ _ _ (int_of-below s h a)) in
      if_keeps IsWellFormed _ _ _ (mark-IsWellFormed _ kept _) kept
