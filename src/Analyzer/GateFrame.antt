-- ===== src/Analyzer/GateFrame.antt =====
-- Which arms of `analyze` leave the gate alone.
use sentinel_kv.Prelude.{ℕ, ◌≡◌, Bool, Option, Text, arith}
use sentinel_kv.Ir.{Operand, Name, Call, GetElementPtr}
use sentinel_kv.Analyzer.State.{State, Ctx, PtrVal, mark, set_ptr, set_int, set_dest, fresh_alloc}
use sentinel_kv.Analyzer.Heap.{allocate}
use sentinel_kv.Analyzer.Memory.{spill, spill_value, reload, reload_value}
use sentinel_kv.Analyzer.Pointers.{
  gep_instr, gep_at, gep_from, gep_result, ptr_to_int_instr, ptr_to_int_at, int_to_ptr_instr,
  int_to_ptr_at, bit_cast_instr, bit_cast_at, put_int, add_instr, sub_instr,
}

-- The moves of pointers and the allocations do not touch the gate.
pub gate-gep_instr : (ctx : Ctx) (g : GetElementPtr) (s : State) → (gep_instr ctx g s).gate ≡ s.gate
unfolding gep_instr gep_at gep_from gep_result set_ptr mark
gate-gep_instr ctx g s = ground arith

pub gate-put_int :
    (o : _) (b : Bool) (d : Name) (m : Text) (s : State) → (put_int o b d m s).gate ≡ s.gate
unfolding put_int set_int mark
gate-put_int o b d m s = ground arith

pub gate-allocate : (c : Call) (n : ℕ) (s : State) → (allocate c n s).gate ≡ s.gate
unfolding allocate set_dest set_ptr fresh_alloc
gate-allocate c n s = ground arith

pub gate-spill : (n : Name) (v : Operand) (s : State) → (spill n v s).gate ≡ s.gate
unfolding spill spill_value
gate-spill n v s = ground arith

pub gate-reload : (n d : Name) (s : State) → (reload n d s).gate ≡ s.gate
unfolding reload reload_value set_ptr
gate-reload n d s = ground arith

pub gate-ptr_to_int_instr :
    (op : Operand) (d : Name) (s : State) → (ptr_to_int_instr op d s).gate ≡ s.gate
unfolding ptr_to_int_instr ptr_to_int_at set_int mark
gate-ptr_to_int_instr op d s = ground arith

pub gate-int_to_ptr_instr :
    (op : Operand) (d : Name) (s : State) → (int_to_ptr_instr op d s).gate ≡ s.gate
unfolding int_to_ptr_instr int_to_ptr_at set_ptr mark
gate-int_to_ptr_instr op d s = ground arith

pub gate-bit_cast_instr :
    (op : Operand) (d : Name) (s : State) → (bit_cast_instr op d s).gate ≡ s.gate
unfolding bit_cast_instr bit_cast_at set_ptr mark
gate-bit_cast_instr op d s = ground arith

pub gate-add_instr : (a b : Operand) (d : Name) (s : State) → (add_instr a b d s).gate ≡ s.gate
unfolding add_instr
gate-add_instr a b d s = gate-put_int _ _ d _ s

pub gate-sub_instr : (a b : Operand) (d : Name) (s : State) → (sub_instr a b d s).gate ≡ s.gate
unfolding sub_instr put_int set_int mark
gate-sub_instr a b d s = ground arith

pub gate-set_dest : (d : Option Name) (p : PtrVal) (s : State) → (set_dest d p s).gate ≡ s.gate
unfolding set_dest set_ptr
gate-set_dest d p s = ground arith
